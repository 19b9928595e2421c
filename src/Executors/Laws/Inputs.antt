-- ===== src/Executors/Laws/Inputs.antt =====
-- Which artifacts a claim hands to an executor: the inputs of claim_stage,
-- src/umat/api/executor_routes.py.
use e_rakshak_umat.Prelude.{◌≡◌, ◌≢◌, refl, true, Option, none, some, List, [], ◌∷◌, ==_iff, arith}
use e_rakshak_umat.Prelude.Tables.{All}
use e_rakshak_umat.Prelude.Tables.Queries.{All-select, All-order_by}
use e_rakshak_umat.Models.Rows.{AnalysisRun, AnalysisStage, Artifact, stage_entity}
use e_rakshak_umat.Environment.{Env}
use e_rakshak_umat.Database.{Db}
use e_rakshak_umat.Executors.Claim.Inputs.{
  ClaimArtifact, allowed_input_kinds, kind_allowed, is_finished, source_of, finished_source,
  is_input, as_claimed, collect_inputs,
}

-- The artifact is one of the run, of a kind that the stage may read, and another stage that is
-- completed or partial has made it.
pub record IsInput (stage : AnalysisStage) (run : AnalysisRun) (db : Db) (c : ClaimArtifact)
    : Type 0 where
  pub artifact : Artifact
  pub same : (c.artifact_id ≡ artifact.id) × (c.sha256 ≡ artifact.sha256)
  pub of_run : artifact.analysis_run_id ≡ run.id
  pub kind : kind_allowed (allowed_input_kinds stage.stage_type) artifact.kind ≡ true
  pub source : AnalysisStage
  pub made_by : source_of db artifact.stage_id ≡ some source
  pub other : source.id ≢ stage.id
  pub finished : is_finished source.state ≡ true

module _ (env : Env) (stage : AnalysisStage) (run : AnalysisRun) (db : Db) where
  input_source :
      (a : Artifact) (o : Option AnalysisStage)
      → source_of db a.stage_id ≡ o
      → finished_source o stage.id ≡ true
      → (s : AnalysisStage) × (source_of db a.stage_id ≡ some s)
        × (s.id ≢ stage.id)
        × (is_finished s.state ≡ true)
  input_source a none e f = ground arith
  input_source a (some s) e f =
      (s, e, λ same. ground (arith, f, (==_iff s.id stage.id).1 same), ground arith)

  claimed_inputs :
      (xs : List Artifact)
      → All (λ a. is_input stage run db a ≡ true) xs
      → All (IsInput stage run db) (as_claimed env stage db xs)
  unfolding as_claimed is_input
  claimed_inputs [] h = tt
  claimed_inputs (a ∷ as') h =
      let (s, made, other, done) =
        input_source a (source_of db a.stage_id) refl (ground (arith, h.0)) in
      (
        record {
          artifact = a;
          same = (refl, refl);
          of_run = (==_iff a.analysis_run_id run.id).0 (ground (arith, h.0));
          kind = ground (arith, h.0);
          source = s;
          made_by = made;
          other = other;
          finished = done;
        },
        claimed_inputs as' h.1,
      )

  -- Every artifact that a claim lists is one of the stage's run, of a kind that the stage may read,
  -- made by another stage that is completed or partial, and listed with its own digest.
  pub collect_inputs-IsInput : All (IsInput stage run db) (collect_inputs env stage run db)
  unfolding collect_inputs
  collect_inputs-IsInput = claimed_inputs _ (
      All-order_by (λ a. is_input stage run db a ≡ true) _ _
        (All-select (λ a. is_input stage run db a ≡ true) _ db.artifacts (all_pass db.artifacts)))
    where
      all_pass :
          (xs : List Artifact)
          → All (λ x. is_input stage run db x ≡ true → is_input stage run db x ≡ true) xs
      all_pass [] = tt
      all_pass (x ∷ xs) = ((λ t. t), all_pass xs)
