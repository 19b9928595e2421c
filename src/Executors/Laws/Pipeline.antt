-- ===== src/Executors/Laws/Pipeline.antt =====
-- The stage pipeline: create_next_stage and advance_workflow of src/umat/api/executor_routes.py.
use e_rakshak_umat.Prelude.{
  ℕ, ◌+◌, ◌==◌, ◌&&◌, ◌||◌, ltb, sym, ◌∙◌, ◌≤◌, ◌≡◌, ◌⊎◌, refl, inl, inr, Bool, true, false, not,
  none, List, [], ◌∷◌, is_some, Bool-cases, Option-cases, arith, if◌then◌else◌,
}
use e_rakshak_umat.Prelude.Tables.{scalar, count}
use e_rakshak_umat.Models.{
  StageType, StageState, state_eq, platform_analysis, c2_analysis, platform_adaptation,
  c2_adaptation, case_aggregation, report_generation, type_eq,
}
use e_rakshak_umat.Models.Rows.{AnalysisRun, AnalysisStage}
use e_rakshak_umat.Environment.{Env}
use e_rakshak_umat.Database.{Db}
use e_rakshak_umat.Database.Rules.{branch}
use e_rakshak_umat.Executors.Workflow.{
  queued_stage, create_next_stage, of_type, is_adaptation, adaptation_of, adaptations_done,
  after_adaptation, advance, advance_workflow,
}

-- whether the run has a stage of the type
abbrev pub has_stage : ℕ → StageType → Db → Bool
has_stage run_id t db = is_some (scalar (of_type run_id t) db.stages)

type_eq_refl : (t : StageType) → type_eq t t ≡ true
type_eq_refl t = ground arith

none_counted :
    (p : AnalysisStage → Bool) (xs : List AnalysisStage) → scalar p xs ≡ none → count p xs ≡ 0
unfolding scalar count
none_counted p [] h = refl
none_counted p (x ∷ xs) h = ground (arith, none_counted p xs)

-- a completed stage of the type
abbrev pub completed_of : ℕ → StageType → AnalysisStage → Bool
completed_of run_id t s = of_type run_id t s && state_eq s.state StageState.completed

abbrev pub has_completed : ℕ → StageType → Db → Bool
has_completed run_id t db = is_some (scalar (completed_of run_id t) db.stages)

open_adaptation : ℕ → AnalysisStage → Bool
open_adaptation run_id s = adaptation_of run_id s && not (state_eq s.state StageState.completed)

found_counted :
    (p : AnalysisStage → Bool) (xs : List AnalysisStage)
    → is_some (scalar p xs) ≡ ltb 0 (count p xs)
unfolding scalar count
found_counted p [] = refl
found_counted p (x ∷ xs) = ground (arith, found_counted p xs)

-- the two types of adaptations, which are different
adaptation_types :
    (t : StageType)
    → (is_adaptation t ≡ type_eq t platform_adaptation || type_eq t c2_adaptation)
      × (type_eq t platform_adaptation && type_eq t c2_adaptation ≡ false)
adaptation_types platform_analysis = (refl, refl)
adaptation_types c2_analysis = (refl, refl)
adaptation_types platform_adaptation = (refl, refl)
adaptation_types c2_adaptation = (refl, refl)
adaptation_types case_aggregation = (refl, refl)
adaptation_types report_generation = (refl, refl)

abbrev bit : Bool → ℕ
bit true = 1
bit false = 0

count-cons :
    (p : AnalysisStage → Bool) (x : AnalysisStage) (xs : List AnalysisStage)
    → count p (x ∷ xs) ≡ bit (p x) + count p xs
unfolding count
count-cons p x xs = ground arith

-- a row as it counts for each of the tests
row_counted :
    (mine adaptation platform c2 completed : Bool)
    → adaptation ≡ platform || c2
    → platform && c2 ≡ false
    → (bit (mine && adaptation) ≡ bit (mine && platform) + bit (mine && c2))
      × (bit (mine && adaptation)
          ≡ bit ((mine && adaptation) && not completed)
            + (bit ((mine && platform) && completed) + bit ((mine && c2) && completed)))
row_counted false adaptation platform c2 completed e f = (refl, refl)
row_counted true adaptation true true completed e f = absurd (ground (arith, f))
row_counted true adaptation true false true e f = rw e (refl, refl)
row_counted true adaptation true false false e f = rw e (refl, refl)
row_counted true adaptation false true true e f = rw e (refl, refl)
row_counted true adaptation false true false e f = rw e (refl, refl)
row_counted true adaptation false false completed e f = rw e (refl, refl)

-- An adaptation is of one of the two types, and is open or completed.
adaptations_counted :
    (run_id : ℕ) (xs : List AnalysisStage)
    → (count (adaptation_of run_id) xs
        ≡ count (of_type run_id platform_adaptation) xs + count (of_type run_id c2_adaptation) xs)
      × (count (adaptation_of run_id) xs
          ≡ count (open_adaptation run_id) xs
            + (count (completed_of run_id platform_adaptation) xs
                + count (completed_of run_id c2_adaptation) xs))
unfolding open_adaptation count
adaptations_counted run_id [] = (refl, refl)
adaptations_counted run_id (x ∷ xs) =
    let (types, states) = adaptations_counted run_id xs in
    let (row_types, row_states) =
      row_counted (x.analysis_run_id == run_id) (is_adaptation x.stage_type)
        (type_eq x.stage_type platform_adaptation) (type_eq x.stage_type c2_adaptation)
        (state_eq x.state StageState.completed) (adaptation_types x.stage_type).0
        (adaptation_types x.stage_type).1 in
    rw
      (
        count-cons (adaptation_of run_id) x xs,
        count-cons (of_type run_id platform_adaptation) x xs,
        count-cons (of_type run_id c2_adaptation) x xs,
        count-cons (open_adaptation run_id) x xs,
        count-cons (completed_of run_id platform_adaptation) x xs,
        count-cons (completed_of run_id c2_adaptation) x xs,
      )
      (omega (arith, types, row_types), omega (arith, types, states, row_types, row_states))

completed_le :
    (run_id : ℕ) (t : StageType) (xs : List AnalysisStage)
    → count (completed_of run_id t) xs ≤ count (of_type run_id t) xs
unfolding count
completed_le run_id t [] = omega arith
completed_le run_id t (x ∷ xs) = ground (arith, completed_le run_id t xs)

-- The run has at most one stage of each type.
abbrev pub OncePerType : ℕ → Db → Type 0
OncePerType run_id db = (t : StageType) → count (of_type run_id t) db.stages ≤ 1

module _ (env : Env) (now : ℕ) (run : AnalysisRun) where
  pub has_stage-create :
      (t : StageType) (db : Db) → has_stage run.id t (create_next_stage env now run t db) ≡ true
  unfolding create_next_stage queued_stage scalar
  has_stage-create t db = elim (Option-cases (scalar (of_type run.id t) db.stages)) [
    | inl e ↦ rw (e, create_next_stage) (ground (arith, type_eq_refl t))
    | inr (s, e) ↦ rw (e, create_next_stage) (ground (arith, e))
  ]

  has_stage_still :
      (t u : StageType) (db : Db)
      → has_stage run.id t db ≡ true
      → has_stage run.id t (create_next_stage env now run u db) ≡ true
  unfolding create_next_stage queued_stage scalar
  has_stage_still t u db h = elim (Option-cases (scalar (of_type run.id u) db.stages)) [
    | inl e ↦ rw (e, create_next_stage) (ground arith)
    | inr (s, e) ↦ rw (e, create_next_stage) h
  ]

  pub create_next_stage-OncePerType :
      (run_id : ℕ) (t : StageType) (db : Db)
      → OncePerType run_id db
      → OncePerType run_id (create_next_stage env now run t db)
  unfolding create_next_stage queued_stage count
  create_next_stage-OncePerType run_id t db h u =
      elim (Option-cases (scalar (of_type run.id t) db.stages)) [
        | inl e ↦
            rw (e, create_next_stage)
              (ground (arith, h u, none_counted (of_type run.id t) db.stages e))
        | inr (s, e) ↦ rw (e, create_next_stage) (h u)
      ]

  module _ (run_id : ℕ) where
    OncePerType-advance :
        (t : StageType) (db : Db)
        → OncePerType run_id db
        → OncePerType run_id (advance t env now run db)
    unfolding advance after_adaptation
    OncePerType-advance platform_analysis db h =
        branch (OncePerType run_id) (not run.c2_analysis_enabled) _ _
          (λ _. create_next_stage-OncePerType run_id platform_adaptation db h)
          (λ _. create_next_stage-OncePerType run_id c2_analysis db h)
    OncePerType-advance c2_analysis db h =
        create_next_stage-OncePerType run_id c2_adaptation _
          (create_next_stage-OncePerType run_id platform_adaptation db h)
    OncePerType-advance platform_adaptation db h =
        branch (OncePerType run_id) (not run.c2_analysis_enabled) _ _
          (λ _. create_next_stage-OncePerType run_id case_aggregation db h)
          (λ _.
            branch (OncePerType run_id) (adaptations_done run.id db.stages) _ _
              (λ _. create_next_stage-OncePerType run_id case_aggregation db h) (λ _. h))
    OncePerType-advance c2_adaptation db h =
        branch (OncePerType run_id) (adaptations_done run.id db.stages) _ _
          (λ _. create_next_stage-OncePerType run_id case_aggregation db h) (λ _. h)
    OncePerType-advance case_aggregation db h =
        create_next_stage-OncePerType run_id report_generation db h
    OncePerType-advance report_generation db h = h

    -- The advance of the workflow after any stage of any run keeps at most one stage of each type in
    -- every run.
    pub advance_workflow-OncePerType :
        (stage : AnalysisStage) (db : Db)
        → OncePerType run_id db
        → OncePerType run_id (advance_workflow env now run stage db)
    unfolding advance_workflow
    advance_workflow-OncePerType stage db h = OncePerType-advance stage.stage_type db h

  adaptations_done_lem :
      (db : Db)
      → OncePerType run.id db
      → adaptations_done run.id db.stages
        ≡ has_completed run.id platform_adaptation db && has_completed run.id c2_adaptation db
  unfolding adaptations_done open_adaptation
  adaptations_done_lem db once =
      let (types, states) = adaptations_counted run.id db.stages in
      rw
        (
          found_counted (completed_of run.id platform_adaptation) db.stages,
          found_counted (completed_of run.id c2_adaptation) db.stages,
        )
        (ground (
          arith,
          types,
          states,
          once platform_adaptation,
          once c2_adaptation,
          completed_le run.id platform_adaptation db.stages,
          completed_le run.id c2_adaptation db.stages,
        ))

  -- In a run with command-and-control analysis that has at most one stage of each type and no
  -- aggregation stage, the end of either adaptation starts the aggregation exactly if the platform
  -- adaptation and the command-and-control adaptation are both there and completed.
  pub aggregation_iff :
      (stage : AnalysisStage) (db : Db)
      → run.c2_analysis_enabled ≡ true
      → (stage.stage_type ≡ platform_adaptation) ⊎ (stage.stage_type ≡ c2_adaptation)
      → has_stage run.id case_aggregation db ≡ false
      → OncePerType run.id db
      → has_stage run.id case_aggregation (advance_workflow env now run stage db)
        ≡ has_completed run.id platform_adaptation db && has_completed run.id c2_adaptation db
  unfolding advance_workflow advance after_adaptation
  aggregation_iff stage db c2 which fresh once = elim which [
    | inl e ↦ rw e (
        branch Started (not run.c2_analysis_enabled) _ _ (λ off. ground (arith, c2)) (λ _. started))
    | inr e ↦ rw e started
  ]
    where
      Started : Db → Type 0
      Started x =
          has_stage run.id case_aggregation x
          ≡ has_completed run.id platform_adaptation db && has_completed run.id c2_adaptation db

      started :
          has_stage run.id case_aggregation (
            if adaptations_done run.id db.stages
            then create_next_stage env now run case_aggregation db
            else db)
          ≡ has_completed run.id platform_adaptation db && has_completed run.id c2_adaptation db
      started = elim (Bool-cases (adaptations_done run.id db.stages)) [
        | inl d ↦ rw d (has_stage-create case_aggregation db ∙ sym d ∙ adaptations_done_lem db once)
        | inr d ↦ rw d (fresh ∙ sym d ∙ adaptations_done_lem db once)
      ]

  -- The stages that wait for no other: the platform analysis is followed by the analysis of command
  -- and control if it is wanted, and by its own adaptation otherwise; that analysis by both
  -- adaptations; the aggregation by the report.
  pub advance_workflow_next :
      (stage : AnalysisStage) (db : Db)
      → let next = advance_workflow env now run stage db in
        (stage.stage_type ≡ platform_analysis
          → has_stage run.id
              (if run.c2_analysis_enabled then c2_analysis else platform_adaptation)
              next
            ≡ true)
        × (stage.stage_type ≡ c2_analysis
            → (has_stage run.id platform_adaptation next ≡ true)
              × (has_stage run.id c2_adaptation next ≡ true))
        × (stage.stage_type ≡ case_aggregation → has_stage run.id report_generation next ≡ true)
  unfolding advance_workflow advance create_next_stage
  advance_workflow_next stage db = (
    λ e. rw e (elim (Bool-cases run.c2_analysis_enabled) [
      | inl c2 ↦ rw c2 (has_stage-create c2_analysis db)
      | inr off ↦ rw off (has_stage-create platform_adaptation db)
    ]),
    λ e. rw e (
      has_stage_still platform_adaptation c2_adaptation _ (has_stage-create platform_adaptation db),
      has_stage-create c2_adaptation _,
    ),
    λ e. rw e (has_stage-create report_generation db),
  )
