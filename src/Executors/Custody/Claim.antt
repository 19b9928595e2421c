-- ===== src/Executors/Custody/Claim.antt =====
-- Custody under claim_stage: the stage that is leased was queued, so it had no lease.
use e_rakshak_umat.Prelude.{
  ℕ, ◌+◌, ◌≤◌, ◌<◌, ◌≡◌, refl, String, Option, none, some, List, ◌==◌, arith,
}
use e_rakshak_umat.Prelude.Tables.{get, count, Keyed-mono}
use e_rakshak_umat.Prelude.Tables.Laws.{touched, get-update, get_key, Keyed-update, first-get}
use e_rakshak_umat.Models.{StageState}
use e_rakshak_umat.Models.Rows.{
  AnalysisStage, Executor, BackendCapabilitySnapshot, run_entity, stage_entity, lease_entity,
  submission_entity,
}
use e_rakshak_umat.Environment.{Env}
use e_rakshak_umat.Database.{Db, Action}
use e_rakshak_umat.Database.Rules.{branch, Ensures, Ensures-ok, Ensures-found, Ensures-test}
use e_rakshak_umat.Audit.{append_audit}
use e_rakshak_umat.Audit.Chain.{Linked-next_event}
use e_rakshak_umat.Executors.Workflow.{attempts_of}
use e_rakshak_umat.Executors.Expiry.{expire_leases}
use e_rakshak_umat.Executors.Claim.{
  Draw, ClaimResponse, is_claimable, claimable, claimed_before, new_attempt, new_lease, grant,
  leased_stage, lease_stage, pick, offer, claim_stage, is_empty,
}
use e_rakshak_umat.Executors.Claim.Fit.{
  ClaimRequest, allowed_types, compatible, fits, is_unreadable,
}
use e_rakshak_umat.Executors.Custody.{active_leases, capacity, owed, allowance, Custody}
use e_rakshak_umat.Executors.Custody.Leases.{Custody-expire_leases}
use e_rakshak_umat.Executors.Custody.Frame.{kept-expire_leases}
use e_rakshak_umat.Executors.Custody.Invariant.{Invariant, Kept, Beside, framed-Beside}

-- What is known of a stage that a claim has picked.
pub record IsQueued (stage : AnalysisStage) (db : Db) : Type 0 where
  pub found : get stage.id db.stages ≡ some stage
  pub queued : stage.state ≡ StageState.queued
  pub old : stage.id < db.next_id

module _ (env : Env) (executor : Executor) (stage : AnalysisStage) (draw : Draw) (db : Db)
    (q : IsQueued stage db) (c : Custody db) where
  idle : active_leases stage.id db.leases ≡ 0
  idle = ground (arith, c.exclusive stage.id, q.found, q.queued)

  left : count (attempts_of stage.id) db.attempts + 1 ≤ stage.max_attempts
  left = ground (arith, c.budget stage.id, q.found, q.queued)

  held_after :
      (j : ℕ) (o : Option AnalysisStage)
      → get j db.stages ≡ o
      → active_leases j db.leases ≤ capacity o
      → active_leases j (grant env executor stage draw db).leases
        ≤ capacity (touched (λ s. s.id == stage.id) leased_stage o)
  unfolding grant new_lease count
  held_after j none g h = ground (arith, q.found)
  held_after j (some s) g h = ground (arith, get_key j db.stages s g, idle)

  made_after :
      (j : ℕ) (o : Option AnalysisStage)
      → get j db.stages ≡ o
      → count (attempts_of j) db.attempts + owed o ≤ allowance o
      → count (attempts_of j) (grant env executor stage draw db).attempts
          + owed (touched (λ s. s.id == stage.id) leased_stage o)
        ≤ allowance (touched (λ s. s.id == stage.id) leased_stage o)
  unfolding grant new_attempt count
  made_after j none g h = ground (arith, q.found)
  made_after j (some s) g h = ground (arith, get_key j db.stages s g, q.found, left)

  pub Custody-grant : Custody (grant env executor stage draw db)
  unfolding grant new_lease
  Custody-grant = record {
    keyed =
        Keyed-update _ stage.id leased_stage db.stages (λ s. refl)
          (Keyed-mono db.next_id _ db.stages (omega arith) c.keyed);
    keyed_leases = (omega arith, Keyed-mono db.next_id _ db.leases (omega arith) c.keyed_leases);
    exclusive = λ j.
        rw (get-update stage.id j leased_stage db.stages (λ s. refl))
          (held_after j (get j db.stages) refl (c.exclusive j));
    budget = λ j.
        rw (get-update stage.id j leased_stage db.stages (λ s. refl))
          (made_after j (get j db.stages) refl (c.budget j));
  }

claimable-IsQueued :
    (allowed platforms : List String) (now : ℕ) (db : Db) (stage : AnalysisStage)
    → Custody db
    → claimable allowed platforms now db ≡ some stage
    → IsQueued stage db
unfolding claimable is_claimable
claimable-IsQueued allowed platforms now db stage c e =
    let (found, passes, old) =
      first-get claimed_before (is_claimable allowed platforms now db) db.next_id db.stages stage
        c.keyed e in
    record { found = found; queued = ground arith; old = old }

pub Invariant-expire_leases :
    (env : Env) (now : ℕ) (db : Db) → Invariant env db → Invariant env (expire_leases env now db).0
Invariant-expire_leases env now db i =
    let b =
      kept-expire_leases (Beside env db.requests) (framed-Beside env db.requests) (λ x db h. h) env
        (λ now entry db h. (h.0, Linked-next_event env now entry db.audit h.1)) now db
        (refl, i.chained) in
    record {
      custody = Custody-expire_leases env now db i.custody;
      answered = rw b.0 i.answered;
      chained = b.1;
    }

module _ (env : Env) (executor : Executor) (draw : Draw) where
  Invariant-lease_stage :
      (stage : AnalysisStage) (db : Db)
      → IsQueued stage db
      → Invariant env db
      → Ensures (Kept env) (lease_stage env executor draw stage db)
  unfolding lease_stage append_audit grant
  Invariant-lease_stage stage db q i = Ensures-found (Kept env) _ _ _ _ _ λ run _.
      Ensures-found (Kept env) _ _ _ _ _ λ submission _. record {
        holds = record {
          custody = Custody-grant env executor stage draw db q i.custody;
          answered = i.answered;
          chained = Linked-next_event env draw.now _ db.audit i.chained;
        };
      }

  Invariant-pick :
      (allowed platforms : List String) (db : Db) (o : Option AnalysisStage)
      → claimable allowed platforms draw.now db ≡ o
      → Invariant env db
      → Ensures (Kept env) (pick env executor draw o db)
  Invariant-pick allowed platforms db none e i = Ensures-ok (Kept env) none db i
  Invariant-pick allowed platforms db (some stage) e i =
      Invariant-lease_stage stage db
        (claimable-IsQueued allowed platforms draw.now db stage i.custody e) i

  Invariant-offer :
      (body : ClaimRequest) (snapshot : Option BackendCapabilitySnapshot) (db : Db)
      → Invariant env db
      → Ensures (Kept env) (offer env executor body draw snapshot db)
  Invariant-offer body none db i = Ensures-ok (Kept env) none db i
  Invariant-offer body (some snapshot) db i =
      Ensures-test (Kept env) (is_unreadable snapshot.capabilities) _ _ db _ λ _.
        branch (λ (m : Action (Option ClaimResponse)). Ensures (Kept env) (m db))
          (fits env executor body snapshot.capabilities) _ _
          (λ _.
            Invariant-pick (allowed_types executor body) (compatible env body snapshot.capabilities)
              db _ refl i)
          (λ _. Ensures-ok (Kept env) none db i)

  pub Invariant-claim_stage :
      (body : ClaimRequest) (db : Db)
      → Invariant env db
      → Ensures (Kept env) (claim_stage env executor body draw db)
  unfolding claim_stage
  Invariant-claim_stage body db i =
      Ensures-test (Kept env) (is_empty (allowed_types executor body)) _ _ db _
        λ _. Invariant-offer body _ _ (Invariant-expire_leases env draw.expired_at db i)
