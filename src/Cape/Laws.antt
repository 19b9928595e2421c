-- ===== src/Cape/Laws.antt =====
-- What a creation leaves behind, whether it succeeds or fails.
use e_rakshak_umat.Prelude.{
  ℕ, ◌<◌, arith, if◌then◌else◌, ◌≡◌, ◌⊎◌, refl, ◌∙◌, inl, inr, Bool, true, false, not, Option, none,
  some, str_eq, contains, ltb, Option-cases,
}
use e_rakshak_umat.Environment.{Env}
use e_rakshak_umat.Database.Rules.{branch}
use e_rakshak_umat.Cape.{
  ProfileRequest, CapeProfileConfiguration, ProfileState, Gateway, Command, convert, resize, define,
  reserve, start, customize, take_snapshot, destroy, database_add, write_configuration, write_state,
  Answers, ProfileError, template_not_approved, wrong_windows_version, invalid_label,
  disk_too_small, pool_exhausted, command_failed, MachineResult, Managed, ok, err, is_used, has,
  state_of, new_state, rollback, save_state, write_cape_machine, stop_machine, snapshot_machine,
  start_machine, define_machine, build_machine, build_at, create, allocate_ip, size_gib,
}
use e_rakshak_umat.Cape.Labels.{matches_label, label_of}
use e_rakshak_umat.Cape.Addresses.{InRange, allocated, exhausted}
use e_rakshak_umat.Cape.Built.{
  all_succeed, result_of, IsBuilt, has-added, build_machine-result, build_machine-IsBuilt,
}
use e_rakshak_umat.Cape.Rollback.{
  drop-fresh, drop-here, build_machine-Settles, Restored, Settles, IsUnused,
}

-- why a creation fails
abbrev pub Explains :
    Env → CapeProfileConfiguration → Answers → ProfileRequest → Gateway → ProfileError → Type 0
Explains env c a p g template_not_approved = contains p.cape_template c.allowed_templates ≡ false
Explains env c a p g wrong_windows_version = str_eq p.windows_version c.base_windows_version ≡ false
Explains env c a p g invalid_label = matches_label (label_of p.name p.profile_id) ≡ false
Explains env c a p g disk_too_small = p.disk_gb < size_gib a.virtual_size
Explains env c a p g pool_exhausted = (ip : ℕ) → InRange c ip → is_used ip g.states ≡ true
Explains env c a p g command_failed = all_succeed a ≡ false
Explains env c a p g _ = ⊥

-- A profile that was there is answered from its state; a new one has a free address, and its machine
-- is built.
abbrev pub Created :
    Env
    → CapeProfileConfiguration
    → Answers
    → ProfileRequest
    → Gateway
    → Gateway × Managed MachineResult
    → Type 0
Created env c a p before (after, err e) = Restored before after × Explains env c a p before e
Created env c a p before (after, ok r) =
    ((s : ProfileState) × (state_of p.profile_id before.states ≡ some s)
      × (r ≡ result_of s)
      × (after ≡ before))
    ⊎ ((state_of p.profile_id before.states ≡ none)
        × (ip : ℕ) × (is_used ip before.states ≡ false)
        × InRange c ip
        × (r ≡ result_of (new_state env c a p (label_of p.name p.profile_id) ip))
        × IsBuilt (new_state env c a p (label_of p.name p.profile_id) ip) before after)

Restored-self : (g : Gateway) → Restored g g
Restored-self g = record {
  states = refl;
  domains = refl;
  running = refl;
  reservations = refl;
  images = refl;
}

module _ (env : Env) (c : CapeProfileConfiguration) (a : Answers) (p : ProfileRequest) (g : Gateway)
    (absent : state_of p.profile_id g.states ≡ none) where
  abbrev state_at : ℕ → ProfileState
  state_at ip = new_state env c a p (label_of p.name p.profile_id) ip

  built-Created :
      (ip : ℕ) (r : Gateway × Managed MachineResult) (all : Bool)
      → all_succeed a ≡ all
      → (is_used ip g.states ≡ false) × InRange c ip
      → Settles (state_at ip) g r
      → (all_succeed a ≡ true → IsBuilt (state_at ip) g r.0)
      → r.1 ≡ (if all then ok (result_of (state_at ip)) else err command_failed)
      → Created env c a p g r
  built-Created ip (after, ok r) true e free h built result =
      inr (absent, ip, free.0, free.1, ground (arith, result), built e)
  built-Created ip (after, ok r) false e free h built result = absurd (ground (arith, result))
  built-Created ip (after, err x) true e free h built result = absurd (ground (arith, result))
  built-Created ip (after, err x) false e free h built result =
      let failure : x ≡ command_failed = ground (arith, result) in (h, rw failure e)

  IsUnused-at : (ip : ℕ) → IsUnused (state_at 0) g → IsUnused (state_at ip) g
  IsUnused-at ip f = record {
    domains = f.domains;
    running = f.running;
    reservations = f.reservations;
    disk = f.disk;
    snapshot_disk = f.snapshot_disk;
    snapshot_memory = f.snapshot_memory;
  }

  build_at-Created :
      (o : Option ℕ)
      → allocate_ip c g ≡ o
      → IsUnused (state_at 0) g
      → a.reserves_partly ≡ false
      → Created env c a p g (build_at env c a p (label_of p.name p.profile_id) o g)
  build_at-Created none e f whole = (Restored-self g, exhausted c g e)
  build_at-Created (some ip) e f whole =
      let unused = IsUnused-at ip f in
      built-Created ip (build_machine a (state_at ip) g) (all_succeed a) refl (allocated c g ip e)
        (build_machine-Settles a (state_at ip) g unused whole)
        (λ all. build_machine-IsBuilt a (state_at ip) g all unused)
        (build_machine-result a (state_at ip) g)

-- A creation whose names are not in use on the host, where a reservation whose command raises is not
-- made and the commands of the clean-up do what they are told. One that succeeds answers with the state of the profile that was there, and changed
-- nothing; or there was none, and the new machine has an address of the range that no machine had, is
-- defined and shut off, has its reservation, its disk and its snapshot, is known to CAPE, and its
-- state is written. One that fails leaves the state files, the domains, the running machines, the
-- reservations and the images as they were, and the error is due: the template, the version, the
-- label or the size of the disk is wrong, every address is used, or some command failed.
pub create-Created :
    (env : Env) (c : CapeProfileConfiguration) (a : Answers) (p : ProfileRequest) (g : Gateway)
    → IsUnused (new_state env c a p (label_of p.name p.profile_id) 0) g
    → a.reserves_partly ≡ false
    → Created env c a p g (create env c a p g)
unfolding create
create-Created env c a p g f whole =
    let outcome = Created env c a p g in
    branch outcome (not (contains p.cape_template c.allowed_templates)) _ _
      (λ e. (Restored-self g, ground (arith, e)))
      (λ _.
        branch outcome (not (str_eq p.windows_version c.base_windows_version)) _ _
          (λ e. (Restored-self g, ground (arith, e)))
          (λ _. elim (Option-cases (state_of p.profile_id g.states)) [
            | inr (s, e) ↦ rw (e, create) (inl (s, e, refl, refl))
            | inl absent ↦
                rw (absent, create)
                  (branch outcome (not (matches_label (label_of p.name p.profile_id))) _ _
                    (λ e. (Restored-self g, ground (arith, e)))
                    (λ _.
                      branch outcome (ltb p.disk_gb (size_gib a.virtual_size)) _ _
                        (λ e. (Restored-self g, ground (arith, e)))
                        (λ _. build_at-Created env c a p g absent (allocate_ip c g) refl f whole)))
          ]))

-- every command but the last
abbrev pub all_but_last : Command → Bool
all_but_last write_state = false
all_but_last _ = true

-- A creation that fails at its last command, the writing of the state file, takes the machine itself
-- back but leaves it in CAPE's database and in its configuration.
pub machine_left_behind :
    (a : Answers) (s : ProfileState) (g : Gateway)
    → IsUnused s g
    → ((k : Command) → a.succeeds k ≡ all_but_last k)
    → (has s.label (build_machine a s g).0.cape_database ≡ true)
      × (has s.label (build_machine a s g).0.cape_configuration ≡ true)
      × ((build_machine a s g).0.domains ≡ g.domains)
unfolding build_machine define_machine start_machine snapshot_machine stop_machine
    write_cape_machine save_state rollback
machine_left_behind a s g f answers =
    rw
      (
        answers convert,
        answers resize,
        answers define,
        answers reserve,
        answers start,
        answers customize,
        answers take_snapshot,
        answers destroy,
        answers database_add,
        answers write_configuration,
        answers write_state,
      )
      (
        has-added s.label g.cape_database,
        has-added s.label g.cape_configuration,
        drop-here s.label g.domains ∙ drop-fresh s.label g.domains f.domains,
      )
