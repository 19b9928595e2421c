-- ===== src/Cape/Built.antt =====
-- When the building of a machine succeeds, and what is there then.
use e_rakshak_umat.Prelude.{
  ◌≡◌, refl, ◌∙◌, inl, inr, String, Bool, true, ◌&&◌, List, ◌∷◌, if◌then◌else◌, arith, Bool-cases,
}
use e_rakshak_umat.Cape.{
  ProfileState, Gateway, convert, resize, define, reserve, start, customize, take_snapshot, destroy,
  database_add, write_configuration, write_state, Answers, MachineResult, ok, err, command_failed,
  has, drop, save_state, add_name, write_cape_machine, stop_machine, snapshot_machine,
  start_machine, define_machine, build_machine,
}
use e_rakshak_umat.Cape.Rollback.{IsUnused, text_eq, drop-fresh, drop-here}

-- every command of a creation
abbrev pub all_succeed : Answers → Bool
all_succeed a =
    a.succeeds convert
    && (a.succeeds resize
        && (a.succeeds define
            && (a.succeeds reserve
                && (a.succeeds start
                    && (a.succeeds customize
                        && (a.succeeds take_snapshot
                            && (a.succeeds destroy
                                && (a.succeeds database_add
                                    && (a.succeeds write_configuration
                                        && a.succeeds write_state)))))))))

abbrev pub result_of : ProfileState → MachineResult
result_of s = record { operation_id = s.operation_id; machine_label = s.label }

-- The machine is defined and shut off, with its reservation, its disk and its snapshot, CAPE knows
-- it, and its state is written.
pub record IsBuilt (s : ProfileState) (before after : Gateway) : Type 0 where
  pub states : after.states ≡ s ∷ before.states
  pub domains : after.domains ≡ s.label ∷ before.domains
  pub running : after.running ≡ before.running
  pub reservations : after.reservations ≡ s.label ∷ before.reservations
  pub images : after.images ≡ s.snapshot_memory ∷ s.snapshot_disk ∷ s.disk ∷ before.images
  pub in_database : has s.label after.cape_database ≡ true
  pub in_configuration : has s.label after.cape_configuration ≡ true

pub has-added : (k : String) (js : List String) → has k (add_name k js) ≡ true
unfolding has
has-added k js = elim (Bool-cases (has k js)) [
  | inl e ↦ rw e e
  | inr e ↦ rw e (rw (text_eq k) refl)
]

-- The building succeeds exactly if every command does.
pub build_machine-result :
    (a : Answers) (s : ProfileState) (g : Gateway)
    → (build_machine a s g).1 ≡ (if all_succeed a then ok (result_of s) else err command_failed)
unfolding build_machine define_machine start_machine snapshot_machine stop_machine
    write_cape_machine save_state
build_machine-result a s g = ground arith

module _ (a : Answers) (s : ProfileState) (g : Gateway) (all : all_succeed a ≡ true) where
  built : Gateway
  built = record g {
    states = s ∷ g.states;
    domains = s.label ∷ g.domains;
    running = drop s.label (s.label ∷ g.running);
    reservations = s.label ∷ g.reservations;
    images = s.snapshot_memory ∷ s.snapshot_disk ∷ s.disk ∷ g.images;
    cape_database = add_name s.label g.cape_database;
    cape_configuration = add_name s.label g.cape_configuration;
  }

  build_machine-built : (build_machine a s g).0 ≡ built
  unfolding build_machine define_machine start_machine snapshot_machine stop_machine
      write_cape_machine save_state built
  build_machine-built = ground (arith, all)

  pub build_machine-IsBuilt : IsUnused s g → IsBuilt s g (build_machine a s g).0
  unfolding built
  build_machine-IsBuilt f = rw build_machine-built (record {
    states = refl;
    domains = refl;
    running = drop-here s.label g.running ∙ drop-fresh s.label g.running f.running;
    reservations = refl;
    images = refl;
    in_database = has-added s.label g.cape_database;
    in_configuration = has-added s.label g.cape_configuration;
  })
