-- ===== src/Tests/Machines.antt =====
-- Machines of the profile gateway.
use e_rakshak_umat.Prelude.{false, ◌≡◌, refl, up_to_char, Bool, true, [], ◌∷◌}
use e_rakshak_umat.Tests.Fixtures.{runtime}
use e_rakshak_umat.Cape.{
  ProfileRequest, CapeProfileConfiguration, ProfileState, Gateway, Command, Answers, has, create,
  build_machine, new_state,
}
use e_rakshak_umat.Cape.Labels.{label_of}
use e_rakshak_umat.Cape.Rollback.{IsUnused}
use e_rakshak_umat.Cape.Laws.{Created, create-Created, all_but_last, machine_left_behind}
use e_rakshak_umat.Cape.Addresses.{Apart, creates, deletes, perform_all, perform_all-Apart}

abbrev office : ProfileRequest
office = record {
  profile_id = "0123abcd-0000-4000-8000-000000000000";
  name = "office";
  windows_version = "Windows 10 22H2";
  disk_gb = 60;
  cape_template = "win10-hardened";
}

abbrev deployment : CapeProfileConfiguration
deployment = record {
  base_windows_version = "Windows 10 22H2";
  snapshot = "baseline";
  address_start = 120;
  address_end = 199;
  allowed_templates = "win10-hardened" ∷ [];
}

abbrev bare : Gateway
bare = record {
  states = [];
  domains = "base" ∷ [];
  running = [];
  reservations = [];
  images = [];
  cape_database = [];
  cape_configuration = [];
}

abbrev answers : (Command → Bool) → Answers
answers succeeds = record {
  succeeds = succeeds;
  reserves_partly = false;
  virtual_size = 64424509440;
  operation_id = 5;
  is_locked = Bool.false;
}

bare-IsUnused : (s : ProfileState) → s.label ≡ "umat-office-0123abcd" → IsUnused s bare
unfolding has
bare-IsUnused s e = record {
  domains = rw e refl;
  running = refl;
  reservations = refl;
  disk = refl;
  snapshot_disk = refl;
  snapshot_memory = refl;
}

abbrev machine : ProfileState
machine = new_state runtime deployment (answers all_but_last) office "umat-office-0123abcd" 120

machine_left_behind_example :
    (has machine.label (build_machine (answers all_but_last) machine bare).0.cape_database ≡ true)
    × (has machine.label (build_machine (answers all_but_last) machine bare).0.cape_configuration
        ≡ true)
    × ((build_machine (answers all_but_last) machine bare).0.domains ≡ bare.domains)
machine_left_behind_example =
    machine_left_behind (answers all_but_last) machine bare (bare-IsUnused machine refl) (λ k. refl)

office-label : label_of office.name office.profile_id ≡ "umat-office-0123abcd"
unfolding label_of up_to_char
office-label = refl

create-Created_example :
    Created runtime deployment
      (answers (λ k. true))
      office
      bare
      (create runtime deployment (answers (λ k. true)) office bare)
create-Created_example =
    create-Created runtime deployment (answers (λ k. true)) office bare
      (bare-IsUnused _ office-label) refl

perform_all-Apart_example :
    Apart deployment
      (perform_all runtime deployment
        (creates (answers (λ k. true)) office
          ∷ creates (answers all_but_last) office
          ∷ deletes (answers (λ k. true)) "umat-office-0123abcd"
          ∷ [])
        bare).states
perform_all-Apart_example = perform_all-Apart runtime deployment _ bare tt
