-- ===== src/Cape/Deletion.antt =====
-- The method delete of src/umat/cape_gateway/manager.py.
use e_rakshak_umat.Prelude.{
  ℕ, String, Bool, true, false, not, ◌||◌, Option, none, some, List, [], ◌∷◌, str_eq, starts_with,
  if◌then◌else◌,
}
use e_rakshak_umat.Environment.{◌<>◌}
use e_rakshak_umat.Cape.Labels.{matches_label}
use e_rakshak_umat.Cape.{
  ProfileState, Gateway, database_delete, write_configuration, Answers, command_failed, unmanaged,
  missing_machine, machine_running, machine_assigned, unexpected_path, MachineResult, Managed, ok,
  err, has, drop,
}

unfoldable pub state_labelled : String → List ProfileState → Option ProfileState
state_labelled label [] = none
state_labelled label (s ∷ ss) = if str_eq s.label label then some s else state_labelled label ss

-- state_path.unlink()
unfoldable pub remove_state : String → List ProfileState → List ProfileState
remove_state label [] = []
remove_state label (s ∷ ss) =
    let rest = remove_state label ss in if str_eq s.label label then ss else s ∷ rest

abbrev is_profile_file : String → String → Bool
is_profile_file label name = starts_with name (label <> "-") || str_eq name (label <> ".qcow2")

-- the loop over the three files: it ends at the first one with another name
unfoldable pub remove_images : String → List String → Gateway → Gateway × Bool
remove_images label [] g = (g, true)
remove_images label (name ∷ names) g =
    let rest = remove_images label names (record g { images = drop name g.images }) in
    if is_profile_file label name then rest else (g, false)

abbrev pub finish_delete : String → ℕ → Gateway × Bool → Gateway × Managed MachineResult
finish_delete label op (g, false) = (g, err unexpected_path)
finish_delete label op (g, true) = (
  record g { states = remove_state label g.states },
  ok (record { operation_id = op; machine_label = label }),
)

abbrev pub undefine : String → Gateway → Gateway
undefine label g = record g {
  cape_database = drop label g.cape_database;
  cape_configuration = drop label g.cape_configuration;
  domains = drop label g.domains;
  reservations = drop label g.reservations;
}

abbrev pub delete_found :
    Answers → String → ProfileState → Gateway → Gateway × Managed MachineResult
delete_found a label s g =
    if has label g.running
    then (g, err machine_running)
    else if a.is_locked
    then (g, err machine_assigned)
    else if not (a.succeeds database_delete)
    then (g, err command_failed)
    else if not (a.succeeds write_configuration)
    then (record g { cape_database = drop label g.cape_database }, err command_failed)
    else finish_delete label a.operation_id
        (remove_images label (s.disk ∷ s.snapshot_disk ∷ s.snapshot_memory ∷ []) (undefine label g))

unfoldable pub delete : Answers → String → Gateway → Gateway × Managed MachineResult
delete a label g =
    if not (matches_label label) then (g, err unmanaged) else elim (state_labelled label g.states) [
      | none ↦ (g, err missing_machine)
      | some s ↦ delete_found a label s g
    ]
