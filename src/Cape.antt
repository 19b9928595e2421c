-- ===== src/Cape.antt =====
-- The profiles of CAPE machines: _create_locked, delete, _allocate_ip, _write_cape_machine and
-- _remove_cape_machine of src/umat/cape_gateway/manager.py. What the commands of the host answer is
-- the argument `Answers`; a lock lets one call run at a time.
pub mod Labels
pub mod Deletion
pub mod Rollback
pub mod Built
pub mod Laws
pub mod Addresses
use e_rakshak_umat.Prelude.{
  ℕ, zero, suc, ◌+◌, ◌-◌, ◌*◌, ◌^◌, String, Bool, true, false, not, ◌&&◌, ◌||◌, Option, none, some,
  List, [], ◌∷◌, ◌==◌, ltb, str_eq, contains, starts_with, if◌then◌else◌,
}
use Prim.Native.Nat.{◌/◌}
use e_rakshak_umat.Environment.{Env, ◌<>◌}
use Labels.{matches_label, label_of, mac_of}

pub record ProfileRequest : Type 0 where
  pub profile_id : String
  pub name : String
  pub windows_version : String
  pub disk_gb : ℕ
  pub cape_template : String

pub record CapeProfileConfiguration : Type 0 where
  pub base_windows_version : String
  pub snapshot : String
  pub address_start : ℕ
  pub address_end : ℕ
  pub allowed_templates : List String

-- the state file of a profile; `ip` is the last number of 10.66.0.x, and the files are named in the
-- folder of images
pub record ProfileState : Type 0 where
  pub profile_id : String
  pub operation_id : ℕ
  pub label : String
  pub ip : ℕ
  pub mac : String
  pub disk : String
  pub snapshot_disk : String
  pub snapshot_memory : String

-- what stands on the host: the state files, the domains and which of them run, the reservations of
-- addresses by label, the files of the folder of images, and the machines of CAPE's database and
-- configuration
pub record Gateway : Type 0 where
  pub states : List ProfileState
  pub domains : List String
  pub running : List String
  pub reservations : List String
  pub images : List String
  pub cape_database : List String
  pub cape_configuration : List String

-- the commands that may raise
pub data Command : Type 0 where
  convert resize define reserve start customize take_snapshot destroy : Command
  database_add database_delete write_configuration write_state : Command

pub record Answers : Type 0 where
  pub succeeds : Command → Bool
  pub reserves_partly : Bool  -- net-update --live --config, where it raises: one of the two is done
  pub virtual_size : ℕ  -- qemu-img info of the base disk
  pub operation_id : ℕ  -- uuid4
  pub is_locked : Bool  -- CAPE's database: the machine is assigned to an analysis

pub data ProfileError : Type 0 where
  template_not_approved wrong_windows_version invalid_label disk_too_small : ProfileError
  pool_exhausted command_failed unmanaged missing_machine machine_running machine_assigned
        unexpected_path :
      ProfileError

pub record MachineResult : Type 0 where
  pub operation_id : ℕ
  pub machine_label : String

pub data Managed {ℓ} (A : Type ℓ) : Type ℓ where
  ok : A → Managed A
  err : ProfileError → Managed A

-- sets of names
unfoldable pub has : String → List String → Bool
has k [] = false
has k (j ∷ js) = if str_eq j k then true else has k js

unfoldable pub drop : String → List String → List String
drop k [] = []
drop k (j ∷ js) = let rest = drop k js in if str_eq j k then rest else j ∷ rest

unfoldable pub state_of : String → List ProfileState → Option ProfileState
state_of id [] = none
state_of id (s ∷ ss) = if str_eq s.profile_id id then some s else state_of id ss

unfoldable pub is_used : ℕ → List ProfileState → Bool
is_used ip [] = false
is_used ip (s ∷ ss) = s.ip == ip || is_used ip ss

-- the loop over the addresses: `n` of them from `final`
unfoldable pub first_free : ℕ → ℕ → List ProfileState → Option ℕ
first_free zero final states = none
first_free (suc n) final states =
    let rest = first_free n (final + 1) states in if is_used final states then rest else some final

unfoldable pub allocate_ip : CapeProfileConfiguration → Gateway → Option ℕ
allocate_ip c g = first_free (c.address_end + 1 - c.address_start) c.address_start g.states

-- _image_virtual_size_gib
unfoldable pub size_gib : ℕ → ℕ
size_gib size = (size + 1024 ^ 3 - 1) / 1024 ^ 3

abbrev pub new_state :
    Env → CapeProfileConfiguration → Answers → ProfileRequest → String → ℕ → ProfileState
new_state env c a p label ip = record {
  profile_id = p.profile_id;
  operation_id = a.operation_id;
  label = label;
  ip = ip;
  mac = mac_of env label;
  disk = label <> ".qcow2";
  snapshot_disk = label <> ("-" <> (c.snapshot <> ".qcow2"));
  snapshot_memory = label <> ("-" <> (c.snapshot <> ".mem"));
}

abbrev pub drop_images : ProfileState → List String → List String
drop_images s images = drop s.snapshot_memory (drop s.snapshot_disk (drop s.disk images))

-- the handler of a failure, by the two marks of the progress
unfoldable pub rollback : Bool → Bool → ProfileState → Gateway → Gateway
rollback created_domain reservation_added s g = record g {
  running = if created_domain then drop s.label g.running else g.running;
  domains = if created_domain then drop s.label g.domains else g.domains;
  reservations = if reservation_added then drop s.label g.reservations else g.reservations;
  images = drop_images s g.images;
}

abbrev pub failed : Bool → Bool → ProfileState → Gateway → Gateway × Managed MachineResult
failed created reserved s g = (rollback created reserved s g, err command_failed)

unfoldable pub save_state : Answers → ProfileState → Gateway → Gateway × Managed MachineResult
save_state a s g =
    if a.succeeds write_state
    then (
      record g { states = s ∷ g.states },
      ok (record { operation_id = s.operation_id; machine_label = s.label }),
    )
    else failed true true s g

abbrev pub add_name : String → List String → List String
add_name name names = if has name names then names else name ∷ names

-- _write_cape_machine: a configuration that cannot be written takes the database row back, if that
-- deletion does not raise too
unfoldable pub write_cape_machine :
    Answers → ProfileState → Gateway → Gateway × Managed MachineResult
write_cape_machine a s g =
    if not (a.succeeds database_add)
    then failed true true s g
    else if not (a.succeeds write_configuration)
    then failed true true s (record g {
      cape_database =
          if a.succeeds database_delete
          then drop s.label g.cape_database
          else add_name s.label g.cape_database;
    })
    else save_state a s (record g {
      cape_database = add_name s.label g.cape_database;
      cape_configuration = add_name s.label g.cape_configuration;
    })

unfoldable pub stop_machine : Answers → ProfileState → Gateway → Gateway × Managed MachineResult
stop_machine a s g =
    if a.succeeds destroy
    then write_cape_machine a s (record g { running = drop s.label g.running })
    else failed true true s g

-- a snapshot that fails may leave its files
unfoldable pub snapshot_machine : Answers → ProfileState → Gateway → Gateway × Managed MachineResult
snapshot_machine a s g =
    let g' : Gateway = record g { images = s.snapshot_memory ∷ s.snapshot_disk ∷ g.images } in
    if a.succeeds take_snapshot then stop_machine a s g' else failed true true s g'

unfoldable pub start_machine : Answers → ProfileState → Gateway → Gateway × Managed MachineResult
start_machine a s g =
    let g' : Gateway = record g { running = s.label ∷ g.running } in
    if not (a.succeeds start)
    then failed true true s g
    else if not (a.succeeds customize)
    then failed true true s g'
    else snapshot_machine a s g'

unfoldable pub define_machine : Answers → ProfileState → Gateway → Gateway × Managed MachineResult
define_machine a s g =
    let g' : Gateway = record g { domains = s.label ∷ g.domains } in
    if not (a.succeeds define)
    then failed false false s g
    else if not (a.succeeds reserve)
    then failed true false s (record g' {
      reservations = if a.reserves_partly then s.label ∷ g.reservations else g.reservations;
    })
    else start_machine a s (record g' { reservations = s.label ∷ g.reservations })

-- a conversion that fails may leave a part of the disk
unfoldable pub build_machine : Answers → ProfileState → Gateway → Gateway × Managed MachineResult
build_machine a s g =
    let g' : Gateway = record g { images = s.disk ∷ g.images } in
    if not (a.succeeds convert) || not (a.succeeds resize)
    then failed false false s g'
    else define_machine a s g'

abbrev pub build_at :
    Env
    → CapeProfileConfiguration
    → Answers
    → ProfileRequest
    → String
    → Option ℕ
    → Gateway
    → Gateway × Managed MachineResult
build_at env c a p label none g = (g, err pool_exhausted)
build_at env c a p label (some ip) g = build_machine a (new_state env c a p label ip) g

abbrev pub create_new :
    Env
    → CapeProfileConfiguration
    → Answers
    → ProfileRequest
    → String
    → Gateway
    → Gateway × Managed MachineResult
create_new env c a p label g =
    if not (matches_label label)
    then (g, err invalid_label)
    else if ltb p.disk_gb (size_gib a.virtual_size)
    then (g, err disk_too_small)
    else build_at env c a p label (allocate_ip c g) g

unfoldable pub create :
    Env
    → CapeProfileConfiguration
    → Answers
    → ProfileRequest
    → Gateway
    → Gateway × Managed MachineResult
create env c a p g =
    if not (contains p.cape_template c.allowed_templates)
    then (g, err template_not_approved)
    else if not (str_eq p.windows_version c.base_windows_version)
    then (g, err wrong_windows_version)
    else elim (state_of p.profile_id g.states) [
      | some s ↦ (g, ok (record { operation_id = s.operation_id; machine_label = s.label }))
      | none ↦ create_new env c a p (label_of p.name p.profile_id) g
    ]
