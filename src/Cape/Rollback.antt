-- ===== src/Cape/Rollback.antt =====
-- What the handler of a failed creation takes back.
use e_rakshak_umat.Prelude.{
  ◌≡◌, refl, ap, ◌∙◌, String, Bool, true, false, not, ◌||◌, List, [], ◌∷◌, str_eq, eq_iff, arith,
  if◌then◌else◌,
}
use e_rakshak_umat.Database.Rules.{branch}
use e_rakshak_umat.Cape.{
  ProfileState, Gateway, convert, resize, define, reserve, start, customize, take_snapshot, destroy,
  database_add, write_configuration, write_state, Answers, MachineResult, Managed, ok, err, has,
  drop, drop_images, rollback, failed, save_state, write_cape_machine, stop_machine,
  snapshot_machine, start_machine, define_machine, build_machine,
}

pub text_eq : (s : String) → str_eq s s ≡ true
text_eq s = (eq_iff s s).1 refl

pub drop-fresh : (k : String) (js : List String) → has k js ≡ false → drop k js ≡ js
unfolding has drop
drop-fresh k [] h = refl
drop-fresh k (j ∷ js) h = ground (arith, drop-fresh k js, h)

pub drop-here : (k : String) (js : List String) → drop k (k ∷ js) ≡ drop k js
unfolding drop
drop-here k js = rw (text_eq k) refl

drop-drop : (k : String) (js : List String) → drop k (drop k js) ≡ drop k js
unfolding drop
drop-drop k [] = refl
drop-drop k (j ∷ js) = ground (arith, drop-drop k js)

-- Nothing but the machine of CAPE is left.
pub record Restored (before after : Gateway) : Type 0 where
  pub states : after.states ≡ before.states
  pub domains : after.domains ≡ before.domains
  pub running : after.running ≡ before.running
  pub reservations : after.reservations ≡ before.reservations
  pub images : after.images ≡ before.images

-- a failure restores the host, and a success adds the state
abbrev pub Settles : ProfileState → Gateway → Gateway × Managed MachineResult → Type 0
Settles s before (after, ok r) =
    (after.states ≡ s ∷ before.states)
    × (r ≡ record { operation_id = s.operation_id; machine_label = s.label })
Settles s before (after, err e) = Restored before after

-- what a rollback takes back, by the marks of the progress
record Underway (created reserved : Bool) (s : ProfileState) (before now : Gateway) : Type 0 where
  states : now.states ≡ before.states
  domains : (if created then drop s.label now.domains else now.domains) ≡ before.domains
  running : (if created then drop s.label now.running else now.running) ≡ before.running
  reservations :
      (if reserved then drop s.label now.reservations else now.reservations) ≡ before.reservations
  images : drop_images s now.images ≡ before.images

failed-Settles :
    (created reserved : Bool) (s : ProfileState) (before now : Gateway)
    → Underway created reserved s before now
    → Settles s before (failed created reserved s now)
unfolding rollback
failed-Settles created reserved s before now u = record {
  states = u.states;
  domains = u.domains;
  running = u.running;
  reservations = u.reservations;
  images = u.images;
}

module _ (a : Answers) (s : ProfileState) (before : Gateway) where
  save_state-Settles :
      (now : Gateway) → Underway true true s before now → Settles s before (save_state a s now)
  unfolding save_state
  save_state-Settles now u =
      branch (Settles s before) (a.succeeds write_state) _ _
        (λ _. (ap (λ ss. s ∷ ss) u.states, refl)) (λ _. failed-Settles true true s before now u)

  Underway-cape :
      (now : Gateway) (database configuration : List String)
      → Underway true true s before now
      → Underway true true s before
          (record now { cape_database = database; cape_configuration = configuration })
  Underway-cape now database configuration u = record {
    states = u.states;
    domains = u.domains;
    running = u.running;
    reservations = u.reservations;
    images = u.images;
  }

  write_cape_machine-Settles :
      (now : Gateway)
      → Underway true true s before now
      → Settles s before (write_cape_machine a s now)
  unfolding write_cape_machine
  write_cape_machine-Settles now u =
      branch (Settles s before) (not (a.succeeds database_add)) _ _
        (λ _. failed-Settles true true s before now u)
        (λ _.
          branch (Settles s before) (not (a.succeeds write_configuration)) _ _
            (λ _. failed-Settles true true s before _ (Underway-cape now _ _ u))
            (λ _. save_state-Settles _ (Underway-cape now _ _ u)))

  stop_machine-Settles :
      (now : Gateway) → Underway true true s before now → Settles s before (stop_machine a s now)
  unfolding stop_machine
  stop_machine-Settles now u =
      branch (Settles s before) (a.succeeds destroy) _ _
        (λ _. write_cape_machine-Settles _ (record {
          states = u.states;
          domains = u.domains;
          running = drop-drop s.label now.running ∙ u.running;
          reservations = u.reservations;
          images = u.images;
        }))
        (λ _. failed-Settles true true s before now u)

  drop_images-snapshot :
      (images : List String)
      → drop_images s (s.snapshot_memory ∷ s.snapshot_disk ∷ images) ≡ drop_images s images
  unfolding drop
  drop_images-snapshot images =
      ground (arith, text_eq s.snapshot_memory, text_eq s.snapshot_disk, text_eq s.disk)

  snapshot_machine-Settles :
      (now : Gateway)
      → Underway true true s before now
      → Settles s before (snapshot_machine a s now)
  unfolding snapshot_machine
  snapshot_machine-Settles now u =
      let more : Underway true true s before
          (record now { images = s.snapshot_memory ∷ s.snapshot_disk ∷ now.images }) =
        record {
          states = u.states;
          domains = u.domains;
          running = u.running;
          reservations = u.reservations;
          images = drop_images-snapshot now.images ∙ u.images;
        } in
      branch (Settles s before) (a.succeeds take_snapshot) _ _ (λ _. stop_machine-Settles _ more)
        (λ _. failed-Settles true true s before _ more)

  start_machine-Settles :
      (now : Gateway) → Underway true true s before now → Settles s before (start_machine a s now)
  unfolding start_machine
  start_machine-Settles now u =
      let up : Underway true true s before (record now { running = s.label ∷ now.running }) =
        record {
          states = u.states;
          domains = u.domains;
          running = drop-here s.label now.running ∙ u.running;
          reservations = u.reservations;
          images = u.images;
        } in
      branch (Settles s before) (not (a.succeeds start)) _ _
        (λ _. failed-Settles true true s before now u)
        (λ _.
          branch (Settles s before) (not (a.succeeds customize)) _ _
            (λ _. failed-Settles true true s before _ up) (λ _. snapshot_machine-Settles _ up))

-- The names of a machine are not in use on the host.
pub record IsUnused (s : ProfileState) (g : Gateway) : Type 0 where
  pub domains : has s.label g.domains ≡ false
  pub running : has s.label g.running ≡ false
  pub reservations : has s.label g.reservations ≡ false
  pub disk : has s.disk g.images ≡ false
  pub snapshot_disk : has s.snapshot_disk g.images ≡ false
  pub snapshot_memory : has s.snapshot_memory g.images ≡ false

drop_images-fresh :
    (s : ProfileState) (g : Gateway) → IsUnused s g → drop_images s (s.disk ∷ g.images) ≡ g.images
drop_images-fresh s g f =
    rw
      (
        drop-here s.disk g.images,
        drop-fresh s.disk g.images f.disk,
        drop-fresh s.snapshot_disk g.images f.snapshot_disk,
        drop-fresh s.snapshot_memory g.images f.snapshot_memory,
      )
      refl

-- The building of a machine, stopped by any command, where a reservation that fails is not made: a
-- failure leaves the state files, the domains,
-- the running machines, the reservations and the images as they were.
pub build_machine-Settles :
    (a : Answers) (s : ProfileState) (g : Gateway)
    → IsUnused s g
    → a.reserves_partly ≡ false
    → Settles s g (build_machine a s g)
unfolding build_machine define_machine
build_machine-Settles a s g f whole =
    let disk : drop_images s (s.disk ∷ g.images) ≡ g.images = drop_images-fresh s g f in
    let built : Underway false false s g (record g { images = s.disk ∷ g.images }) = record {
      states = refl;
      domains = refl;
      running = refl;
      reservations = refl;
      images = disk;
    } in
    let defined : drop s.label (s.label ∷ g.domains) ≡ g.domains =
      drop-here s.label g.domains ∙ drop-fresh s.label g.domains f.domains in
    let stopped : drop s.label g.running ≡ g.running = drop-fresh s.label g.running f.running in
    branch (Settles s g) (not (a.succeeds convert) || not (a.succeeds resize)) _ _
      (λ _. failed-Settles false false s g _ built)
      (λ _.
        branch (Settles s g) (not (a.succeeds define)) _ _
          (λ _. failed-Settles false false s g _ built)
          (λ _.
            branch (Settles s g) (not (a.succeeds reserve)) _ _
              (λ _. failed-Settles true false s g _ (record {
                states = refl;
                domains = defined;
                running = stopped;
                reservations = rw whole refl;
                images = disk;
              }))
              (λ _. start_machine-Settles a s g _ (record {
                states = refl;
                domains = defined;
                running = stopped;
                reservations =
                    drop-here s.label g.reservations
                    ∙ drop-fresh s.label g.reservations f.reservations;
                images = disk;
              }))))
