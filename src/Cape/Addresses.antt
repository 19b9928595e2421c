-- ===== src/Cape/Addresses.antt =====
-- The addresses of the machines.
use e_rakshak_umat.Prelude.{
  ℕ, zero, suc, ◌+◌, ◌-◌, ◌≤◌, ◌<◌, ◌≡◌, ◌⊎◌, refl, ap, ◌∙◌, inl, inr, String, Bool, true, false,
  not, Option, none, some, List, [], ◌∷◌, ◌==◌, ==_iff, str_eq, ltb, contains, arith, Bool-cases,
  Option-cases,
}
use mathlib.Core.Path.{subst}
use e_rakshak_umat.Environment.{Env}
use e_rakshak_umat.Database.Rules.{branch}
use e_rakshak_umat.Cape.{
  ProfileRequest, CapeProfileConfiguration, ProfileState, Gateway, Answers, MachineResult, Managed,
  is_used, first_free, allocate_ip, create, build_machine, define_machine, start_machine,
  snapshot_machine, stop_machine, write_cape_machine, save_state, rollback, build_at, state_of,
  size_gib, has, drop, database_delete, write_configuration, new_state,
}
use e_rakshak_umat.Cape.Deletion.{
  remove_state, remove_images, finish_delete, delete, state_labelled, undefine,
}
use e_rakshak_umat.Cape.Labels.{label_of, matches_label}

-- what the search for an address tells
abbrev pub Searched : ℕ → ℕ → List ProfileState → Option ℕ → Type 0
Searched n final states none = (ip : ℕ) → final ≤ ip → ip < final + n → is_used ip states ≡ true
Searched n final states (some ip) = (is_used ip states ≡ false) × (final ≤ ip) × (ip < final + n)

Searched-widen :
    (n final : ℕ) (states : List ProfileState) (o : Option ℕ)
    → is_used final states ≡ true
    → Searched n (final + 1) states o
    → Searched (suc n) final states o
Searched-widen n final states (some ip) here h = (h.0, omega arith, omega arith)
Searched-widen n final states none here h = λ ip low high. elim (Bool-cases (ip == final)) [
  | inl e ↦ ap (λ x. is_used x states) ((==_iff ip final).0 e) ∙ here
  | inr e ↦ h ip (ground (arith, e)) (omega arith)
]

pub first_free-Searched :
    (n final : ℕ) (states : List ProfileState) → Searched n final states (first_free n final states)
unfolding first_free
first_free-Searched zero final states = λ ip low high. absurd (omega arith)
first_free-Searched (suc n) final states = elim (Bool-cases (is_used final states)) [
  | inl e ↦ rw e (
      Searched-widen n final states (first_free n (final + 1) states) e
        (first_free-Searched n (final + 1) states))
  | inr e ↦ rw e (e, omega arith, omega arith)
]

-- the last number of the address lies in the range of the deployment
abbrev pub InRange : CapeProfileConfiguration → ℕ → Type 0
InRange c ip = (c.address_start ≤ ip) × (ip ≤ c.address_end)

pub allocated :
    (c : CapeProfileConfiguration) (g : Gateway) (ip : ℕ)
    → allocate_ip c g ≡ some ip
    → (is_used ip g.states ≡ false) × InRange c ip
unfolding allocate_ip
allocated c g ip e =
    let found : Searched (c.address_end + 1 - c.address_start) c.address_start g.states (some ip) =
      subst (Searched (c.address_end + 1 - c.address_start) c.address_start g.states) e
        (first_free-Searched (c.address_end + 1 - c.address_start) c.address_start g.states) in
    (found.0, (found.1, omega (arith, found.1, found.2)))

pub exhausted :
    (c : CapeProfileConfiguration) (g : Gateway)
    → allocate_ip c g ≡ none
    → (ip : ℕ) → InRange c ip
    → is_used ip g.states ≡ true
unfolding allocate_ip
exhausted c g e ip (low, high) =
    let found : Searched (c.address_end + 1 - c.address_start) c.address_start g.states none =
      subst (Searched (c.address_end + 1 - c.address_start) c.address_start g.states) e
        (first_free-Searched (c.address_end + 1 - c.address_start) c.address_start g.states) in
    found ip low (omega (arith, low, high))

-- Every state has an address of its own, in the range.
abbrev pub Apart : CapeProfileConfiguration → List ProfileState → Type 0
Apart c [] = Unit {0}
Apart c (s ∷ ss) = (is_used s.ip ss ≡ false) × InRange c s.ip × Apart c ss

is_used-remove :
    (label : String) (ip : ℕ) (ss : List ProfileState)
    → is_used ip ss ≡ false
    → is_used ip (remove_state label ss) ≡ false
unfolding is_used remove_state
is_used-remove label ip [] h = refl
is_used-remove label ip (s ∷ ss) h = ground (arith, is_used-remove label ip ss, h)

Apart-remove :
    (c : CapeProfileConfiguration) (label : String) (ss : List ProfileState)
    → Apart c ss
    → Apart c (remove_state label ss)
unfolding remove_state
Apart-remove c label [] h = h
Apart-remove c label (s ∷ ss) h = elim (Bool-cases (str_eq s.label label)) [
  | inl e ↦ rw e h.2
  | inr e ↦ rw e (is_used-remove label s.ip ss h.0, h.1, Apart-remove c label ss h.2)
]

-- a building leaves the states or adds its own
abbrev Extends : ProfileState → Gateway → Gateway × Managed MachineResult → Type 0
Extends s g r = (r.0.states ≡ g.states) ⊎ (r.0.states ≡ s ∷ g.states)

build_machine-Extends :
    (a : Answers) (s : ProfileState) (g : Gateway) → Extends s g (build_machine a s g)
unfolding build_machine define_machine start_machine snapshot_machine stop_machine
    write_cape_machine save_state rollback
build_machine-Extends a s g = ground arith

-- what a call does to the states
abbrev KeepsApart : CapeProfileConfiguration → Gateway × Managed MachineResult → Type 0
KeepsApart c r = Apart c r.0.states

build_at-Apart :
    (env : Env) (c : CapeProfileConfiguration) (a : Answers) (p : ProfileRequest) (label : String)
    (o : Option ℕ) (g : Gateway)
    → allocate_ip c g ≡ o
    → Apart c g.states
    → Apart c (build_at env c a p label o g).0.states
build_at-Apart env c a p label none g e h = h
build_at-Apart env c a p label (some ip) g e h =
    elim (build_machine-Extends a (new_state env c a p label ip) g) [
      | inl same ↦ rw same h
      | inr more ↦ rw more ((allocated c g ip e).0, (allocated c g ip e).1, h)
    ]

create-Apart :
    (env : Env) (c : CapeProfileConfiguration) (a : Answers) (p : ProfileRequest) (g : Gateway)
    → Apart c g.states
    → Apart c (create env c a p g).0.states
unfolding create
create-Apart env c a p g h =
    branch (KeepsApart c) (not (contains p.cape_template c.allowed_templates)) _ _ (λ _. h)
      (λ _.
        branch (KeepsApart c) (not (str_eq p.windows_version c.base_windows_version)) _ _ (λ _. h)
          (λ _. elim (Option-cases (state_of p.profile_id g.states)) [
            | inr (s, e) ↦ rw e h
            | inl e ↦ rw e (
                branch (KeepsApart c) (not (matches_label (label_of p.name p.profile_id))) _ _
                  (λ _. h)
                  (λ _.
                    branch (KeepsApart c) (ltb p.disk_gb (size_gib a.virtual_size)) _ _ (λ _. h)
                      (λ _.
                        build_at-Apart env c a p (label_of p.name p.profile_id) (allocate_ip c g) g
                          refl h)))
          ]))

remove_images-states :
    (label : String) (names : List String) (g : Gateway)
    → (remove_images label names g).0.states ≡ g.states
unfolding remove_images
remove_images-states label [] g = refl
remove_images-states label (name ∷ names) g =
    ground (arith, remove_images-states label names (record g { images = drop name g.images }))

finish_delete-Apart :
    (c : CapeProfileConfiguration) (label : String) (op : ℕ) (r : Gateway × Bool)
    → Apart c r.0.states
    → Apart c (finish_delete label op r).0.states
finish_delete-Apart c label op (g, true) h = Apart-remove c label g.states h
finish_delete-Apart c label op (g, false) h = h

delete-Apart :
    (c : CapeProfileConfiguration) (a : Answers) (label : String) (g : Gateway)
    → Apart c g.states
    → Apart c (delete a label g).0.states
unfolding delete
delete-Apart c a label g h =
    branch (KeepsApart c) (not (matches_label label)) _ _ (λ _. h)
      (λ _. elim (Option-cases (state_labelled label g.states)) [
        | inl e ↦ rw e h
        | inr (s, e) ↦ rw e (
            branch (KeepsApart c) (has label g.running) _ _ (λ _. h)
              (λ _.
                branch (KeepsApart c) a.is_locked _ _ (λ _. h)
                  (λ _.
                    branch (KeepsApart c) (not (a.succeeds database_delete)) _ _ (λ _. h)
                      (λ _.
                        branch (KeepsApart c) (not (a.succeeds write_configuration)) _ _ (λ _. h)
                          (λ _.
                            finish_delete-Apart c label a.operation_id
                              (remove_images label
                                (s.disk ∷ s.snapshot_disk ∷ s.snapshot_memory ∷ [])
                                (undefine label g))
                              (rw
                                (remove_images-states label
                                  (s.disk ∷ s.snapshot_disk ∷ s.snapshot_memory ∷ [])
                                  (undefine label g))
                                h))))))
      ])

-- a call of the gateway
pub data Call : Type 0 where
  creates : Answers → ProfileRequest → Call
  deletes : Answers → String → Call

unfoldable pub perform : Env → CapeProfileConfiguration → Call → Gateway → Gateway
perform env c (creates a p) g = (create env c a p g).0
perform env c (deletes a label) g = (delete a label g).0

unfoldable pub perform_all : Env → CapeProfileConfiguration → List Call → Gateway → Gateway
perform_all env c [] g = g
perform_all env c (call ∷ calls) g = perform_all env c calls (perform env c call g)

perform-Apart :
    (env : Env) (c : CapeProfileConfiguration) (call : Call) (g : Gateway)
    → Apart c g.states
    → Apart c (perform env c call g).states
unfolding perform
perform-Apart env c (creates a p) g h = create-Apart env c a p g h
perform-Apart env c (deletes a label) g h = delete-Apart c a label g h

-- After any creations and deletions, whatever their commands answer, every managed machine has an
-- address of its own, and it lies in the range of the deployment.
pub perform_all-Apart :
    (env : Env) (c : CapeProfileConfiguration) (calls : List Call) (g : Gateway)
    → Apart c g.states
    → Apart c (perform_all env c calls g).states
unfolding perform_all
perform_all-Apart env c [] g h = h
perform_all-Apart env c (call ∷ calls) g h =
    perform_all-Apart env c calls (perform env c call g) (perform-Apart env c call g h)
