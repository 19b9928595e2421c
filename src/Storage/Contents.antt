-- ===== src/Storage/Contents.antt =====
-- What the store is for its callers: a map from digests to contents that only grows.
use e_rakshak_umat.Prelude.{
  ℕ, ◌≡◌, ◌⊎◌, refl, sym, ap, ◌∙◌, inl, inr, not, String, false, Option, none, some, List, [], ◌∷◌,
  ◌==◌, ◌||◌, str_eq, eq_iff, arith, Bool-cases, Option-cases, if◌then◌else◌,
}
use mathlib.Core.Path.{subst}
use e_rakshak_umat.Environment.{Env}
use e_rakshak_umat.Database.Rules.{branch}
use e_rakshak_umat.Storage.{
  LocalArtifactStore, QuarantinedObject, StoredObject, Stored, ok, err, digest_mismatch, Chunk,
  object_at, upload_at, object_key, destination, put_object, copy_new, stored_as, quarantine_upload,
  promote, promote_checked, accept_upload, store_file, cleanup_temporary,
}
use e_rakshak_umat.Storage.Paths.{same, locate}
use e_rakshak_umat.Storage.Digests.{IsDigest, same_iff, same_digest}
use e_rakshak_umat.Storage.Integrity.{
  IsIntact, IsGenuine, object_at-here, object_at-below, quarantine_upload-IsGenuine, Call, upload,
  export, start, perform, perform_all, perform-Keeps,
}

-- the map of digests to contents
abbrev pub Contents : Type 0
Contents = String → Option String

abbrev pub contents : LocalArtifactStore → Contents
contents store d = object_at (destination d store) store.objects

abbrev pub Same : Contents → Contents → Type 0
Same before after = (d : String) → IsDigest d → after d ≡ before d

abbrev pub Adds : String → String → Contents → Contents → Type 0
Adds s c before after =
    (d : String) → IsDigest d → after d ≡ (if str_eq d s then some c else before d)

-- One step of the map. A call that is refused, and the start, change nothing. An accepted call
-- finds a content with the digest of its answer, or adds one where there was none.
abbrev pub Steps : Env → Contents → Option (Stored StoredObject) → Contents → Type 0
Steps env before none after = Same before after
Steps env before (some (err e)) after = Same before after
Steps env before (some (ok o)) after =
    (c : String) × (env.sha256 c ≡ o.sha256)
    × (((before o.sha256 ≡ some c) × Same before after)
        ⊎ ((before o.sha256 ≡ none) × Adds o.sha256 c before after))

-- the steps of a sequence of calls
abbrev pub Traces : Env → Contents → List (Option (Stored StoredObject)) → Contents → Type 0
Traces env before [] after = Same before after
Traces env before (a ∷ as_) after =
    (between : Contents) × Steps env before a between × Traces env between as_ after

unfoldable pub answer : Env → Call → LocalArtifactStore → Option (Stored StoredObject)
answer env (upload uuid max_bytes chunks sha256 size) store =
    some (accept_upload env uuid max_bytes chunks sha256 size store).1
answer env (export source sha256 size) store = some (store_file env source sha256 size store).1
answer env start store = none

unfoldable pub answers : Env → List Call → LocalArtifactStore → List (Option (Stored StoredObject))
answers env [] store = []
answers env (call ∷ calls) store =
    answer env call store ∷ answers env calls (perform env call store)

abbrev pub Refines : Env → LocalArtifactStore → LocalArtifactStore × Stored StoredObject → Type 0
Refines env store r = Steps env (contents store) (some r.1) (contents r.0)

apart :
    (store : LocalArtifactStore) (s d : String)
    → IsDigest s
    → IsDigest d
    → str_eq d s ≡ false
    → same (destination s store) (destination d store) ≡ false
apart store s d hs hd e = elim (Bool-cases (same (destination s store) (destination d store))) [
  | inr k ↦ k
  | inl k ↦
      let one : s ≡ d = same_digest store.artifact_root s d hs hd ((same_iff _ _).0 k) in
      ground (arith, e, one, eq_iff d s)
]

contents-put :
    (store : LocalArtifactStore) (s c : String)
    → IsDigest s
    → Adds s c (contents store) (contents (put_object (destination s store) c store))
contents-put store s c hs d hd = elim (Bool-cases (str_eq d s)) [
  | inl e ↦ rw e (
      object_at-here (destination s store) (destination d store) c store.objects
        ((same_iff _ _).1 (ap (λ x. destination x store) (sym ((eq_iff d s).0 e)))))
  | inr e ↦ rw e (
      object_at-below (destination s store) (destination d store) c store.objects
        (apart store s d hs hd e))
]

contents-same :
    (s t : LocalArtifactStore)
    → s.objects ≡ t.objects
    → s.artifact_root ≡ t.artifact_root
    → contents s ≡ contents t
contents-same s t objects root =
    ap (λ files d. object_at (destination d s) files) objects
    ∙ ap (λ r d. object_at (locate r (object_key d)) t.objects) root

module _ (env : Env) (hexadecimal : (text : String) → IsDigest (env.sha256 text)) where
  digest : (s c : String) → env.sha256 c ≡ s → IsDigest s
  digest s c e = rw (← e) (hexadecimal c)

  promote-Refines :
      (q : QuarantinedObject) (store : LocalArtifactStore)
      → IsGenuine env q store
      → Refines env store (promote env q store)
  unfolding promote
  promote-Refines q store genuine =
      elim (Option-cases (object_at (destination q.sha256 store) store.objects)) [
        | inr (old, there) ↦
            rw (there, promote)
              (branch (Refines env store) (not (str_eq (env.sha256 old) q.sha256)) _ _
                (λ _ d hd. refl)
                (λ e. (
                  old,
                  ground (arith, e, eq_iff (env.sha256 old) q.sha256),
                  inl (there, λ d hd. refl),
                )))
        | inl free ↦
            rw (free, promote)
              (elim (Option-cases (upload_at q.name store.quarantine)) [
                | inl lost ↦ rw lost (λ d hd. refl)
                | inr (content, there) ↦ rw there (
                  content,
                  genuine content there,
                  inr (
                    free,
                    contents-put store q.sha256 content
                        (digest q.sha256 content (genuine content there)),
                  ),
                )
              ])
      ]

  copied-Refines :
      (source sha256 : String) (size : ℕ) (store : LocalArtifactStore) (old : Option String)
      → env.sha256 source ≡ sha256
      → IsIntact env store.artifact_root store.objects
      → object_at (destination sha256 store) store.objects ≡ old
      → Refines env store
          (copy_new (destination sha256 store) source old store, ok (stored_as sha256 size store))
  copied-Refines source sha256 size store (some old) e intact there =
      let kept : sha256 ≡ env.sha256 old =
        same_digest store.artifact_root sha256 (env.sha256 old) (digest sha256 source e)
          (hexadecimal old) (intact (destination sha256 store) old there) in
      (old, sym kept, inl (there, λ d hd. refl))
  copied-Refines source sha256 size store none e intact free =
      (source, e, inr (free, contents-put store sha256 source (digest sha256 source e)))

  store_file-Refines :
      (source sha256 : String) (size : ℕ) (store : LocalArtifactStore)
      → IsIntact env store.artifact_root store.objects
      → Refines env store (store_file env source sha256 size store)
  unfolding store_file
  store_file-Refines source sha256 size store intact =
      branch (Refines env store)
        (not (env.byte_length source == size) || not (str_eq (env.sha256 source) sha256)) _ _
        (λ _ d hd. refl)
        (λ e.
          copied-Refines source sha256 size store _
            (ground (arith, e, eq_iff (env.sha256 source) sha256)) intact refl)

  quarantine_upload-contents :
      (uuid : String) (max_bytes : ℕ) (chunks : List Chunk) (store : LocalArtifactStore)
      → contents (quarantine_upload env uuid max_bytes chunks store).0 ≡ contents store
  unfolding quarantine_upload
  quarantine_upload-contents uuid max_bytes chunks store =
      contents-same (quarantine_upload env uuid max_bytes chunks store).0 store unmoved.0 unmoved.1
    where
      unmoved :
          ((quarantine_upload env uuid max_bytes chunks store).0.objects ≡ store.objects)
          × ((quarantine_upload env uuid max_bytes chunks store).0.artifact_root
              ≡ store.artifact_root)
      unmoved = ground arith

  promote_checked-Refines :
      (sha256 : String) (size : ℕ) (r : LocalArtifactStore × Stored QuarantinedObject)
      → ((q : QuarantinedObject) → r.1 ≡ ok q → IsGenuine env q r.0)
      → Refines env r.0 (promote_checked env sha256 size r)
  promote_checked-Refines sha256 size (received, err e) g = λ d hd. refl
  promote_checked-Refines sha256 size (received, ok q) g =
      branch (Refines env received) (not (str_eq q.sha256 sha256) || not (q.size_bytes == size))
        (received, err digest_mismatch) (promote env q received) (λ _ d hd. refl)
        (λ _. promote-Refines q received (g q refl))

  pub accept_upload-Steps :
      (uuid : String) (max_bytes : ℕ) (chunks : List Chunk) (sha256 : String) (size : ℕ)
      (store : LocalArtifactStore)
      → Refines env store (accept_upload env uuid max_bytes chunks sha256 size store)
  unfolding accept_upload
  accept_upload-Steps uuid max_bytes chunks sha256 size store =
      let received = quarantine_upload env uuid max_bytes chunks store in
      subst
        (λ V.
          Steps env V (some (accept_upload env uuid max_bytes chunks sha256 size store).1)
            (contents (accept_upload env uuid max_bytes chunks sha256 size store).0))
        (quarantine_upload-contents uuid max_bytes chunks store)
        (promote_checked-Refines sha256 size received
          (quarantine_upload-IsGenuine env uuid max_bytes chunks store))

  step-Steps :
      (call : Call) (store : LocalArtifactStore)
      → IsIntact env store.artifact_root store.objects
      → Steps env (contents store) (answer env call store) (contents (perform env call store))
  unfolding answer perform cleanup_temporary
  step-Steps (upload uuid max_bytes chunks sha256 size) store intact =
      accept_upload-Steps uuid max_bytes chunks sha256 size store
  step-Steps (export source sha256 size) store intact =
      store_file-Refines source sha256 size store intact
  step-Steps start store intact = λ d hd. refl

  -- If every digest is a text of at least three characters without slash and dot: over any sequence of
  -- uploads, exports and starts, from a store whose objects are intact, the store is a map from
  -- digests to contents: an accepted call found a content with the digest of its answer, or added one
  -- where there was none, and every other call left all contents as they were.
  pub perform_all-Traces :
      (calls : List Call) (store : LocalArtifactStore)
      → IsIntact env store.artifact_root store.objects
      → Traces env
          (contents store)
          (answers env calls store)
          (contents (perform_all env calls store))
  unfolding answers perform_all
  perform_all-Traces [] store intact = λ d hd. refl
  perform_all-Traces (call ∷ calls) store intact = (
    contents (perform env call store),
    step-Steps call store intact,
    perform_all-Traces calls (perform env call store) (perform-Keeps env call store intact).intact,
  )
