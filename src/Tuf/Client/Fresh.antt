-- ===== src/Tuf/Client/Fresh.antt =====
-- Which client the program starts with: one whose metadata is current.
use cosign.Base.{String, Option, none, some, Bool, true, false, List}
use cosign.Base.{◌≡◌, refl, sym, ap, ◌∙◌, ◌⊎◌, inl, inr, arith, Bool-cases}
use cosign.Base.{Error, Result, ok, err}
use cosign.Base.Int.{ℤ, ltb_ℤ}
use cosign.Base.Maps.{Map, lookup}
use cosign.Tuf.{Lib}
use cosign.Tuf.Metadata.{get_expiration, is_past, is_expired_timestamp}
use cosign.Tuf.Client.{
  Tuf, failed_update, after_update, download_targets, update_metadata_and_download_targets,
  is_current_by, is_current, start, finished, updated, proceed, initialize_tuf,
}

module _ (l : Lib) where
  -- The metadata has a timestamp that expires after now.
  abbrev pub IsCurrent : Map String → Type 0
  IsCurrent meta =
      (timestamp : String) × (expiration : ℤ) × (lookup "timestamp.json" meta ≡ some timestamp)
      × (get_expiration l timestamp ≡ ok expiration)
      × (ltb_ℤ l.now expiration ≡ true)

  is_past-false :
      (r : Result ℤ)
      → is_past l r ≡ false
      → (expiration : ℤ) × (r ≡ ok expiration) × (ltb_ℤ l.now expiration ≡ true)
  unfolding is_past
  is_past-false (err e) h = cc
  is_past-false (ok expiration) h = elim (Bool-cases (ltb_ℤ l.now expiration)) [
    | inl y ↦ (expiration, refl, y)
    | inr n ↦ absurd (ground (arith, rw n at h))
  ]

  is_current_by-IsCurrent :
      (o : Option String) (force : Bool)
      → is_current_by l o force ≡ true
      → ((timestamp : String) × (expiration : ℤ) × (o ≡ some timestamp)
          × (get_expiration l timestamp ≡ ok expiration)
          × (ltb_ℤ l.now expiration ≡ true))
        × (force ≡ false)
  unfolding is_current_by is_expired_timestamp
  is_current_by-IsCurrent none force h = cc
  is_current_by-IsCurrent (some timestamp) force h =
      let (expiration, e, later) =
        is_past-false (get_expiration l timestamp) (unfold is_expired_timestamp in ground arith) in
      ((timestamp, expiration, refl, e, later), ground arith)

  -- The client's update has succeeded, or there was nothing newer; and each of its target files
  -- has been downloaded and set.
  abbrev pub IsUpdated : Tuf l → Tuf l → Type 0
  IsUpdated before after =
      (names : List String) × (error : Option Error) × (l.update before.client
        ≡ (after.client, names, error))
      × ((error ≡ none) ⊎ ((e : Error) × (error ≡ some e) × (l.is_latest_snapshot e ≡ true)))
      × (download_targets l after.client before.targets names ≡ (after.targets, none))

  failed_update-none :
      (error : Option Error)
      → failed_update l error ≡ none
      → (error ≡ none) ⊎ ((e : Error) × (error ≡ some e) × (l.is_latest_snapshot e ≡ true))
  unfolding failed_update
  failed_update-none none h = inl refl
  failed_update-none (some e) h = elim (Bool-cases (l.is_latest_snapshot e)) [
    | inl y ↦ inr (e, refl, y)
    | inr n ↦ absurd (ground arith)
  ]

  after_update-ok :
      (t after : Tuf l) (names : List String) (failed : Option Error)
      → after_update l t names failed ≡ (after, none)
      → (failed ≡ none)
        × (download_targets l t.client t.targets names ≡ (after.targets, none))
        × (after.client ≡ t.client)
  unfolding after_update
  after_update-ok t after names (some e) h =
      absurd (let q = ap (λ (r : Tuf l × Option Error). r.1) h in ground arith)
  after_update-ok t after names none h =
      let d = download_targets l t.client t.targets names in
      let e : d.1 ≡ none = ap (λ (r : Tuf l × Option Error). r.1) h in
      let a : record t { targets = d.0 } ≡ after = ap (λ (r : Tuf l × Option Error). r.0) h in
      (refl, ap (λ x. (d.0, x)) e ∙ ap (λ x. (x, none)) (ap Tuf.targets a), sym (ap Tuf.client a))

  update-IsUpdated :
      (t after : Tuf l)
      → update_metadata_and_download_targets l t ≡ (after, none)
      → IsUpdated t after
  unfolding update_metadata_and_download_targets
  update-IsUpdated t after h =
      let u = l.update t.client in
      let (f, d, c) =
        after_update-ok (record t { client = u.0 }) after u.1 (failed_update l u.2) h in
      (
        u.1,
        u.2,
        ap (λ x. (x, u.1, u.2)) (sym c),
        failed_update-none u.2 f,
        ap (λ x. download_targets l x t.targets u.1) c ∙ d,
      )

  finished-ok :
      (r : Tuf l × Option Error) (t : Tuf l) (files : l.Files)
      → finished l r ≡ (ok t, files)
      → (r ≡ (t, none)) × (files ≡ t.targets.files)
  unfolding finished
  finished-ok (u, some e) t files h =
      absurd (let q = ap (λ (r : Result (Tuf l) × l.Files). r.0) h in ground arith)
  finished-ok (u, none) t files h =
      let q : ok u ≡ ok t = ap (λ (r : Result (Tuf l) × l.Files). r.0) h in
      let e : u ≡ t = ground arith in
      (
        ap (λ x. (x, none)) e,
        sym (ap (λ (r : Result (Tuf l) × l.Files). r.1) h) ∙ ap (λ (x : Tuf l). x.targets.files) e,
      )

  -- How a client that is started may be returned.
  abbrev pub IsFresh : Bool → Tuf l → Map String → Tuf l → Type 0
  IsFresh force started meta t =
      ((force ≡ false) × IsCurrent meta × (t ≡ started)) ⊎ IsUpdated started t

  updated-IsFresh :
      (force : Bool) (started : Tuf l) (meta : Map String) (t : Tuf l) (after : l.Files)
      → updated l force (started, meta) ≡ (ok t, after)
      → (after ≡ t.targets.files) × IsFresh force started meta t
  unfolding updated is_current
  updated-IsFresh force started meta t after h =
      elim (Bool-cases (is_current_by l (lookup "timestamp.json" meta) force)) [
        | inl y ↦
            let (current, not_forced) =
              is_current_by-IsCurrent (lookup "timestamp.json" meta) force y in
            let k : ◌≡◌ {A = Result (Tuf l) × l.Files} (ok started, started.targets.files)
                (ok t, after) =
              rw y at h in
            let q : ok started ≡ ok t = ap (λ (r : Result (Tuf l) × l.Files). r.0) k in
            let e : started ≡ t = ground arith in
            let f = ap (λ (r : Result (Tuf l) × l.Files). r.1) k in
            (sym f ∙ ap (λ (x : Tuf l). x.targets.files) e, inl (not_forced, current, sym e))
        | inr n ↦
            let k : finished l (update_metadata_and_download_targets l started) ≡ (ok t, after) =
              rw n at h in
            let (u, f) = finished-ok (update_metadata_and_download_targets l started) t after k in
            (f, inr (update-IsUpdated started t u))
      ]

  proceed-IsFresh :
      (force : Bool) (files after : l.Files) (t : Tuf l) (r : Result (Tuf l × Map String))
      → proceed l force files r ≡ (ok t, after)
      → (started : Tuf l) × (meta : Map String) × (r ≡ ok (started, meta))
        × (after ≡ t.targets.files)
        × IsFresh force started meta t
  unfolding proceed
  proceed-IsFresh force files after t (err e) h =
      absurd (let q = ap (λ (r : Result (Tuf l) × l.Files). r.0) h in ground arith)
  proceed-IsFresh force files after t (ok (started, meta)) h =
      let (f, fresh) = updated-IsFresh force started meta t after h in
      (started, meta, refl, f, fresh)

  -- Where a client is returned, it is one that the local metadata starts, and either no update was
  -- asked for and that metadata has a timestamp that expires after now, or the client has updated
  -- itself from the mirror, and its target files have been downloaded and set without an error.
  pub initialize_tuf_sound :
      (embed : Bool) (mirror : String) (root : Option String) (force : Bool) (files after : l.Files)
      (t : Tuf l)
      → initialize_tuf l embed mirror root force files ≡ (ok t, after)
      → (started : Tuf l) × (meta : Map String) × (start l embed mirror root files
          ≡ ok (started, meta))
        × (after ≡ t.targets.files)
        × IsFresh force started meta t
  unfolding initialize_tuf
  initialize_tuf_sound embed mirror root force files after t h =
      proceed-IsFresh force files after t (start l embed mirror root files) h
