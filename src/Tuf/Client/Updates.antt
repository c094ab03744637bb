-- ===== src/Tuf/Client/Updates.antt =====
-- What reading a target gives after an update has downloaded it.
use mathlib.Core.List.{Memᴰ}
use cosign.Base.{String, Option, none, some, List, [], ◌∷◌, ◌==◌, eq_iff}
use cosign.Base.{◌≡◌, refl, sym, ap, ◌∙◌, ◌⊎◌, inl, inr, arith, Bool-cases}
use cosign.Base.{Error, Result, ok, err, wrap_result, wrap_result-eq-ok}
use cosign.Tuf.{Lib}
use cosign.Tuf.Targets.{Store, get, set}
use cosign.Tuf.Targets.Stored.{IsFileSystem, IsFileStore, IsUnread, set-get, set-IsUnread}
use cosign.Tuf.Client.{download_remote_target, set_target, unless_failed, download_targets}

module _ (l : Lib) (client : l.Client) where
  -- What is read under a name is what can be downloaded under it.
  abbrev pub IsDownloaded : Store l → String → Type 0
  IsDownloaded s name =
      (bytes : String) × (l.download client name ≡ ok bytes) × (get l s name ≡ ok bytes)

  unless_failed-ok :
      (one rest : Store l × Option Error) (after : Store l)
      → unless_failed l one rest ≡ (after, none)
      → (one.1 ≡ none) × (rest ≡ (after, none))
  unfolding unless_failed
  unless_failed-ok (s, none) rest after h = (refl, h)
  unless_failed-ok (s, some e) rest after h =
      absurd (let q = ap (λ (r : Store l × Option Error). r.1) h in ground arith)

  set_target-ok :
      (s : Store l) (name : String) (r : Result String)
      → (set_target l s name r).1 ≡ none
      → (bytes : String) × (r ≡ ok bytes) × (set_target l s name r ≡ set l s name bytes)
  unfolding set_target
  set_target-ok s name (ok bytes) h = (bytes, refl, refl)
  set_target-ok s name (err e) h = absurd (ground arith)

  -- A round that did not fail: the bytes were downloaded, and set.
  round-ok :
      (s after : Store l) (name : String) (names : List String)
      → download_targets l client s (name ∷ names) ≡ (after, none)
      → (bytes : String) × (one : Store l) × (l.download client name ≡ ok bytes)
        × (set l s name bytes ≡ (one, none))
        × (download_targets l client one names ≡ (after, none))
  unfolding download_targets download_remote_target
  round-ok s after name names h =
      let r = wrap_result "downloading target" (l.download client name) in
      let (failed, rest) = unless_failed-ok (set_target l s name r) _ after h in
      let (bytes, d, e) = set_target-ok s name r failed in
      (
        bytes,
        (set_target l s name r).0,
        wrap_result-eq-ok "downloading target" (l.download client name) d,
        sym e ∙ ap (λ x. ((set_target l s name r).0, x)) failed,
        rest,
      )

  module _ (laws : IsFileSystem l) (base : String) where
    -- Different names have different paths.
    abbrev pub IsApart : List String → Type 0
    IsApart all = (a b : String) → Memᴰ a all → Memᴰ b all → l.join base a ≡ l.join base b → a ≡ b

    -- A target stays, or it is downloaded.
    later :
        (all : List String)
        → IsApart all
        → (names : List String) → ((name : String) → Memᴰ name names → Memᴰ name all)
        → (s after : Store l) → IsFileStore l base s
        → download_targets l client s names ≡ (after, none)
        → (name : String) → Memᴰ name all
        → IsDownloaded after name ⊎ (get l after name ≡ get l s name)
    unfolding download_targets
    later all apart [] sub s after f h name m =
        inr (ap (λ (r : Store l × Option Error). get l r.0 name) (sym h))
    later all apart (n ∷ names) sub s after f h name m =
        let (bytes, one, d, e, rest) = round-ok s after n names h in
        let (f', here, other) = set-get l laws base s one n bytes f e in
        elim (later all apart names (λ x i. sub x (Memᴰ.tail i)) one after f' rest name m) [
          | inl got ↦ inl got
          | inr same ↦ elim (Bool-cases (l.join base n == l.join base name)) [
            | inl y ↦
                let q : n ≡ name = apart n name (sub n (Memᴰ.head refl)) m ((eq_iff _ _).0 y) in
                inl
                  (bytes, sym (ap (l.download client) q) ∙ d, same ∙ sym (ap (get l one) q) ∙ here)
            | inr x ↦
                inr (same ∙ other name (λ q. let y = (eq_iff _ _).1 q in absurd (ground arith)))
          ]
        ]

    each :
        (all : List String)
        → IsApart all
        → (names : List String) → ((name : String) → Memᴰ name names → Memᴰ name all)
        → (s after : Store l) → IsFileStore l base s
        → download_targets l client s names ≡ (after, none)
        → (name : String) → Memᴰ name names
        → IsDownloaded after name
    each all apart [] sub s after f h name m = elim m [ ]
    each all apart (n ∷ names) sub s after f h name m =
        let (bytes, one, d, e, rest) = round-ok s after n names h in
        let (f', here, other) = set-get l laws base s one n bytes f e in
        let tail : (x : String) → Memᴰ x names → Memᴰ x all = λ x i. sub x (Memᴰ.tail i) in
        elim m [
          | Memᴰ.tail i ↦ each all apart names tail one after f' rest name i
          | Memᴰ.head q ↦
              elim (later all apart names tail one after f' rest name (sub name (Memᴰ.head q))) [
                | inl got ↦ got
                | inr same ↦ (bytes, ap (l.download client) q ∙ d, same ∙ ap (get l one) q ∙ here)
              ]
        ]

    -- Where the targets are kept on disk where they are read, and different names have different
    -- paths: after an update without an error, each of its target files is read as it was
    -- downloaded.
    pub download_targets-IsDownloaded :
        (s after : Store l) (names : List String)
        → IsFileStore l base s
        → IsApart names
        → download_targets l client s names ≡ (after, none)
        → (name : String) → Memᴰ name names
        → IsDownloaded after name
    download_targets-IsDownloaded s after names f apart h =
        each names apart names (λ name i. i) s after f h

  set_target-IsUnread :
      (s : Store l) (name : String) (r : Result String)
      → IsUnread l s
      → IsUnread l (set_target l s name r).0
        × ((other : String) → get l (set_target l s name r).0 other ≡ get l s other)
  unfolding set_target
  set_target-IsUnread s name (err e) u = (u, λ other. refl)
  set_target-IsUnread s name (ok bytes) u = set-IsUnread l s name bytes u

  unless_failed-either :
      (P : Store l → Type 0) (one rest : Store l × Option Error)
      → P one.0
      → P rest.0
      → P (unless_failed l one rest).0
  unfolding unless_failed
  unless_failed-either P (s, none) rest p q = q
  unless_failed-either P (s, some e) rest p q = p

  -- Where the targets are read from the program's own files, or what is downloaded is kept in
  -- memory, no update changes what is read, whatever is downloaded and whether there is an error.
  pub download_targets-IsUnread :
      (s : Store l) (names : List String)
      → IsUnread l s
      → (name : String) → get l (download_targets l client s names).0 name ≡ get l s name
  unfolding download_targets
  download_targets-IsUnread s [] u name = refl
  download_targets-IsUnread s (n ∷ names) u name =
      let one = set_target l s n (download_remote_target l n client) in
      let (u', same) = set_target-IsUnread s n (download_remote_target l n client) u in
      unless_failed-either (λ t. get l t name ≡ get l s name) one
        (download_targets l client one.0 names) (same name)
        (download_targets-IsUnread one.0 names u' name ∙ same name)
