-- ===== src/Tuf/Targets/Sound.antt =====
-- Which targets are returned: those that the trusted metadata describes.
use cosign.Base.{String, Option, none, some, true, List, [], ◌∷◌, ◌++◌}
use cosign.Base.{◌≡◌, ◌≢◌, refl, sym, ap, ◌∙◌, ◌⊎◌, inl, inr, ◌↔◌, arith, Bool-cases, Result-cases}
use cosign.Base.{ok, wrap_result, wrap_result-eq-ok, ◌>>=◌, >>=-eq-ok, >>-eq-ok, if◌then◌else◌}
use cosign.Base.Maps.{Map}
use cosign.Base.Lists.{is_empty}
use cosign.World.Models.{active, TargetFile}
use cosign.Tuf.{Lib, UsageKind, unknown_usage, fulcio, rekor, ctfe, CustomMetadata}
use cosign.Tuf.Targets.{
  same_usage, Store, get, get_target, custom_of, matched, matched_targets, fallback_targets,
  or_none, get_targets_by_meta,
}

same_usage_iff : (a b : UsageKind) → (same_usage a b ≡ true) ↔ (a ≡ b)
same_usage_iff unknown_usage unknown_usage = (λ h. refl, λ h. refl)
same_usage_iff unknown_usage fulcio = (λ h. cc, λ h. cc)
same_usage_iff unknown_usage rekor = (λ h. cc, λ h. cc)
same_usage_iff unknown_usage ctfe = (λ h. cc, λ h. cc)
same_usage_iff fulcio unknown_usage = (λ h. cc, λ h. cc)
same_usage_iff fulcio fulcio = (λ h. refl, λ h. refl)
same_usage_iff fulcio rekor = (λ h. cc, λ h. cc)
same_usage_iff fulcio ctfe = (λ h. cc, λ h. cc)
same_usage_iff rekor unknown_usage = (λ h. cc, λ h. cc)
same_usage_iff rekor fulcio = (λ h. cc, λ h. cc)
same_usage_iff rekor rekor = (λ h. refl, λ h. refl)
same_usage_iff rekor ctfe = (λ h. cc, λ h. cc)
same_usage_iff ctfe unknown_usage = (λ h. cc, λ h. cc)
same_usage_iff ctfe fulcio = (λ h. cc, λ h. cc)
same_usage_iff ctfe rekor = (λ h. cc, λ h. cc)
same_usage_iff ctfe ctfe = (λ h. refl, λ h. refl)

module _ (l : Lib) (client : l.Client) (s : Store l) where
  -- The bytes are those that are stored under the name, and what the metadata says of the name
  -- is true of them.
  abbrev pub IsVerified : String → String → Type 0
  IsVerified name bytes =
      (valid : l.FileMeta) × (here : l.FileMeta) × (l.target client name ≡ ok valid)
      × (get l s name ≡ ok bytes)
      × (l.generate_meta bytes ≡ ok here)
      × (l.meta_equal here valid ≡ none)

  -- GetTarget returns exactly the bytes that are stored under the name and that the metadata
  -- describes.
  pub get_target_iff :
      (name bytes : String) → (get_target l client s name ≡ ok bytes) ↔ IsVerified name bytes
  unfolding get_target
  get_target_iff name bytes = (
    λ h.
        let (valid, t, h₁) = >>=-eq-ok (wrap_result _ (l.target client name)) _ h in
        let (b, g, h₂) = >>=-eq-ok (get l s name) _ h₁ in
        let (here, m, h₃) = >>=-eq-ok (l.generate_meta b) _ h₂ in
        let (e, q) = >>-eq-ok (l.meta_equal here valid) _ h₃ in
        let same : b ≡ bytes = ground arith in
        (
          valid,
          here,
          wrap_result-eq-ok _ (l.target client name) t,
          g ∙ ap ok same,
          ap l.generate_meta (sym same) ∙ m,
          e,
        ),
    λ (valid, here, t, g, m, e). rw (t, g, m, e) refl,
  )

  module _ (usage : UsageKind) where
    -- The custom metadata of a target says that it is of the usage.
    abbrev pub IsOfUsage : Option String → CustomMetadata → Type 0
    IsOfUsage custom scm =
        (text : String) × (custom ≡ some text)
        × (l.unmarshal_custom text ≡ ok scm)
        × (scm.usage ≡ usage)

    -- The files of the targets of the usage, in order, each verified.
    pub data FromMeta : Map (Option String) → List TargetFile → Type 0 where
      done : FromMeta [] []
      skipped :
          (name : String) (custom : Option String) (rest : Map (Option String))
          (files : List TargetFile)
          → ((scm : CustomMetadata) → ¬ IsOfUsage custom scm)
          → FromMeta rest files
          → FromMeta ((name, custom) ∷ rest) files
      taken :
          (name : String) (custom : Option String) (scm : CustomMetadata) (bytes : String)
          (rest : Map (Option String)) (files : List TargetFile)
          → IsOfUsage custom scm
          → IsVerified name bytes
          → FromMeta rest files
          → FromMeta
              ((name, custom) ∷ rest)
              (record { target = bytes; status = scm.status } ∷ files)

    -- What a target's custom metadata comes to, where it can be read.
    take_if :
        (name text : String) (scm : CustomMetadata) (rest : Map (Option String))
        (fs files : List TargetFile)
        → l.unmarshal_custom text ≡ ok scm
        → matched l client s usage name (some scm) ≡ ok fs
        → FromMeta rest files
        → FromMeta ((name, some text) ∷ rest) (fs ++ files)
    unfolding matched
    take_if name text scm rest fs files u h m = elim (Bool-cases (same_usage scm.usage usage)) [
      | inl y ↦
          let h' : (do
            target ← wrap_result "error getting target by usage" (get_target l client s name)
            ok (record { target = target; status = scm.status } ∷ []))
              ≡ ok fs =
            rw y at h in
          let (bytes, g, h₁) = >>=-eq-ok (wrap_result _ (get_target l client s name)) _ h' in
          let e : record { target = bytes; status = scm.status } ∷ [] ≡ fs = ground arith in
          let v =
            (get_target_iff name bytes).0 (wrap_result-eq-ok _ (get_target l client s name) g) in
          rw (sym e) (
            taken name (some text) scm bytes rest files
              (text, refl, u, (same_usage_iff scm.usage usage).0 y) v m)
      | inr n ↦
          let e : [] ≡ fs = ground arith in
          rw (sym e) (
            skipped name (some text) rest files
              (λ scm' (t, p, q, r).
                let same_text : text ≡ t = ground arith in
                let q' : l.unmarshal_custom text ≡ ok scm' = ap l.unmarshal_custom same_text ∙ q in
                let same : scm ≡ scm' = ground arith in
                let y = (same_usage_iff scm.usage usage).1 (ap CustomMetadata.usage same ∙ r) in
                absurd (ground arith))
              m)
    ]

    matched-FromMeta :
        (name : String) (custom : Option String) (rest : Map (Option String))
        (fs files : List TargetFile)
        → matched l client s usage name (custom_of l custom) ≡ ok fs
        → FromMeta rest files
        → FromMeta ((name, custom) ∷ rest) (fs ++ files)
    unfolding matched custom_of
    matched-FromMeta name none rest fs files h m =
        let e : [] ≡ fs = ground arith in
        rw (sym e) (skipped name none rest files (λ scm (t, p, q, r). absurd (ground arith)) m)
    matched-FromMeta name (some text) rest fs files h m =
        elim (Result-cases (l.unmarshal_custom text)) [
          | inl (scm, u) ↦ take_if name text scm rest fs files u (rw u at h) m
          | inr (x, u) ↦
              let h' : ok [] ≡ ok fs = rw u at h in
              let e : [] ≡ fs = ground arith in
              rw (sym e) (
                skipped name (some text) rest files
                  (λ scm (t, p, q, r).
                    let same_text : text ≡ t = ground arith in
                    let q' : l.unmarshal_custom text ≡ ok scm =
                      ap l.unmarshal_custom same_text ∙ q in
                    absurd (ground arith))
                  m)
        ]

    matched_targets-FromMeta :
        (targets : Map (Option String)) (files : List TargetFile)
        → matched_targets l client s usage targets ≡ ok files
        → FromMeta targets files
    unfolding matched_targets
    matched_targets-FromMeta [] files h = let e : [] ≡ files = ground arith in rw (sym e) done
    matched_targets-FromMeta ((name, custom) ∷ rest) files h =
        let (fs, m, h₁) = >>=-eq-ok (matched l client s usage name (custom_of l custom)) _ h in
        let (later, r, h₂) = >>=-eq-ok (matched_targets l client s usage rest) _ h₁ in
        let e : fs ++ later ≡ files = ground arith in
        rw (sym e)
          (matched-FromMeta name custom rest fs later m (matched_targets-FromMeta rest later r))

  -- The files of the fallbacks that are verified, in order, as active targets.
  pub data FromFallbacks : List String → List TargetFile → Type 0 where
    done : FromFallbacks [] []
    missing :
        (name : String) (names : List String) (files : List TargetFile)
        → ((bytes : String) → ¬ IsVerified name bytes)
        → FromFallbacks names files
        → FromFallbacks (name ∷ names) files
    taken :
        (name : String) (bytes : String) (names : List String) (files : List TargetFile)
        → IsVerified name bytes
        → FromFallbacks names files
        → FromFallbacks (name ∷ names) (record { target = bytes; status = active } ∷ files)

  fallback_targets-FromFallbacks :
      (names : List String) → FromFallbacks names (fallback_targets l client s names)
  unfolding fallback_targets
  fallback_targets-FromFallbacks [] = FromFallbacks.done
  fallback_targets-FromFallbacks (name ∷ names) =
      let rest = fallback_targets-FromFallbacks names in
      elim (Result-cases (get_target l client s name)) [
        | inl (bytes, e) ↦
            rw e (FromFallbacks.taken name bytes names _ ((get_target_iff name bytes).0 e) rest)
        | inr (x, e) ↦ rw e (
            FromFallbacks.missing name names _
              (λ bytes v. let q = (get_target_iff name bytes).1 v in absurd (ground arith)) rest)
      ]

  or_none-ok :
      (names : List String) (xs files : List TargetFile)
      → or_none l names xs ≡ ok files
      → (xs ≡ files) × (files ≢ [])
  unfolding or_none
  or_none-ok names [] files h = absurd (ground arith)
  or_none-ok names (x ∷ xs) files h =
      let e : x ∷ xs ≡ files = ground arith in (e, λ n. ground arith)

  from_found :
      (usage : UsageKind) (fallbacks : List String) (targets : Map (Option String))
      (found files : List TargetFile)
      → or_none l fallbacks
          (if is_empty found then fallback_targets l client s fallbacks else found)
        ≡ ok files
      → FromMeta usage targets found
      → (files ≢ [])
        × (FromMeta usage targets files
            ⊎ (FromMeta usage targets [] × FromFallbacks fallbacks files))
  from_found usage fallbacks targets [] files h m =
      let (e, n) = or_none-ok fallbacks (fallback_targets l client s fallbacks) files h in
      let f = fallback_targets-FromFallbacks fallbacks in (n, inr (m, rw e at f))
  from_found usage fallbacks targets (x ∷ xs) files h m =
      let (e, n) = or_none-ok fallbacks (x ∷ xs) files h in (n, inl (rw (sym e) m))

  -- Where GetTargetsByMeta returns files, there is at least one, and they are those of the targets
  -- that the metadata gives the usage, with their status, or, where there are none of them, those
  -- of the fallbacks, as active ones. All of them are verified: no target of the usage is left out,
  -- and a fallback only where it cannot be verified.
  pub get_targets_by_meta_sound :
      (usage : UsageKind) (fallbacks : List String) (files : List TargetFile)
      → get_targets_by_meta l client s usage fallbacks ≡ ok files
      → (targets : Map (Option String)) × (l.targets client ≡ ok targets)
        × (files ≢ [])
        × (FromMeta usage targets files
            ⊎ (FromMeta usage targets [] × FromFallbacks fallbacks files))
  unfolding get_targets_by_meta
  get_targets_by_meta_sound usage fallbacks files h =
      let (targets, t, h₁) = >>=-eq-ok (wrap_result _ (l.targets client)) _ h in
      let (found, m, h₂) = >>=-eq-ok (matched_targets l client s usage targets) _ h₁ in
      let some_found = matched_targets-FromMeta usage targets found m in
      let (n, all) = from_found usage fallbacks targets found files h₂ some_found in
      (targets, wrap_result-eq-ok _ (l.targets client) t, n, all)
