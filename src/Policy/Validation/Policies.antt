-- ===== src/Policy/Validation/Policies.antt =====
-- The policies that validation accepts: authorities and whole policies.
use cosign.Base.{String, Option, none, some, Bool, true, false, List, [], ◌∷◌, ◌==◌}
use cosign.Base.{◌&&◌, ◌||◌, not, is_none, is_some, Result}
use cosign.Base.{◌≡◌, ◌≢◌, refl, ◌↔◌, ◌⊎◌, inl, inr, arith, eq_iff, ◌∙◌}
use cosign.Base.Lists.{is_empty, all, All, all_iff}
use cosign.FieldError.{FieldErrors, IsLawful, also_if-nil, each-nil}
use cosign.Verify.{Identity}
use cosign.Policy.{KeyRef, KeylessRef, Authority, Source, ClusterImagePolicySpec}
use cosign.Policy.Validation.{
  validate_pattern, validate_key, validate_identity, empty_not_nil, identities_of, validate_keyless,
  validate_source, via_key, via_keyless, via_sources, validate_authority, validate_spec,
  validate_policy,
}
use cosign.Policy.Validation.Accepts.{
  IsValidPattern, IsValidKey, IsValidIdentity, validate_pattern_iff, validate_key_iff,
  validate_identity_iff,
}

module _ (f : FieldErrors) (lawful : IsLawful f) (is_valid_key : String → Bool)
    (compile : String → Result (String → Bool)) where
  -- A URL, identities or a CA certificate, but not both a URL and a CA certificate; a list of
  -- identities is not empty, and each is valid.
  pub record IsValidKeyless (k : KeylessRef) : Type 0 where
    pub not_empty : (is_some k.url || (is_some k.identities || is_some k.ca_cert)) ≡ true
    pub not_both : (is_some k.url && is_some k.ca_cert) ≡ false
    pub some_identity : k.identities ≢ some []
    pub each_valid :
        All (IsValidIdentity f lawful is_valid_key compile) (identities_of k.identities)

  validate_keyless-nil :
      (k : KeylessRef)
      → f.is_nil (validate_keyless f is_valid_key compile k)
        ≡ (((not (is_none k.url && (is_none k.identities && is_none k.ca_cert)))
              && not (is_some k.url && is_some k.ca_cert))
            && not (empty_not_nil k.identities))
          && all
              (λ i. f.is_nil (validate_identity f is_valid_key compile i))
              (identities_of k.identities)
  unfolding validate_keyless
  validate_keyless-nil k =
      simp
        (
          each-nil {0} f lawful,
          also_if-nil f lawful,
          lawful.is_nil-nil,
          lawful.is_nil-multiple_one_of,
          lawful.is_nil-missing_one_of,
          lawful.is_nil-missing_field,
        )
        (ground arith)

  empty_not_nil_iff : (o : Option (List Identity)) → (empty_not_nil o ≡ false) ↔ (o ≢ some [])
  empty_not_nil_iff none = ground arith
  empty_not_nil_iff (some []) = (λ h. cc, λ h. absurd (h refl))
  empty_not_nil_iff (some (i ∷ is)) = ground arith

  validate_keyless_iff :
      (k : KeylessRef)
      → (f.is_nil (validate_keyless f is_valid_key compile k) ≡ true) ↔ IsValidKeyless k
  validate_keyless_iff k =
      let e = validate_keyless-nil k in
      let n = empty_not_nil_iff k.identities in
      let a =
        all_iff (λ i. f.is_nil (validate_identity f is_valid_key compile i)) _
          (validate_identity_iff f lawful is_valid_key compile) (identities_of k.identities) in
      (
        λ h. record {
          not_empty = ground arith;
          not_both = ground arith;
          some_identity = n.0 (ground arith);
          each_valid = a.0 (ground arith);
        },
        λ v. ground (arith, a.1 v.each_valid, n.1 v.some_identity, v.not_empty, v.not_both),
      )

  -- Exactly one of a valid key and valid keyless settings, and every source has a repository.
  pub record IsValidAuthority (a : Authority) : Type 0 where
    pub exactly_one :
        ((k : KeyRef) × (a.key ≡ some k)
          × (a.keyless ≡ none)
          × IsValidKey f lawful is_valid_key compile k)
        ⊎ ((k : KeylessRef) × (a.key ≡ none) × (a.keyless ≡ some k) × IsValidKeyless k)
    pub sources_valid : All (λ (s : Source). s.oci ≢ "") a.sources

  via_sources-nil :
      (ss : List Source) (errs : f.FieldError)
      → f.is_nil (via_sources f is_valid_key compile ss errs)
        ≡ (f.is_nil errs && all (λ (s : Source). not (s.oci == "")) ss)
  unfolding via_sources validate_source
  via_sources-nil [] errs = ground arith
  via_sources-nil (s ∷ ss) errs =
      via_sources-nil ss _
      ∙ simp
          (
            lawful.is_nil-also,
            lawful.is_nil-via_field,
            also_if-nil f lawful,
            lawful.is_nil-nil,
            lawful.is_nil-missing_field,
          )
          (ground arith)

  key_is_nil : Option KeyRef → Bool
  key_is_nil none = true
  key_is_nil (some k) = f.is_nil (validate_key f is_valid_key compile k)

  keyless_is_nil : Option KeylessRef → Bool
  keyless_is_nil none = true
  keyless_is_nil (some k) = f.is_nil (validate_keyless f is_valid_key compile k)

  via_key-nil :
      (o : Option KeyRef) (errs : f.FieldError)
      → f.is_nil (via_key f is_valid_key compile o errs) ≡ (f.is_nil errs && key_is_nil o)
  unfolding via_key key_is_nil
  via_key-nil none errs = ground arith
  via_key-nil (some k) errs = simp (lawful.is_nil-also, lawful.is_nil-via_field)

  via_keyless-nil :
      (o : Option KeylessRef) (errs : f.FieldError)
      → f.is_nil (via_keyless f is_valid_key compile o errs) ≡ (f.is_nil errs && keyless_is_nil o)
  unfolding via_keyless keyless_is_nil
  via_keyless-nil none errs = ground arith
  via_keyless-nil (some k) errs = simp (lawful.is_nil-also, lawful.is_nil-via_field)

  validate_authority-nil :
      (a : Authority)
      → f.is_nil (validate_authority f is_valid_key compile a)
        ≡ ((((not (is_none a.key && is_none a.keyless)) && not (is_some a.key && is_some a.keyless))
              && key_is_nil a.key)
            && keyless_is_nil a.keyless)
          && all (λ (s : Source). not (s.oci == "")) a.sources
  unfolding validate_authority
  validate_authority-nil a =
      simp
        (
          via_sources-nil,
          via_keyless-nil,
          via_key-nil,
          also_if-nil f lawful,
          lawful.is_nil-nil,
          lawful.is_nil-multiple_one_of,
          lawful.is_nil-missing_one_of,
        )
        (ground arith)

  one_of_iff :
      (key : Option KeyRef) (keyless : Option KeylessRef)
      → ((((not (is_none key && is_none keyless)) && not (is_some key && is_some keyless))
              && key_is_nil key)
            && keyless_is_nil keyless)
          ≡ true
        ↔ (((k : KeyRef) × (key ≡ some k)
              × (keyless ≡ none)
              × IsValidKey f lawful is_valid_key compile k)
            ⊎ ((k : KeylessRef) × (key ≡ none) × (keyless ≡ some k) × IsValidKeyless k))
  unfolding key_is_nil keyless_is_nil
  one_of_iff none none = (λ h. cc, λ v. elim v [ inl (k, a, b, c) ↦ cc | inr (k, a, b, c) ↦ cc ])
  one_of_iff (some k) none = (
    λ h. inl (k, refl, refl, (validate_key_iff f lawful is_valid_key compile k).0 (ground arith)),
    λ v. elim v [
      | inl (j, a, b, c) ↦ ground (arith, (validate_key_iff f lawful is_valid_key compile j).1 c)
      | inr (j, a, b, c) ↦ cc
    ],
  )
  one_of_iff none (some k) = (
    λ h. inr (k, refl, refl, (validate_keyless_iff k).0 (ground arith)),
    λ v. elim v [
      | inl (j, a, b, c) ↦ cc
      | inr (j, a, b, c) ↦ ground (arith, (validate_keyless_iff j).1 c)
    ],
  )
  one_of_iff (some k) (some l) =
      (λ h. cc, λ v. elim v [ inl (j, a, b, c) ↦ cc | inr (j, a, b, c) ↦ cc ])

  validate_authority_iff :
      (a : Authority)
      → (f.is_nil (validate_authority f is_valid_key compile a) ≡ true) ↔ IsValidAuthority a
  validate_authority_iff a =
      let e = validate_authority-nil a in
      let (o₁, o₂) = one_of_iff a.key a.keyless in
      let (s₁, s₂) =
        all_iff (λ (s : Source). not (s.oci == "")) (λ s. s.oci ≢ "")
          (λ s. ground (arith, eq_iff s.oci "")) a.sources in
      (
        λ h. record { exactly_one = o₁ (ground arith); sources_valid = s₁ (ground arith) },
        λ v. ground (arith, o₂ v.exactly_one, s₂ v.sources_valid),
      )

  -- At least one image pattern and one authority, all of them valid.
  pub record IsValidSpec (spec : ClusterImagePolicySpec) : Type 0 where
    pub some_image : spec.images ≢ []
    pub images_valid : All (IsValidPattern f lawful is_valid_key compile) spec.images
    pub some_authority : spec.authorities ≢ []
    pub authorities_valid : All IsValidAuthority spec.authorities

  validate_spec-nil :
      (spec : ClusterImagePolicySpec)
      → f.is_nil (validate_policy f is_valid_key compile spec)
        ≡ (((not (is_empty spec.images))
              && all (λ p. f.is_nil (validate_pattern f is_valid_key compile p)) spec.images)
            && not (is_empty spec.authorities))
          && all (λ a. f.is_nil (validate_authority f is_valid_key compile a)) spec.authorities
  unfolding validate_policy validate_spec
  validate_spec-nil spec =
      simp
        (
          each-nil {0} f lawful,
          also_if-nil f lawful,
          lawful.is_nil-nil,
          lawful.is_nil-missing_field,
          lawful.is_nil-via_field,
        )
        (ground arith)

  -- A policy passes validation exactly if it has image patterns and authorities, each pattern is a
  -- valid glob or a regular expression that compiles, and each authority is valid.
  pub validate_policy_iff :
      (spec : ClusterImagePolicySpec)
      → (f.is_nil (validate_policy f is_valid_key compile spec) ≡ true) ↔ IsValidSpec spec
  validate_policy_iff spec =
      let e = validate_spec-nil spec in
      let (p₁, p₂) =
        all_iff (λ p. f.is_nil (validate_pattern f is_valid_key compile p)) _
          (validate_pattern_iff f lawful is_valid_key compile) spec.images in
      let (a₁, a₂) =
        all_iff (λ a. f.is_nil (validate_authority f is_valid_key compile a)) _
          validate_authority_iff spec.authorities in
      (
        λ h. record {
          some_image = ground arith;
          images_valid = p₁ (ground arith);
          some_authority = ground arith;
          authorities_valid = a₁ (ground arith);
        },
        λ v.
            ground
              (arith, p₂ v.images_valid, a₂ v.authorities_valid, v.some_image, v.some_authority),
      )
