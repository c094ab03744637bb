-- ===== src/Policy/Validation/Accepts.antt =====
-- The policies that validation accepts, described field by field.
use cosign.Base.{String, none, Bool, true, ◌==◌}
use cosign.Base.{◌&&◌, ◌||◌, not, is_none, is_some, if◌then◌else◌, Result, ok}
use cosign.Base.{◌≡◌, ◌≢◌, ◌↔◌, ◌⊎◌, inl, inr, arith, eq_iff, Bool-cases}
use cosign.Base.{Result-cases}
use cosign.FieldError.{FieldErrors, IsLawful, also_if-nil}
use cosign.Verify.{Identity}
use cosign.Policy.{ImagePattern, KeyRef}
use cosign.Policy.Glob.{validate_glob}
use cosign.Policy.Glob.Laws.{IsValidGlob, validate_glob_iff}
use cosign.Policy.Validation.{validate_regex, validate_pattern, validate_key, validate_identity}

module _ (f : FieldErrors) (lawful : IsLawful f) (is_valid_key : String → Bool)
    (compile : String → Result (String → Bool)) where
  abbrev pub Compiles : String → Type 0
  Compiles regex = (m : String → Bool) × (compile regex ≡ ok m)

  -- Exactly one of a valid glob and a regular expression.
  abbrev pub IsValidPattern : ImagePattern → Type 0
  IsValidPattern p =
      ((p.glob ≢ "") × (p.regex ≡ "") × IsValidGlob p.glob)
      ⊎ ((p.glob ≡ "") × (p.regex ≢ "") × Compiles p.regex)

  validate_regex_iff :
      (regex : String)
      → (f.is_nil (validate_regex f is_valid_key compile regex) ≡ true) ↔ Compiles regex
  unfolding validate_regex
  validate_regex_iff regex = elim (Result-cases (compile regex)) [
    | inl (m, e) ↦ (λ h. (m, e), λ c. rw e lawful.is_nil-nil)
    | inr (x, e) ↦
        (λ h. absurd (grind (arith, lawful.is_nil-invalid_value)), λ c. absurd (ground arith))
  ]

  validate_pattern-nil :
      (p : ImagePattern)
      → f.is_nil (validate_pattern f is_valid_key compile p)
        ≡ (((not (not (p.regex == "") && not (p.glob == "")))
              && not ((p.regex == "") && (p.glob == "")))
            && ((p.glob == "") || f.is_nil (validate_glob f p.glob)))
          && ((p.regex == "") || f.is_nil (validate_regex f is_valid_key compile p.regex))
  unfolding validate_pattern
  validate_pattern-nil p =
      simp
        (
          also_if-nil f lawful,
          lawful.is_nil-nil,
          lawful.is_nil-multiple_one_of,
          lawful.is_nil-missing_one_of,
          lawful.is_nil-via_field,
        )
        (ground arith)

  pub validate_pattern_iff :
      (p : ImagePattern)
      → (f.is_nil (validate_pattern f is_valid_key compile p) ≡ true) ↔ IsValidPattern p
  validate_pattern_iff p =
      let g = validate_glob_iff f lawful p.glob in
      let r = validate_regex_iff p.regex in
      let e = validate_pattern-nil p in
      (
        λ h. elim (Bool-cases (p.glob == "")) [
          | inl x ↦
              inr ((eq_iff p.glob "").0 x, ground (arith, eq_iff p.regex ""), r.0 (ground arith))
          | inr x ↦ inl (
            ground (arith, eq_iff p.glob ""),
            ground (arith, eq_iff p.regex ""),
            g.0 (ground arith),
          )
        ],
        λ v. elim v [
          | inl (a, b, c) ↦ ground (arith, g.1 c, eq_iff p.glob "", eq_iff p.regex "")
          | inr (a, b, c) ↦ ground (arith, r.1 c, eq_iff p.glob "", eq_iff p.regex "")
        ],
      )

  -- Exactly one of inline data, which is a valid key, a KMS reference and a secret.
  abbrev pub IsValidKey : KeyRef → Type 0
  IsValidKey k =
      ((k.key_data ≢ "") × (k.kms ≡ "") × (k.secret_ref ≡ none) × (is_valid_key k.key_data ≡ true))
      ⊎ ((k.key_data ≡ "") × (k.kms ≢ "") × (k.secret_ref ≡ none))
      ⊎ ((k.key_data ≡ "") × (k.kms ≡ "") × (is_some k.secret_ref ≡ true))

  validate_key-nil :
      (k : KeyRef)
      → f.is_nil (validate_key f is_valid_key compile k) ≡ (
          if k.key_data == ""
          then (not ((k.kms == "") && is_none k.secret_ref))
            && not (not (k.kms == "") && is_some k.secret_ref)
          else (not (not (k.kms == "") || is_some k.secret_ref)) && is_valid_key k.key_data)
  unfolding validate_key
  validate_key-nil k = elim (Bool-cases (k.key_data == "")) [
    | inl x ↦ rw x (
        simp
          (
            also_if-nil f lawful,
            lawful.is_nil-nil,
            lawful.is_nil-multiple_one_of,
            lawful.is_nil-missing_one_of,
          )
          (ground arith))
    | inr x ↦ rw x (
        simp
          (
            also_if-nil f lawful,
            lawful.is_nil-nil,
            lawful.is_nil-multiple_one_of,
            lawful.is_nil-invalid_value,
          )
          (ground arith))
  ]

  pub validate_key_iff :
      (k : KeyRef) → (f.is_nil (validate_key f is_valid_key compile k) ≡ true) ↔ IsValidKey k
  validate_key_iff k = ground (arith, validate_key-nil k, eq_iff k.key_data "", eq_iff k.kms "")

  -- Some pattern, and every pattern compiles.
  abbrev pub IsValidIdentity : Identity → Type 0
  IsValidIdentity i =
      ((i.issuer ≢ "") ⊎ (i.subject ≢ ""))
      × ((i.issuer ≢ "") → Compiles i.issuer)
      × ((i.subject ≢ "") → Compiles i.subject)

  validate_identity-nil :
      (i : Identity)
      → f.is_nil (validate_identity f is_valid_key compile i)
        ≡ ((not ((i.issuer == "") && (i.subject == "")))
            && ((i.issuer == "") || f.is_nil (validate_regex f is_valid_key compile i.issuer)))
          && ((i.subject == "") || f.is_nil (validate_regex f is_valid_key compile i.subject))
  unfolding validate_identity
  validate_identity-nil i =
      simp
        (
          also_if-nil f lawful,
          lawful.is_nil-nil,
          lawful.is_nil-missing_one_of,
          lawful.is_nil-via_field,
        )
        (ground arith)

  pub validate_identity_iff :
      (i : Identity)
      → (f.is_nil (validate_identity f is_valid_key compile i) ≡ true) ↔ IsValidIdentity i
  validate_identity_iff i =
      let a = validate_regex_iff i.issuer in
      let b = validate_regex_iff i.subject in
      let e = validate_identity-nil i in
      (
        λ h. (
          elim (Bool-cases (i.issuer == "")) [
            | inl x ↦ inr (ground (arith, eq_iff i.subject ""))
            | inr x ↦ inl (ground (arith, eq_iff i.issuer ""))
          ],
          λ n. a.0 (ground (arith, eq_iff i.issuer "")),
          λ n. b.0 (ground (arith, eq_iff i.subject "")),
        ),
        λ v. elim (Bool-cases (i.issuer == "")) [
          | inl x ↦
              let y : i.subject ≢ "" = ground (arith, eq_iff i.issuer "") in
              ground (arith, b.1 (v.2 y), eq_iff i.subject "")
          | inr x ↦ elim (Bool-cases (i.subject == "")) [
            | inl y ↦ ground (arith, a.1 (v.1 (ground (arith, eq_iff i.issuer ""))))
            | inr y ↦ ground (
              arith,
              a.1 (v.1 (ground (arith, eq_iff i.issuer ""))),
              b.1 (v.2 (ground (arith, eq_iff i.subject ""))),
            )
          ]
        ],
      )
