-- ===== src/Policy/Validation.antt =====
-- Validation of a policy before it is admitted: v1alpha1's clusterimagepolicy_validation.go.
-- `utils.IsValidKey` and `regexp.Compile` are parameters.
pub mod Accepts
pub mod Policies
use cosign.Base.{ℕ, suc, String, Option, none, some, Bool, true, false, List, [], ◌∷◌, ◌==◌}
use cosign.Base.{
  ◌&&◌, ◌||◌, not, is_none, is_some, if◌then◌else◌, Error, Result, ok, err, error_text,
}
use cosign.Base.{◌<>◌}
use cosign.Base.Lists.{is_empty}
use cosign.FieldError.{FieldErrors, also_if, each}
use cosign.Verify.{Identity}
use cosign.Policy.{
  ImagePattern, KeyRef, KeylessRef, Authority, Source, ClusterImagePolicySpec, SecretReference,
}
use cosign.Policy.Glob.{validate_glob}

-- `keyless.Identities != nil && len(keyless.Identities) == 0`
abbrev pub empty_not_nil : Option (List Identity) → Bool
empty_not_nil none = false
empty_not_nil (some l) = is_empty l

abbrev pub identities_of : Option (List Identity) → List Identity
identities_of none = []
identities_of (some l) = l

module _ (f : FieldErrors) (is_valid_key : String → Bool)
    (compile : String → Result (String → Bool)) where
  regex_error : String → Result (String → Bool) → f.FieldError
  regex_error regex (ok _) = f.nil
  regex_error regex (err e) =
      f.err_invalid_value regex "" (("regex is invalid: " <> error_text e) ∷ [])

  unfoldable pub validate_regex : String → f.FieldError
  unfolding regex_error
  validate_regex regex = regex_error regex (compile regex)

  unfoldable pub validate_pattern : ImagePattern → f.FieldError
  validate_pattern image =
      let both =
        also_if f (not (image.regex == "") && not (image.glob == ""))
          (f.err_multiple_one_of ("regex" ∷ "glob" ∷ [])) f.nil in
      let neither =
        also_if f ((image.regex == "") && (image.glob == ""))
          (f.err_missing_one_of ("regex" ∷ "glob" ∷ [])) both in
      let globs =
        also_if f (not (image.glob == "")) (f.via_field (validate_glob f image.glob) "glob")
          neither in
      also_if f (not (image.regex == "")) (f.via_field (validate_regex image.regex) "regex") globs

  unfoldable pub validate_key : KeyRef → f.FieldError
  validate_key key =
      let fields = "data" ∷ "kms" ∷ "secretref" ∷ [] in
      let missing =
        also_if f ((key.key_data == "") && ((key.kms == "") && is_none key.secret_ref))
          (f.err_missing_one_of fields) f.nil in
      if not (key.key_data == "")
      then also_if f (not (is_valid_key key.key_data)) (f.err_invalid_value key.key_data "data" [])
          (also_if f (not (key.kms == "") || is_some key.secret_ref) (f.err_multiple_one_of fields)
            missing)
      else also_if f (not (key.kms == "") && is_some key.secret_ref) (f.err_multiple_one_of fields)
          missing

  unfoldable pub validate_identity : Identity → f.FieldError
  validate_identity i =
      let missing =
        also_if f ((i.issuer == "") && (i.subject == ""))
          (f.err_missing_one_of ("issuer" ∷ "subject" ∷ [])) f.nil in
      let issuers =
        also_if f (not (i.issuer == "")) (f.via_field (validate_regex i.issuer) "issuer") missing in
      also_if f (not (i.subject == "")) (f.via_field (validate_regex i.subject) "subject") issuers

  unfoldable pub validate_keyless : KeylessRef → f.FieldError
  validate_keyless k =
      let missing =
        also_if f (is_none k.url && (is_none k.identities && is_none k.ca_cert))
          (f.err_missing_one_of ("url" ∷ "identities" ∷ "ca-cert" ∷ [])) f.nil in
      let both =
        also_if f (is_some k.url && is_some k.ca_cert)
          (f.err_multiple_one_of ("url" ∷ "ca-cert" ∷ [])) missing in
      let empty = also_if f (empty_not_nil k.identities) (f.err_missing_field "identities") both in
      each f validate_identity "identities" 0 (identities_of k.identities) empty

  unfoldable pub validate_source : Source → f.FieldError
  validate_source source = also_if f (source.oci == "") (f.err_missing_field "oci") f.nil

  via_key : Option KeyRef → f.FieldError → f.FieldError
  via_key none errs = errs
  via_key (some key) errs = f.also errs (f.via_field (validate_key key) "key")

  via_keyless : Option KeylessRef → f.FieldError → f.FieldError
  via_keyless none errs = errs
  via_keyless (some k) errs = f.also errs (f.via_field (validate_keyless k) "keyless")

  via_sources : List Source → f.FieldError → f.FieldError
  via_sources [] errs = errs
  via_sources (s ∷ ss) errs =
      via_sources ss (f.also errs (f.via_field (validate_source s) "source"))

  unfoldable pub validate_authority : Authority → f.FieldError
  unfolding via_sources via_keyless via_key
  validate_authority a =
      let missing =
        also_if f (is_none a.key && is_none a.keyless)
          (f.err_missing_one_of ("key" ∷ "keyless" ∷ [])) f.nil in
      let both =
        also_if f (is_some a.key && is_some a.keyless)
          (f.err_multiple_one_of ("key" ∷ "keyless" ∷ [])) missing in
      via_sources a.sources (via_keyless a.keyless (via_key a.key both))

  unfoldable pub validate_spec : ClusterImagePolicySpec → f.FieldError
  validate_spec spec =
      let images =
        each f validate_pattern "images" 0 spec.images
          (also_if f (is_empty spec.images) (f.err_missing_field "images") f.nil) in
      each f validate_authority "authorities" 0 spec.authorities
        (also_if f (is_empty spec.authorities) (f.err_missing_field "authorities") images)

  -- `(*ClusterImagePolicy).Validate`
  unfoldable pub validate_policy : ClusterImagePolicySpec → f.FieldError
  validate_policy spec = f.via_field (validate_spec spec) "spec"
