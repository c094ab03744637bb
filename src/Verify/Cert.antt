-- ===== src/Verify/Cert.antt =====
-- The certificate of a signature: TrustedCert, CheckExpiry, ValidateAndUnpackCert and
-- ValidateAndUnpackCertWithChain of pkg/cosign/verify.go. Certificate pools are lists.
pub mod Accepts
pub mod Unpack
use cosign.Base.{ℕ, String, ◌<>◌, Option, none, some, Bool, true, false, List, [], ◌∷◌, ◌++◌}
use cosign.Base.{◌==◌, not, ◌&&◌, Error, message, wrapped, Result, ok, err, wrap_result}
use cosign.Base.{◌>>=◌, ◌>>◌, if◌then◌else◌, nat_eq}
use cosign.Base.Int.{ℤ, ltb_ℤ}
use cosign.Base.Lists.{any, init, is_empty, map}
use cosign.World.{World}
use cosign.World.Models.{Extension, Chains, code_signing}
use cosign.Ctl.{contains_sct, verify_embedded_sct}
use cosign.Verify.{CheckOpts, Identity}

-- Extension 1.3.6.1.4.1.57264.1.1, the issuer of the OIDC token.
abbrev pub issuer_oid : List ℕ
issuer_oid = 1 ∷ 3 ∷ 6 ∷ 1 ∷ 4 ∷ 1 ∷ 57264 ∷ 1 ∷ 1 ∷ []

-- `asn1.ObjectIdentifier.Equal`
abbrev pub oid_equal : List ℕ → List ℕ → Bool
oid_equal [] [] = true
oid_equal (a ∷ as') (b ∷ bs) = nat_eq a b && oid_equal as' bs
oid_equal _ _ = false

unfoldable pub issuer_of : List Extension → String
issuer_of [] = ""
issuer_of (ext ∷ exts) = if oid_equal ext.id issuer_oid then ext.value else issuer_of exts

module _ (w : World) where
  abbrev pub get_issuer : w.Certificate → String
  get_issuer cert = issuer_of (w.extensions cert)

  unfoldable pub get_subject_alternate_names : w.Certificate → List String
  get_subject_alternate_names cert =
      w.dns_names cert
      ++ (w.email_addresses cert
          ++ (map w.ip_string (w.ip_addresses cert) ++ map w.uri_string (w.uris cert)))

  -- The time of the check is the certificate's own: whether the signature was made while it was
  -- valid is the business of `check_expiry`.
  unfoldable pub trusted_cert :
      w.Certificate
      → Option (List w.Certificate)
      → Option (List w.Certificate)
      → Result (Chains w.Certificate)
  trusted_cert cert roots intermediates =
      w.build_chains cert (w.not_before cert) roots intermediates (code_signing ∷ [])

  -- Times are whole seconds since 1970, as in certificates and log entries. The texts of the two
  -- errors print their times by `format`.
  unfoldable pub check_expiry : w.Certificate → ℤ → Option Error
  check_expiry cert it =
      if ltb_ℤ (w.not_after cert) it
      then some (message "certificate expired before signatures were entered in log")
      else if ltb_ℤ it (w.not_before cert)
      then some (message "certificate was issued after signatures were entered in log")
      else none

  unfoldable pub check_email : w.Certificate → String → Option Error
  check_email cert email =
      if email == ""
      then none
      else if any (λ em. email == em) (w.email_addresses cert)
      then none
      else some (message "expected email not found in certificate")

  unfoldable pub check_oidc_issuer : w.Certificate → String → Option Error
  check_oidc_issuer cert issuer =
      if issuer == ""
      then none
      else if get_issuer cert == issuer
      then none
      else some (message "expected oidc issuer not found in certificate")

  unfoldable pub issuer_matches : w.Certificate → String → Result Bool
  issuer_matches cert issuer = if issuer == "" then ok true else do
    matches ← wrap_result ("malformed issuer in identity: " <> (issuer <> " ")) (w.compile issuer)
    ok (matches (get_issuer cert))

  unfoldable pub subject_matches : w.Certificate → String → Result Bool
  subject_matches cert subject = if subject == "" then ok true else do
    matches ←
        wrap_result ("malformed subject in identity: " <> (subject <> " ")) (w.compile subject)
    ok (any matches (get_subject_alternate_names cert))

  -- The loop over the identities: the first that matches ends it.
  unfoldable pub match_identities : w.Certificate → List Identity → w.Verifier → Result w.Verifier
  match_identities cert [] verifier =
      err (message "none of the expected identities matched what was in the certificate")
  match_identities cert (i ∷ is) verifier =
      let rest = match_identities cert is verifier in
      do
        issuer_ok ← issuer_matches cert i.issuer
        subject_ok ← subject_matches cert i.subject
        if subject_ok && issuer_ok then ok verifier else rest

  unfoldable pub check_embedded_sct : w.Certificate → Chains w.Certificate → Bool → Option Error
  check_embedded_sct cert chains enforce = elim (contains_sct w (w.raw cert)) [
    | err e ↦ some e
    | ok contains ↦
        if enforce && not contains
        then some (message "certificate does not include required embedded SCT")
        else if contains
        then verify_embedded_sct w chains.first
        else none
  ]

  -- What follows the checks of chain, email and issuer.
  unfoldable pub finish_unpack :
      w.Certificate → CheckOpts w → Chains w.Certificate → w.Verifier → Result w.Verifier
  finish_unpack cert co chains verifier =
      if is_empty co.identities
      then (check_embedded_sct cert chains co.enforce_sct >> ok verifier)
      else match_identities cert co.identities verifier

  unfoldable pub validate_and_unpack_cert : w.Certificate → CheckOpts w → Result w.Verifier
  validate_and_unpack_cert cert co = do
    verifier ←
        wrap_result "invalid certificate found on signature" (w.load_verifier (w.public_key cert))
    chains ← trusted_cert cert co.root_certs co.intermediate_certs
    check_email cert co.cert_email
    check_oidc_issuer cert co.cert_oidc_issuer
    finish_unpack cert co chains verifier

  -- The last certificate of a list that is not empty.
  abbrev last_of : w.Certificate → List w.Certificate → w.Certificate
  last_of c [] = c
  last_of c (d ∷ ds) = last_of d ds

  -- The options are the caller's object: its two pools are overwritten.
  unfoldable pub validate_and_unpack_cert_with_chain :
      w.Certificate → List w.Certificate → CheckOpts w → Result w.Verifier × CheckOpts w
  validate_and_unpack_cert_with_chain cert [] co =
      (err (message "no chain provided to validate certificate"), co)
  validate_and_unpack_cert_with_chain cert (c ∷ cs) co =
      let co' = record co {
        root_certs = some (last_of c cs ∷ []);
        intermediate_certs = some (init (c ∷ cs));
      } in
      (validate_and_unpack_cert cert co', co')
