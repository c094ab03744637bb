-- ===== src/Tests/Certificates.antt =====
-- The results on certificates and their timestamps, at concrete inputs.
use cosign.Base.Maps.{Map}
use cosign.Base.{
  String, none, some, true, false, [], ◌∷◌, ◌≡◌, ◌↔◌, refl, inl, arith, Result, ok, err, Option,
  Error, List,
}
use cosign.Base.Int.{pos, ◌≤ℤ◌}
use cosign.Ctl.{verify_sct, sct_inputs, SctInputs}
use cosign.Ctl.Accepts.{SctsVerified, verify_sct_iff}
use cosign.Verify.{Signature, CheckOpts, Identity}
use cosign.Verify.Cert.{check_expiry, validate_and_unpack_cert}
use cosign.Verify.Cert.Accepts.{check_expiry_iff}
use cosign.Verify.Cert.Unpack.{
  validate_and_unpack_cert_sound, validate_and_unpack_cert_complete, enforce_sct_ignored,
}
use cosign.Tests.Toy.{toy, options}

abbrev matching : CheckOpts toy
matching = record options {
  enforce_sct = true;
  identities = record { issuer = ""; subject = "dev@example.com" } ∷ [];
}

validate_and_unpack_cert_sound_example :
    cosign.Verify.Cert.Unpack.Accepted toy "cert" matching "cert"
unfolding cosign.Base.Maps.lookup cosign.Base.Maps.insert cosign.Ctl.contains_sct
    cosign.Ctl.get_alternate_public_key cosign.Ctl.ct_log_keys cosign.Ctl.verify_embedded
    cosign.Ctl.detached_sct cosign.Ctl.verify_detached cosign.Ctl.check_scts cosign.Ctl.sct_inputs
    cosign.Ctl.verify_sct cosign.Ctl.verify_embedded_sct cosign.Verify.Cert.issuer_of
    cosign.Verify.Cert.get_subject_alternate_names cosign.Verify.Cert.trusted_cert
    cosign.Verify.Cert.check_expiry cosign.Verify.Cert.check_email
    cosign.Verify.Cert.check_oidc_issuer cosign.Verify.Cert.issuer_matches
    cosign.Verify.Cert.subject_matches cosign.Verify.Cert.match_identities
    cosign.Verify.Cert.check_embedded_sct cosign.Verify.Cert.finish_unpack
    cosign.Verify.Cert.validate_and_unpack_cert
    cosign.Verify.Cert.validate_and_unpack_cert_with_chain
validate_and_unpack_cert_sound_example =
    validate_and_unpack_cert_sound toy "cert" matching "cert" refl

validate_and_unpack_cert_complete_example : validate_and_unpack_cert toy "cert" options ≡ ok "cert"
unfolding cosign.Base.Maps.lookup cosign.Base.Maps.insert cosign.Ctl.contains_sct
    cosign.Ctl.get_alternate_public_key cosign.Ctl.ct_log_keys cosign.Ctl.verify_embedded
    cosign.Ctl.detached_sct cosign.Ctl.verify_detached cosign.Ctl.check_scts cosign.Ctl.sct_inputs
    cosign.Ctl.verify_sct cosign.Ctl.verify_embedded_sct cosign.Verify.Cert.issuer_of
    cosign.Verify.Cert.get_subject_alternate_names cosign.Verify.Cert.trusted_cert
    cosign.Verify.Cert.check_expiry cosign.Verify.Cert.check_email
    cosign.Verify.Cert.check_oidc_issuer cosign.Verify.Cert.issuer_matches
    cosign.Verify.Cert.subject_matches cosign.Verify.Cert.match_identities
    cosign.Verify.Cert.check_embedded_sct cosign.Verify.Cert.finish_unpack
    cosign.Verify.Cert.validate_and_unpack_cert
    cosign.Verify.Cert.validate_and_unpack_cert_with_chain
validate_and_unpack_cert_complete_example =
    validate_and_unpack_cert_complete toy "cert" options "cert" (λ i m. elim m [ ])
      (validate_and_unpack_cert_sound toy "cert" options "cert" refl)

enforce_sct_ignored_example :
    validate_and_unpack_cert toy "cert" (record matching { enforce_sct = false })
    ≡ validate_and_unpack_cert toy "cert" matching
enforce_sct_ignored_example =
    enforce_sct_ignored toy "cert" matching (record { issuer = ""; subject = "dev@example.com" }) []
      false refl

check_expiry_iff_example :
    (check_expiry toy "cert" (pos 20) ≡ none) ↔ ((pos 10 ≤ℤ pos 20) × (pos 20 ≤ℤ pos 20))
check_expiry_iff_example = check_expiry_iff toy "cert" (pos 20)

verify_sct_iff_example : (verify_sct toy "cert" "chain" "" ≡ none) ↔ (
    (i : SctInputs toy) × (sct_inputs toy "cert" "chain" ≡ ok i)
    × SctsVerified toy "" i.keys i.cert i.issuer i.scts)
verify_sct_iff_example = verify_sct_iff toy "cert" "chain" ""
