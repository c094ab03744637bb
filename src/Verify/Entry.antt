-- ===== src/Verify/Entry.antt =====
-- One signature or attestation: VerifyImageSignature, the closure in verifyImageAttestations,
-- verifyOCISignature, verifyOCIAttestation and the two checks against the log's server, of
-- pkg/cosign/verify.go. The options are an object that the functions write to: each takes them
-- and returns them.
pub mod Verifier
pub mod Online
pub mod Accepts
pub mod Isolation
use cosign.Base.{String, ◌<>◌, Option, none, some, Bool, true, false, List, [], ◌∷◌, ◌==◌}
use cosign.Base.{Error, message, wrapped, Result, ok, err, error_of, ◌>>=◌, ◌>>◌}
use cosign.Base.{if◌then◌else◌}
use cosign.Base.Lists.{init}
use cosign.Base.Int.{ℤ}
use cosign.World.{World}
use cosign.Tlog.{find_tlog_entry, verify_tlog_entry}
use cosign.Verify.{Signature, CheckOpts}
use cosign.Verify.Cert.{check_expiry, validate_and_unpack_cert}
use cosign.Verify.Bundle.{verify_bundle}

-- pkg/types/media.go
abbrev pub intoto_payload_type : String
intoto_payload_type = "application/vnd.in-toto+json"

-- `(bundleVerified bool, err error)`
abbrev pub Outcome : Type 0
Outcome = Bool × Option Error

module _ (w : World) where
  unfoldable pub verify_oci_signature : w.Verifier → Signature w → Option Error
  verify_oci_signature verifier sig = error_of {0} do
    b64sig ← sig.base64_signature
    signature ← w.base64_decode b64sig
    payload ← sig.payload
    w.verify_signature verifier signature payload
    ok tt

  unfoldable pub verify_oci_attestation : w.Verifier → Signature w → Option Error
  verify_oci_attestation verifier att = error_of {0} do
    payload ← att.payload
    env ← w.unmarshal_envelope payload
    (if env.payload_type == intoto_payload_type
        then none
        else some (
            message (
              "invalid payloadType "
              <> (env.payload_type <> (" on envelope. Expected " <> intoto_payload_type)))))
    dssev ← w.new_envelope_verifier verifier
    w.verify_envelope dssev env
    ok tt

  unfoldable pub tlog_validate_public_key : w.RekorClient → w.PublicKey → Signature w → Option Error
  tlog_validate_public_key client key sig = error_of do
    pem ← w.marshal_public_key_to_pem key
    b64sig ← sig.base64_signature
    payload ← sig.payload
    find_tlog_entry w client b64sig payload pem

  -- With no certificate this point is reached only if the library makes a PEM block of a nil
  -- pointer; Go would then panic.
  unfoldable expiry_of : Option w.Certificate → ℤ → Option Error
  expiry_of none time = some (message "nil certificate")
  expiry_of (some cert) time = check_expiry w cert time

  unfoldable pub tlog_validate_certificate : w.RekorClient → Signature w → Option Error
  unfolding expiry_of
  tlog_validate_certificate client sig = error_of {0} do
    cert ← sig.cert
    pem ← w.marshal_certificate_to_pem cert
    b64sig ← sig.base64_signature
    payload ← sig.payload
    e ← find_tlog_entry w client b64sig payload pem
    verify_tlog_entry w client e
    expiry_of cert e.integrated_time
    ok tt

  -- The intermediates are the chain less its root; a chain of at most one certificate has none.
  unfoldable pub intermediates_of : List w.Certificate → Option (List w.Certificate)
  intermediates_of [] = none
  intermediates_of (c ∷ []) = none
  intermediates_of (c ∷ d ∷ cs) = some (init (c ∷ d ∷ cs))

  unfoldable pub verify_claims : Signature w → String → CheckOpts w → Option Error
  verify_claims sig digest co = elim co.claim_verifier [
    | none ↦ none
    | some check ↦ check sig digest co.annotations
  ]

  unfoldable pub tlog_validate : w.RekorClient → Signature w → CheckOpts w → Option Error
  tlog_validate client sig co = elim co.sig_verifier [
    | none ↦ tlog_validate_certificate client sig
    | some v ↦ elim (w.verifier_public_key v) [
      | err e ↦ some e
      | ok key ↦ tlog_validate_public_key client key sig
    ]
  ]

  -- From the result of VerifyBundle on. With a client an error of the bundle is dropped.
  unfoldable pub finish : Signature w → CheckOpts w → Result Bool → Outcome
  finish sig co bundled = elim co.rekor_client [
    | none ↦ elim bundled [
      | err e ↦ (false, some (wrapped "unable to verify bundle" e))
      | ok verified ↦ (verified, none)
    ]
    | some client ↦ elim bundled [
      | err _ ↦ (false, tlog_validate client sig co)
      | ok false ↦ (false, tlog_validate client sig co)
      | ok true ↦ (true, none)
    ]
  ]

  module _ (missing : String) where
    -- The certificate of the signature, where there is no key to check against.
    unfoldable pub verifier_of_cert : Signature w → CheckOpts w → Result w.Verifier × CheckOpts w
    verifier_of_cert sig co = elim sig.cert [
      | err e ↦ (err e, co)
      | ok none ↦ (err (message missing), co)
      | ok (some cert) ↦ elim sig.chain [
        | err e ↦ (err e, co)
        | ok chain ↦
            let co' = record co { intermediate_certs = intermediates_of chain } in
            (validate_and_unpack_cert w cert co', co')
      ]
    ]

    unfoldable pub obtain_verifier : Signature w → CheckOpts w → Result w.Verifier × CheckOpts w
    obtain_verifier sig co = elim co.sig_verifier [
      | some v ↦ (ok v, co)
      | none ↦ verifier_of_cert sig co
    ]

  module _ (missing : String) (verify_payload : w.Verifier → Signature w → Option Error) where
    unfoldable pub check_with : Result w.Verifier → Signature w → String → CheckOpts w → Outcome
    check_with (err e) sig digest co = (false, some e)
    check_with (ok v) sig digest co = elim (verify_payload v sig) [
      | some e ↦ (false, some e)
      | none ↦ elim (verify_claims sig digest co) [
        | some e ↦ (false, some e)
        | none ↦ finish sig co (verify_bundle w sig)
      ]
    ]

    unfoldable pub verify_entry : Signature w → String → CheckOpts w → Outcome × CheckOpts w
    verify_entry sig digest co =
        let (v, co') = obtain_verifier missing sig co in (check_with v sig digest co', co')

  unfoldable pub verify_image_signature : Signature w → String → CheckOpts w → Outcome × CheckOpts w
  verify_image_signature = verify_entry "no certificate found on signature" verify_oci_signature

  unfoldable pub verify_image_attestation :
      Signature w → String → CheckOpts w → Outcome × CheckOpts w
  verify_image_attestation =
      verify_entry "no certificate found on attestation" verify_oci_attestation
