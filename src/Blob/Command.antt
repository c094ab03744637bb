-- ===== src/Blob/Command.antt =====
-- VerifyBlobCmd and verifySigByUUID of cmd/cosign/cli/verify/verify_blob.go. A success is that
-- there is no error.
pub mod Signers
pub mod Sound
use cosign.Base.{
  ℕ, zero, ◌+◌, nat_eq, String, ◌<>◌, Option, none, some, Bool, true, false, List, [], ◌∷◌, ◌==◌,
  not, ◌&&◌, ◌||◌,
}
use cosign.Base.{
  Error, message, Result, ok, err, wrap_result, error_of, is_none, ◌>>=◌, ◌>>◌, if◌then◌else◌,
}
use cosign.World.{World}
use cosign.World.Models.{LogEntry}
use cosign.Verify.{CheckOpts}
use cosign.Verify.Cert.{validate_and_unpack_cert, validate_and_unpack_cert_with_chain}
use cosign.Tlog.{get_tlog_entry}
use cosign.Blob.{KeyOpts, LocalSignedPayload, Services}
use cosign.Blob.Inputs.{
  fetch_local_signed_payload, signatures, payload_bytes, decoded_or, load_cert_from_pem,
  load_cert_from_file_or_url, load_cert_chain_from_file_or_url, extract_cert, is_intoto_dsse,
  find_tlog_entries_by_payload,
}
use cosign.Blob.Rekor.{verify_rekor_entry}

-- The arguments that say who must have signed, and with what certificate.
pub record CertArgs : Type 0 where
  pub cert_ref : String
  pub cert_email : String
  pub cert_oidc_issuer : String
  pub cert_chain : String
  pub enforce_sct : Bool

abbrev one_if : Bool → ℕ
one_if true = 1
one_if false = 0

-- OneOf of cmd/cosign/cli/options/flags.go, on these three arguments
unfoldable pub one_of : String → Bool → String → Bool
one_of key_ref sk cert_ref =
    nat_eq (one_if (not (key_ref == "")) + (one_if sk + one_if (not (cert_ref == "")))) 1

module _ (w : World) (v : Services w) where
  unfoldable pub check_opts :
      CertArgs → Option (List w.Certificate) → Option (List w.Certificate) → CheckOpts w
  check_opts args roots intermediates = record {
    annotations = none;
    claim_verifier = none;
    rekor_client = none;
    sig_verifier = none;
    root_certs = roots;
    intermediate_certs = intermediates;
    cert_email = args.cert_email;
    cert_oidc_issuer = args.cert_oidc_issuer;
    enforce_sct = args.enforce_sct;
    signature_ref = "";
    identities = [];
  }

  -- The verifier, and the certificate that it is of.
  abbrev pub Signer : Type 0
  Signer = w.Verifier × Option w.Certificate

  unfoldable key_signer : String → Result Signer
  key_signer key_ref = do
    verifier ← wrap_result "loading public key" (v.public_key_from_key_ref key_ref)
    ok (verifier, none)

  unfoldable token_signer : String → Result Signer
  token_signer slot = do
    sk ← wrap_result "opening piv token" (v.get_key_with_slot slot)
    verifier ← wrap_result "loading public key from token" (v.token_verifier sk)
    ok (verifier, none)

  -- Without a chain the certificate's key is taken as it is.
  unfoldable cert_verifier : CertArgs → w.Certificate → Result w.Verifier
  cert_verifier args cert =
      if args.cert_chain == "" then w.load_verifier (w.public_key cert) else (do
        chain ← load_cert_chain_from_file_or_url w v args.cert_chain
        (validate_and_unpack_cert_with_chain w cert chain (check_opts args none none)).0)

  unfoldable pub cert_signer : CertArgs → Result Signer
  unfolding cert_verifier
  cert_signer args = do
    cert ← load_cert_from_file_or_url w v args.cert_ref
    verifier ← cert_verifier args cert
    ok (verifier, some cert)

  -- The bundle's text is a certificate, or else a public key.
  unfoldable bundle_key : String → Result w.Certificate → Result Signer
  bundle_key text (ok cert) = do
    verifier ← w.load_verifier (w.public_key cert)
    ok (verifier, some cert)
  bundle_key text (err e) = do verifier ← v.load_public_key_raw text; ok (verifier, none)

  unfoldable pub bundle_signer : String → Result Signer
  unfolding bundle_key
  bundle_signer bundle_path = do
    b ← fetch_local_signed_payload w v bundle_path
    if b.cert == ""
        then err
            (message "bundle does not contain cert for verification, please provide public key")
        else (let text = decoded_or b.cert (w.base64_decode b.cert) in
            bundle_key text (load_cert_from_pem w v text))

  -- The cases with a key, in their order; none where the log is searched instead.
  unfoldable pub chosen_signer : KeyOpts → CertArgs → Option (Result Signer)
  unfolding key_signer token_signer
  chosen_signer ko args =
      if not (ko.key_ref == "")
      then some (key_signer ko.key_ref)
      else if ko.sk
      then some (token_signer ko.slot)
      else if not (args.cert_ref == "")
      then some (cert_signer args)
      else if not (ko.bundle_path == "")
      then some (bundle_signer ko.bundle_path)
      else none

  -- `dsse.WrapVerifier` for an in-toto envelope
  unfoldable pub verifier_for : String → w.Verifier → w.Verifier
  verifier_for blob verifier =
      if is_intoto_dsse w v blob then v.wrap_verifier verifier else verifier

  -- What follows the choice of a verifier.
  unfoldable pub verify_with :
      KeyOpts → String → String → String → Signer → Option LogEntry → Option Error
  verify_with ko sig b64sig blob (verifier, cert) e =
      let wrapped = verifier_for blob verifier in
      error_of {0} (
        w.verify_signature wrapped sig blob
        >> (verify_rekor_entry w v ko e wrapped cert b64sig blob >> ok tt))

  -- A round of verifySigByUUID: whether there is no error; an error is `continue`.
  unfoldable pub verify_uuid_entry :
      KeyOpts → CertArgs → w.RekorClient → String → String → String → String → Result (Unit {0})
  verify_uuid_entry ko args client sig b64sig blob uuid = do
    e ← get_tlog_entry w client uuid
    cert ← extract_cert w v e.body
    verifier ←
        validate_and_unpack_cert w cert (check_opts args (some v.roots) (some v.intermediates))
    verify_with ko sig b64sig blob (verifier, some cert) (some e) >> ok tt

  abbrev is_ok : Result (Unit {0}) → Bool
  is_ok (ok u) = true
  is_ok (err e) = false

  -- `validSigExists`
  unfoldable pub valid_exists :
      KeyOpts → CertArgs → w.RekorClient → String → String → String → List String → Bool
  valid_exists ko args client sig b64sig blob [] = false
  valid_exists ko args client sig b64sig blob (u ∷ us) =
      is_ok (verify_uuid_entry ko args client sig b64sig blob u)
      || valid_exists ko args client sig b64sig blob us

  -- The error ends with the number of the entries, which is left out.
  unfoldable pub verify_sig_by_uuid :
      KeyOpts → CertArgs → w.RekorClient → String → String → String → List String → Option Error
  verify_sig_by_uuid ko args client sig b64sig blob uuids =
      if valid_exists ko args client sig b64sig blob uuids
      then none
      else some (message "could not find a valid tlog entry for provided blob")

  abbrev found_some : List String → Option Error
  found_some [] = some (message "could not find a tlog entry for provided blob")
  found_some (u ∷ us) = none

  -- The case of EnableExperimental.
  unfoldable pub verify_by_log : KeyOpts → CertArgs → String → String → String → Option Error
  verify_by_log ko args sig b64sig blob = error_of {0} do
    client ← v.new_client ko.rekor_url
    uuids ← find_tlog_entries_by_payload w v client blob
    found_some uuids >> (verify_sig_by_uuid ko args client sig b64sig blob uuids >> ok tt)

  -- Without a verifier and without the log, which the first guard excludes, the call of the nil
  -- verifier panics.
  unfoldable pub verify_chosen :
      KeyOpts → CertArgs → String → String → String → Option (Result Signer) → Option Error
  verify_chosen ko args sig b64sig blob (some (err e)) = some e
  verify_chosen ko args sig b64sig blob (some (ok signer)) =
      verify_with ko sig b64sig blob signer none
  verify_chosen ko args sig b64sig blob none =
      if v.is_experimental
      then verify_by_log ko args sig b64sig blob
      else some (message "panic: nil pointer")

  unfoldable pub has_source : KeyOpts → CertArgs → Bool
  has_source ko args =
      one_of ko.key_ref ko.sk args.cert_ref || (v.is_experimental || not (ko.bundle_path == ""))

  unfoldable pub verify_blob_cmd : KeyOpts → CertArgs → String → String → Option Error
  verify_blob_cmd ko args sig_ref blob_ref =
      if not (has_source ko args)
      then some (
          message
            "exactly one of: key reference (--key), certificate (--cert) or hardware token (--sk) must be provided")
      else error_of {0} do
        both ← signatures w v sig_ref ko.bundle_path
        blob ← payload_bytes w v blob_ref
        verify_chosen ko args both.0 both.1 blob (chosen_signer ko args) >> ok tt
