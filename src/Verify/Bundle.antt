-- ===== src/Verify/Bundle.antt =====
-- The offline proof that a signature is in the transparency log: VerifyBundle, compareSigs,
-- bundleHash and bundleSig of pkg/cosign/verify.go. Every return with an error carries false.
pub mod Accepts
use cosign.Base.{String, Option, none, some, Bool, true, false, List, [], ◌∷◌, ◌==◌, ◌&&◌}
use cosign.Base.{Error, message, wrapped, Result, ok, err, wrap, wrap_result, error_of}
use cosign.Base.{◌>>=◌, ◌>>◌, if◌then◌else◌}
use cosign.Base.Int.{ℤ}
use cosign.World.{World}
use cosign.World.Models.{RekordObj, IntotoObj}
use cosign.Tlog.{get_rekor_pubs, key_for, verify_set}
use cosign.Verify.{Signature, RekorBundle, RekorPayload}
use cosign.Verify.Cert.{check_expiry}

module _ (w : World) where
  -- The body is tried as a rekord, and if it is none, as a hashedrekord.
  abbrev as_hashedrekord : String → Result RekordObj
  as_hashedrekord bytes = do
    spec ← w.unmarshal_hashedrekord bytes
    spec_bytes ← w.marshal_spec spec
    w.unmarshal_hashedrekord_v001 spec_bytes

  rekord_or_hashedrekord : String → Result w.Spec → Result RekordObj
  rekord_or_hashedrekord bytes (ok spec) = do
    spec_bytes ← w.marshal_spec spec
    w.unmarshal_rekord_v001 spec_bytes
  rekord_or_hashedrekord bytes (err _) = as_hashedrekord bytes

  unfoldable pub record_of_body : String → Result RekordObj
  unfolding rekord_or_hashedrekord
  record_of_body bytes = rekord_or_hashedrekord bytes (w.unmarshal_rekord bytes)

  abbrev intoto_of_body : String → Result IntotoObj
  intoto_of_body bytes = do
    spec ← w.unmarshal_toto bytes
    spec_bytes ← w.marshal_spec spec
    w.unmarshal_intoto_v001 spec_bytes

  -- An empty signature means an attestation.
  unfoldable pub bundle_hash : String → String → Result (String × String)
  bundle_hash body signature = do
    bytes ← w.base64_decode body
    if signature == ""
        then (do obj ← intoto_of_body bytes; ok (obj.hash_algorithm, obj.hash_value))
        else (do obj ← record_of_body bytes; ok (obj.hash_algorithm, obj.hash_value))

  unfoldable pub bundle_sig : String → Result String
  bundle_sig body = do
    bytes ← wrap_result "decoding bundleBody" (w.base64_decode body)
    obj ← record_of_body bytes
    ok obj.signature_content

  compare_actual : String → String → Result (Unit {0})
  compare_actual body actual = if actual == "" then ok tt else do
    bundle_signature ← wrap_result "failed to extract signature from bundle" (bundle_sig body)
    if bundle_signature == ""
        then ok tt
        else if bundle_signature == actual
        then ok tt
        else err (message "signature in bundle does not match signature being verified")

  unfoldable pub compare_sigs : String → Signature w → Option Error
  unfolding compare_actual
  compare_sigs body sig =
      error_of
        do actual ← wrap_result "base64 signature" sig.base64_signature; compare_actual body actual

  -- What `bundleHash` returns beside its error.
  hash_or_zero : Result (String × String) → String × String
  hash_or_zero (ok p) = p
  hash_or_zero (err _) = ("", "")

  -- `return false, e`
  false_with : Option Error → Result Bool
  false_with none = ok false
  false_with (some e) = err e

  -- The wrapped error is the one that `bundleHash` returned, which may be nil.
  unfoldable pub match_hash : Result (String × String) → String → Result Bool
  unfolding hash_or_zero false_with
  match_hash found payload_hash =
      let p = hash_or_zero found in
      if (p.0 == "sha256") && (p.1 == payload_hash)
      then ok true
      else false_with (wrap "matching bundle to payload" (error_of found))

  unfoldable pub match_cert : Signature w → RekorBundle → Option w.Certificate → Result Bool
  match_cert sig b none = ok true
  match_cert sig b (some cert) = do
    wrap "checking expiry on cert" (check_expiry w cert b.payload.integrated_time)
    payload ← wrap_result "reading payload" sig.payload
    signature ← wrap_result "reading base64signature" sig.base64_signature
    match_hash (bundle_hash b.payload.body signature) (w.hex_encode (w.sha256 payload))

  unfoldable pub verify_present : Signature w → RekorBundle → Result Bool
  verify_present sig b = do
    let p = b.payload
    compare_sigs p.body sig
    keys ← wrap_result "retrieving rekor public key" (get_rekor_pubs w)
    key ← key_for w p.log_id keys
    verify_set w p.body p.integrated_time p.log_index p.log_id b.signed_entry_timestamp key.pub_key
    cert ← sig.cert
    match_cert sig b cert

  present_or_not : Signature w → Option RekorBundle → Result Bool
  present_or_not sig none = ok false
  present_or_not sig (some b) = verify_present sig b

  unfoldable pub verify_bundle : Signature w → Result Bool
  unfolding present_or_not
  verify_bundle sig = do bundle ← sig.bundle; present_or_not sig bundle
