-- ===== src/Blob/Inputs.antt =====
-- What `cosign verify-blob` reads: the signature, the blob, certificates and bundles.
pub mod Reads
use cosign.Base.{String, ◌<>◌, Bool, false, List, [], ◌∷◌, ◌==◌}
use cosign.Base.{message, Result, ok, err, wrap_result, ◌>>=◌, if◌then◌else◌}
use cosign.World.{World}
use cosign.Verify.Registry.{Loaded, bytes, not_exist, failed}
use cosign.Blob.{LocalSignedPayload, EntryKey, rekord_key, hashedrekord_key, other_entry, Services}

abbrev loaded : Loaded → Result String
loaded (bytes b) = ok b
loaded not_exist = err (message "file does not exist")
loaded (failed e) = err e

-- A missing file is the text itself.
abbrev loaded_or_text : String → Loaded → Result String
loaded_or_text text (bytes b) = ok b
loaded_or_text text not_exist = ok text
loaded_or_text text (failed e) = err e

-- What is base64 is decoded, and all else stays.
abbrev pub decoded_or : String → Result String → String
decoded_or pems (ok out) = out
decoded_or pems (err e) = pems

module _ (w : World) (v : Services w) where
  -- `FetchLocalSignedPayloadFromPath` of pkg/cosign/fetch.go
  unfoldable pub fetch_local_signed_payload : String → Result LocalSignedPayload
  fetch_local_signed_payload path = do
    contents ← wrap_result ("reading " <> path) (w.read_file path)
    v.unmarshal_local_payload contents

  -- The bytes of a text, and its base64 form, of which the text may be either one.
  abbrev both_forms : String → Result String → String × String
  both_forms target (ok decoded) = (decoded, target)
  both_forms target (err e) = (target, w.base64_encode target)

  -- The flag, or else the bundle, or else an error.
  unfoldable target_signature : String → String → Result String
  target_signature sig_ref bundle_path =
      if sig_ref == ""
      then (if bundle_path == ""
          then err (message "missing flag '--signature'")
          else (do b ← fetch_local_signed_payload bundle_path; ok b.base64_signature))
      else loaded_or_text sig_ref (v.load_file_or_url sig_ref)

  unfoldable pub signatures : String → String → Result (String × String)
  unfolding target_signature
  signatures sig_ref bundle_path = do
    target ← target_signature sig_ref bundle_path
    ok (both_forms target (w.base64_decode target))

  unfoldable pub payload_bytes : String → Result String
  payload_bytes blob_ref =
      if blob_ref == "-" then v.read_stdin else loaded (v.load_file_or_url blob_ref)

  abbrev first_of : String → List w.Certificate → Result w.Certificate
  first_of none_found [] = err (message none_found)
  first_of none_found (cert ∷ certs) = ok cert

  unfoldable pub load_cert_from_pem : String → Result w.Certificate
  load_cert_from_pem pems = do
    certs ← v.unmarshal_certificates_from_pem (decoded_or pems (w.base64_decode pems))
    first_of "no certs found in pem file" certs

  unfoldable pub load_cert_from_file_or_url : String → Result w.Certificate
  load_cert_from_file_or_url path = do
    pems ← loaded (v.load_file_or_url path)
    load_cert_from_pem pems

  unfoldable pub load_cert_chain_from_file_or_url : String → Result (List w.Certificate)
  load_cert_chain_from_file_or_url path = do
    pems ← loaded (v.load_file_or_url path)
    v.load_certificates_from_pem pems

  abbrev key_text : EntryKey → Result String
  key_text (rekord_key content) = content
  key_text (hashedrekord_key content) = content
  key_text other_entry = err (message "unexpected tlog entry type")

  -- The first certificate of an entry's body, which is the one that is used.
  unfoldable pub extract_cert : String → Result w.Certificate
  extract_cert body = do
    b ← w.base64_decode body
    e ← v.entry_key b
    public_key_b64 ← key_text e
    public_key ← w.base64_decode public_key_b64
    certs ← v.unmarshal_certificates_from_pem public_key
    first_of "no certs found in pem tlog" certs

  unfoldable pub is_intoto_dsse : String → Bool
  is_intoto_dsse blob = elim (w.unmarshal_envelope blob) [
    | err e ↦ false
    | ok envelope ↦ envelope.payload_type == "application/vnd.in-toto+json"
  ]

  -- `FindTLogEntriesByPayload` of pkg/cosign/tlog.go; the encoder writes small letters.
  unfoldable pub find_tlog_entries_by_payload : w.RekorClient → String → Result (List String)
  find_tlog_entries_by_payload client payload =
      v.search_index client ("sha256:" <> w.hex_encode (w.sha256 payload))
