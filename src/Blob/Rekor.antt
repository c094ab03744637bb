-- ===== src/Blob/Rekor.antt =====
-- The check of the transparency log: verifyRekorBundle and verifyRekorEntry of
-- cmd/cosign/cli/verify/verify_blob.go.
pub mod Ignored
use cosign.Base.{String, Option, none, some, Bool, true, false, ◌==◌, not, ◌&&◌}
use cosign.Base.{
  Error, message, Result, ok, err, wrap_result, error_of, is_none, ◌>>=◌, ◌>>◌, if◌then◌else◌,
}
use cosign.Base.Maps.{lookup}
use cosign.Base.Int.{ℤ}
use cosign.World.{World}
use cosign.World.Models.{LogEntry}
use cosign.Verify.{RekorBundle}
use cosign.Verify.Cert.{check_expiry}
use cosign.Tlog.{
  RekorPubKey, get_rekor_pubs, verify_set, key_for, find_tlog_entry, verify_tlog_entry,
  compute_leaf_hash,
}
use cosign.Blob.{KeyOpts, Services}
use cosign.Blob.Inputs.{fetch_local_signed_payload}

module _ (w : World) (v : Services w) where
  -- A certificate's expiry, if there is one
  unfoldable pub expiry_of : Option w.Certificate → ℤ → Option Error
  expiry_of none time = none
  expiry_of (some cert) time = check_expiry w cert time

  abbrev some_bundle : Option RekorBundle → Result RekorBundle
  some_bundle none = err (message "rekor entry is not available")
  some_bundle (some b) = ok b

  unfoldable pub verify_rekor_bundle : String → Option w.Certificate → Option Error
  verify_rekor_bundle bundle_path cert = error_of {0} do
    local ← fetch_local_signed_payload w v bundle_path
    b ← some_bundle local.bundle
    public_keys ← wrap_result "retrieving rekor public key" (get_rekor_pubs w)
    key ← key_for w b.payload.log_id public_keys
    verify_set w b.payload.body b.payload.integrated_time b.payload.log_index b.payload.log_id
          b.signed_entry_timestamp key.pub_key
        >> (expiry_of cert b.payload.integrated_time >> ok tt)

  -- `if ko.BundlePath != ""`, and the bundle is verified.
  unfoldable pub verified_offline : KeyOpts → Option w.Certificate → Bool
  verified_offline ko cert =
      not (ko.bundle_path == "") && is_none (verify_rekor_bundle ko.bundle_path cert)

  -- The bytes to search the log for: of the certificate, or else of the key.
  unfoldable search_key : w.Verifier → Option w.Certificate → Result String
  search_key pub_key none = v.public_key_pem pub_key
  search_key pub_key (some cert) = do
    _ ← v.public_key_pem pub_key
    w.marshal_certificate_to_pem (some cert)

  -- The entry, if it is there already, or else the one that the log has.
  unfoldable pub entry_of :
      w.RekorClient
      → Option LogEntry
      → w.Verifier
      → Option w.Certificate
      → String
      → String
      → Result LogEntry
  unfolding search_key
  entry_of client (some e) pub_key cert b64sig blob = ok e
  entry_of client none pub_key cert b64sig blob = do
    pub_bytes ← search_key pub_key cert
    find_tlog_entry w client b64sig blob pub_bytes

  unfoldable pub leaf_and_expiry : Option w.Certificate → LogEntry → Result String → Option Error
  leaf_and_expiry cert e (err x) = some x
  leaf_and_expiry cert e (ok uuid) = expiry_of cert e.integrated_time

  -- `if err := VerifyTLogEntry(…); err != nil { return nil }`
  unfoldable pub after_log : Option w.Certificate → LogEntry → Option Error → Option Error
  after_log cert e (some x) = none
  after_log cert e none = leaf_and_expiry cert e (compute_leaf_hash w e)

  -- What the client of the log comes to, with an entry.
  unfoldable pub check_online :
      Option w.Certificate → w.RekorClient → Result LogEntry → Option Error
  check_online cert client (err x) = some x
  check_online cert client (ok e) = after_log cert e (verify_tlog_entry w client e)

  unfoldable pub with_client :
      Result w.RekorClient
      → Option LogEntry
      → w.Verifier
      → Option w.Certificate
      → String
      → String
      → Option Error
  with_client (err x) e pub_key cert b64sig blob = some x
  with_client (ok client) e pub_key cert b64sig blob =
      check_online cert client (entry_of client e pub_key cert b64sig blob)

  unfoldable pub verify_rekor_entry :
      KeyOpts → Option LogEntry → w.Verifier → Option w.Certificate → String → String → Option Error
  verify_rekor_entry ko e pub_key cert b64sig blob =
      if verified_offline ko cert
      then none
      else if not v.is_experimental
      then none
      else with_client (v.new_client ko.rekor_url) e pub_key cert b64sig blob
