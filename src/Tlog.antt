-- ===== src/Tlog.antt =====
-- The transparency log: pkg/cosign/tlog.go, and PemToECDSAKey of pkg/cosign/keys.go. The rekor
-- server and the TUF client are operations of `World`.
pub mod Accepts
pub mod Search
use cosign.Base.{String, ◌<>◌, Option, none, some, Bool, true, false, List, [], ◌∷◌, ◌==◌}
use cosign.Base.{Error, message, wrapped, Result, ok, err, wrap, wrap_result, error_of}
use cosign.Base.{◌>>=◌, ◌>>◌, if◌then◌else◌}
use cosign.Base.Int.{ℤ}
use cosign.Base.Lists.{map}
use cosign.Base.Maps.{Map, lookup, insert}
use cosign.World.{World}
use cosign.World.Models.{
  StatusKind, active, TargetFile, LogEntry, Verification, InclusionProof, ProposedEntry, intoto,
  hashedrekord,
}

abbrev alt_rekor_public_key : String
alt_rekor_public_key = "SIGSTORE_REKOR_PUBLIC_KEY"

abbrev add_rekor_public_key_from_rekor : String
add_rekor_public_key_from_rekor = "SIGSTORE_TRUST_REKOR_API_PUBLIC_KEY"

module _ (w : World) where
  pub record RekorPubKey : Type 0 where
    pub pub_key : w.EcdsaKey
    pub status : StatusKind

  unfoldable pub get_log_id : w.PublicKey → Result String
  get_log_id key = do bytes ← w.marshal_pkix key; ok (w.hex_encode (w.sha256 bytes))

  ecdsa_or_error : w.PublicKey → Option w.EcdsaKey → Result w.EcdsaKey
  ecdsa_or_error key none =
      err (message ("invalid public key: was " <> w.type_name key <> ", require *ecdsa.PublicKey"))
  ecdsa_or_error key (some k) = ok k

  unfoldable pub pem_to_ecdsa_key : String → Result w.EcdsaKey
  unfolding ecdsa_or_error
  pem_to_ecdsa_key pem = do
    key ← w.unmarshal_pem_to_public_key pem
    ecdsa_or_error key (w.as_ecdsa key)

  -- The loop over the rekor targets.
  unfoldable pub add_rekor_targets : List TargetFile → Map RekorPubKey → Result (Map RekorPubKey)
  add_rekor_targets [] keys = ok keys
  add_rekor_targets (t ∷ targets) keys = do
    key ← wrap_result "pem to ecdsa" (pem_to_ecdsa_key t.target)
    id ← wrap_result "error generating log ID" (get_log_id (w.from_ecdsa key))
    add_rekor_targets targets (insert id (record { pub_key = key; status = t.status }) keys)

  unfoldable pub alternate_rekor_pub : String → Result (Map RekorPubKey)
  alternate_rekor_pub file = do
    bytes ← wrap_result "error reading alternate Rekor public key file" (w.read_file file)
    key ← wrap_result "error converting PEM to ECDSAKey" (pem_to_ecdsa_key bytes)
    id ← wrap_result "error generating log ID" (get_log_id (w.from_ecdsa key))
    ok (insert id (record { pub_key = key; status = active }) [])

  some_key : Map RekorPubKey → Result (Map RekorPubKey)
  some_key [] = err (message "none of the Rekor public keys have been found")
  some_key (k ∷ ks) = ok (k ∷ ks)

  unfoldable pub get_rekor_pubs : Result (Map RekorPubKey)
  unfolding some_key
  get_rekor_pubs = do
    targets ← w.rekor_targets
    keys ←
        (let alt = w.getenv alt_rekor_public_key in
          if alt == "" then add_rekor_targets targets [] else alternate_rekor_pub alt)
    some_key keys

  unfoldable pub compute_leaf_hash : LogEntry → Result String
  compute_leaf_hash e = do bytes ← w.base64_decode e.body; ok (w.hash_leaf bytes)

  unfoldable pub verify_uuid : String → LogEntry → Option Error
  verify_uuid uuid e = elim (compute_leaf_hash e) [
    | err x ↦ some x
    | ok computed ↦
        if computed == w.hex_decode uuid
        then none
        else some (message "computed leaf hash did not match entry UUID")
  ]

  -- The range returns in its first round, so at most one entry of the reply is looked at.
  entry_of_reply : String → Map LogEntry → Result LogEntry
  entry_of_reply uuid [] = err (message "empty response")
  entry_of_reply uuid ((k, e) ∷ _) =
      if k == uuid
      then (verify_uuid k e >> ok e)
      else err (message "unexpected entry returned from rekor server")

  unfoldable pub get_tlog_entry : w.RekorClient → String → Result LogEntry
  unfolding entry_of_reply
  get_tlog_entry client uuid = do
    reply ← w.get_log_entry_by_uuid client uuid
    entry_of_reply uuid reply

  unfoldable pub intoto_entry : String → String → ProposedEntry
  intoto_entry signature key = intoto w.intoto_api_version signature key

  unfoldable pub rekor_entry : String → String → String → ProposedEntry
  rekor_entry payload signature key =
      hashedrekord w.hashedrekord_api_version "sha256" (w.hex_encode (w.sha256 payload)) signature
        key

  -- An empty signature means an attestation: its payload is the envelope.
  unfoldable pub proposed_entry : String → String → String → Result (List ProposedEntry)
  unfolding intoto_entry rekor_entry
  proposed_entry b64_sig payload key = do
    signature ← wrap_result "decoding base64 signature" (w.base64_decode b64_sig)
    if signature == ""
        then ok (intoto_entry payload key ∷ [])
        else ok (rekor_entry payload signature key ∷ [])

  -- Exactly one reply with exactly one entry, whose body hash is its UUID.
  unfoldable pub single_entry : List (Map LogEntry) → Result LogEntry
  single_entry [] = err (message "signature not found in transparency log")
  single_entry (((k, e) ∷ []) ∷ []) = verify_uuid k e >> ok e
  single_entry (_ ∷ []) = err (message "UUID value can not be extracted")
  single_entry _ = err (message "multiple entries returned; this should not happen")

  unfoldable pub find_tlog_entry : w.RekorClient → String → String → String → Result LogEntry
  unfolding single_entry
  find_tlog_entry client b64_sig payload key = do
    proposed ← proposed_entry b64_sig payload key
    replies ← wrap_result "searching log query" (w.search_log_query client proposed)
    single_entry replies

  unfoldable pub verify_set : String → ℤ → ℤ → String → String → w.EcdsaKey → Option Error
  verify_set body time index id signature key =
      elim (wrap_result "marshaling" (w.marshal_rekor_payload body time index id)) [
        | err e ↦ some e
        | ok contents ↦ elim (wrap_result "canonicalizing" (w.canonicalize contents)) [
          | err e ↦ some e
          | ok canonicalized ↦
              if w.verify_asn1 key (w.sha256 canonicalized) signature
              then none
              else some (message "unable to verify")
        ]
      ]

  -- The key that the rekor server itself hands out, where the environment says to trust it.
  unfoldable pub add_api_key : w.RekorClient → Map RekorPubKey → Result (Map RekorPubKey)
  add_api_key client keys = if w.getenv add_rekor_public_key_from_rekor == "" then ok keys else do
    pem ← wrap_result "unable to fetch rekor public key from rekor" (w.get_public_key client)
    key ←
        wrap_result "error converting rekor PEM public key from rekor to ECDSAKey"
          (pem_to_ecdsa_key pem)
    id ← wrap_result "error generating log ID" (get_log_id (w.from_ecdsa key))
    ok (insert id (record { pub_key = key; status = active }) keys)

  -- `rekorPubKeys[payload.LogID]`
  unfoldable pub key_for : String → Map RekorPubKey → Result (RekorPubKey)
  key_for id keys = elim (lookup id keys) [
    | none ↦ err (message "rekor log public key not found for payload")
    | some k ↦ ok k
  ]

  -- The inclusion proof and the signed entry timestamp.
  unfoldable pub check_log_entry :
      w.RekorClient → LogEntry → Verification → InclusionProof → Option Error
  check_log_entry client e v p = error_of {0} do
    bytes ← w.base64_decode e.body
    wrap "verifying inclusion proof" (
        w.verify_inclusion_proof p.log_index p.tree_size (map w.hex_decode p.hashes)
          (w.hex_decode p.root_hash) (w.hash_leaf bytes))
    keys ← wrap_result "unable to fetch Rekor public keys from TUF repository" get_rekor_pubs
    all_keys ← add_api_key client keys
    key ← key_for e.log_id all_keys
    wrap "verifying signedEntryTimestamp" (
        verify_set e.body e.integrated_time e.log_index e.log_id v.signed_entry_timestamp
          key.pub_key)
    ok tt

  unfoldable pub proof_of : Option Verification → Option (Verification × InclusionProof)
  proof_of none = none
  proof_of (some v) = elim v.inclusion_proof [ none ↦ none | some p ↦ some (v, p) ]

  unfoldable pub verify_tlog_entry : w.RekorClient → LogEntry → Option Error
  unfolding proof_of
  verify_tlog_entry client e = elim (proof_of e.verification) [
    | none ↦ some (message "inclusion proof not provided")
    | some (v, p) ↦ check_log_entry client e v p
  ]
