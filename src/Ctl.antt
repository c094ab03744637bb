-- ===== src/Ctl.antt =====
-- Signed certificate timestamps: cmd/cosign/cli/fulcio/fulcioverifier/ctl/verify.go. The loops over
-- targets and timestamps are recursions on the list, and `pubKeys` is a map by log ID.
pub mod Accepts
use cosign.Base.{String, ◌<>◌, Option, none, some, Bool, true, false, List, [], ◌∷◌, ◌==◌}
use cosign.Base.{Error, message, wrapped, Result, ok, err, wrap, wrap_result}
use cosign.Base.{◌>>=◌, ◌>>◌, if◌then◌else◌}
use cosign.Base.Lists.{is_empty}
use cosign.Base.Maps.{Map, lookup, insert}
use cosign.World.{World}
use cosign.World.Models.{StatusKind, active, TargetFile}

abbrev alt_ct_log_public_key_location : String
alt_ct_log_public_key_location = "SIGSTORE_CT_LOG_PUBLIC_KEY_FILE"

module _ (w : World) where
  pub record LogIdMetadata : Type 0 where
    pub pub_key : w.PublicKey
    pub status : StatusKind

  unfoldable pub contains_sct : String → Result Bool
  contains_sct cert = do
    embedded ← w.parse_scts cert
    if is_empty embedded then ok false else ok true

  -- `pub.(*ecdsa.PublicKey)`, with the error of a key of another kind
  require_ecdsa : w.PublicKey → Option w.EcdsaKey → Result w.PublicKey
  require_ecdsa key none =
      err (message ("invalid public key: was " <> w.type_name key <> ", require *ecdsa.PublicKey"))
  require_ecdsa key (some k) = ok (w.from_ecdsa k)

  -- The loop over the CTFE targets.
  add_targets : List TargetFile → Map LogIdMetadata → Result (Map LogIdMetadata)
  add_targets [] keys = ok keys
  add_targets (t ∷ targets) keys = do
    key ← w.unmarshal_pem_to_public_key t.target
    ct_pub ← require_ecdsa key (w.as_ecdsa key)
    id ← wrap_result "error getting CTFE public key hash" (w.get_ct_log_id ct_pub)
    add_targets targets (insert id (record { pub_key = ct_pub; status = t.status }) keys)

  -- The DER bytes of a PEM block, or the input itself.
  der_bytes : String → Option (String × String) → String
  der_bytes input none = input
  der_bytes input (some (bytes, rest)) = bytes

  or_pkcs1 : String → Result w.PublicKey → Result w.PublicKey
  or_pkcs1 der (ok key) = ok key
  or_pkcs1 der (err _) = wrap_result "failed to parse alternate public key" (w.parse_pkcs1 der)

  unfoldable pub get_alternate_public_key : String → Result w.PublicKey
  unfolding der_bytes or_pkcs1
  get_alternate_public_key input =
      let der = der_bytes input (w.pem_decode input) in or_pkcs1 der (w.parse_pkix der)

  alternate_key : String → Result (Map LogIdMetadata)
  alternate_key file = do
    bytes ← wrap_result "error reading alternate public key file" (w.read_file file)
    key ←
        wrap_result "error parsing alternate public key from the file"
          (get_alternate_public_key bytes)
    id ← wrap_result "error getting CTFE public key hash" (w.get_ct_log_id key)
    ok (insert id (record { pub_key = key; status = active }) [])

  -- The first part of VerifySCT: the trusted keys by log ID.
  unfoldable pub ct_log_keys : Result (Map LogIdMetadata)
  unfolding add_targets alternate_key require_ecdsa
  ct_log_keys =
      let root_env = w.getenv alt_ct_log_public_key_location in
      if root_env == ""
      then (w.ctfe_targets >>= λ targets. add_targets targets [])
      else alternate_key root_env

  -- The loop over the embedded timestamps.
  unfoldable pub verify_embedded :
      Map LogIdMetadata → w.Certificate → w.Certificate → List w.Sct → Option Error
  verify_embedded keys cert issuer [] = none
  verify_embedded keys cert issuer (sct ∷ scts) =
      let rest = verify_embedded keys cert issuer scts in
      elim (lookup (w.sct_log_id sct) keys) [
        | none ↦ some (message "ctfe public key not found for embedded SCT")
        | some m ↦ elim (w.ctutil_verify_sct m.pub_key (cert ∷ issuer ∷ []) sct true) [
          | some e ↦ some (wrapped "error verifying embedded SCT" e)
          | none ↦ rest
        ]
      ]

  unfoldable pub detached_sct : String → Result w.Sct
  detached_sct raw_sct = do
    response ← wrap_result "unmarshal" (w.unmarshal_add_chain_response raw_sct)
    w.to_signed_certificate_timestamp response

  -- The timestamp of the response header, where the certificate embeds none.
  unfoldable pub verify_detached : Map LogIdMetadata → w.Certificate → String → Option Error
  verify_detached keys cert raw_sct = elim (detached_sct raw_sct) [
    | err e ↦ some e
    | ok sct ↦ elim (lookup (w.sct_log_id sct) keys) [
      | none ↦ some (message "ctfe public key not found")
      | some m ↦ wrap "error verifying SCT" (w.ctutil_verify_sct m.pub_key (cert ∷ []) sct false)
    ]
  ]

  first_cert : List w.Certificate → Result w.Certificate
  first_cert [] = err (message "no certificate chain found")
  first_cert (c ∷ cs) = ok c

  unfoldable pub check_scts :
      Map LogIdMetadata → w.Certificate → w.Certificate → List w.Sct → String → Option Error
  check_scts keys cert issuer [] raw_sct =
      if raw_sct == "" then some (message "no SCT found") else verify_detached keys cert raw_sct
  check_scts keys cert issuer (sct ∷ scts) raw_sct = verify_embedded keys cert issuer (sct ∷ scts)

  -- What is left to check once every input has been read.
  pub record SctInputs : Type 0 where
    pub keys : Map LogIdMetadata
    pub cert : w.Certificate
    pub issuer : w.Certificate
    pub scts : List w.Sct

  no_keys : Map LogIdMetadata → Option Error
  no_keys [] = some (message "none of the CTFE keys have been found")
  no_keys (k ∷ ks) = none

  unfoldable pub sct_inputs : String → String → Result SctInputs
  unfolding first_cert no_keys
  sct_inputs cert_pem chain_pem = do
    keys ← ct_log_keys
    no_keys keys
    cert ← w.certificate_from_pem cert_pem
    chain ← w.certificates_from_pem chain_pem
    issuer ← first_cert chain
    scts ← w.parse_scts cert_pem
    ok (record { keys = keys; cert = cert; issuer = issuer; scts = scts })

  unfoldable pub verify_sct : String → String → String → Option Error
  unfolding sct_inputs check_scts
  verify_sct cert_pem chain_pem raw_sct = elim (sct_inputs cert_pem chain_pem) [
    | err e ↦ some e
    | ok i ↦ check_scts i.keys i.cert i.issuer i.scts raw_sct
  ]

  unfoldable pub verify_embedded_sct : List w.Certificate → Option Error
  verify_embedded_sct (leaf ∷ issuer ∷ rest) = elim (w.marshal_certificate_to_pem (some leaf)) [
    | err e ↦ some e
    | ok cert_pem ↦ elim (w.marshal_certificates_to_pem (issuer ∷ rest)) [
      | err e ↦ some e
      | ok chain_pem ↦ verify_sct cert_pem chain_pem ""
    ]
  ]
  verify_embedded_sct _ =
      some (message "certificate chain must contain at least a certificate and its issuer")
