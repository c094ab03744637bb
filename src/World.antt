-- ===== src/World.antt =====
-- What the program calls and does not implement: crypto/x509 and the signature libraries, the JSON
-- and base64 codecs, the rekor server's generated client, the TUF targets, the registry, and the
-- environment. Each is an operation of `World`; nothing is assumed of any of them here. A text
-- stands for a Go string and for a byte slice, and the conversions between them are identities.
pub mod Models
use cosign.Base.{Bool, ℕ, String, Option, List, Error, Result}
use cosign.Base.Int.{ℤ}
use cosign.Base.Maps.{Map}
use Models.{
  Extension, ExtKeyUsage, Chains, Envelope, RekordObj, IntotoObj, LogEntry, ProposedEntry,
  TargetFile, SimpleContainerImage, Statement,
}

pub record World : Type 1 where
  -- crypto/x509: certificates, read through their fields
  pub Certificate : Type 0
  pub PublicKey : Type 0
  pub Ip : Type 0
  pub Uri : Type 0
  pub raw : Certificate → String
  pub public_key : Certificate → PublicKey
  pub not_before : Certificate → ℤ
  pub not_after : Certificate → ℤ
  pub dns_names : Certificate → List String
  pub email_addresses : Certificate → List String
  pub ip_addresses : Certificate → List Ip
  pub uris : Certificate → List Uri
  pub extensions : Certificate → List Extension
  pub ip_string : Ip → String
  pub uri_string : Uri → String
  -- `cert.Verify`: certificate, current time, roots, intermediates, key usages
  pub build_chains :
      Certificate
      → ℤ
      → Option (List Certificate)
      → Option (List Certificate)
      → List ExtKeyUsage
      → Result (Chains Certificate)
  pub marshal_pkix : PublicKey → Result String
  pub parse_pkix : String → Result PublicKey
  pub parse_pkcs1 : String → Result PublicKey
  -- `pem.Decode` of encoding/pem: the bytes of the first block and the rest
  pub pem_decode : String → Option (String × String)
  -- sigstore's signature and cryptoutils packages
  pub Verifier : Type 0
  pub load_verifier : PublicKey → Result Verifier
  pub verify_signature : Verifier → String → String → Option Error
  pub verifier_public_key : Verifier → Result PublicKey
  pub marshal_public_key_to_pem : PublicKey → Result String
  pub marshal_certificate_to_pem : Option Certificate → Result String
  pub marshal_certificates_to_pem : List Certificate → Result String
  pub unmarshal_pem_to_public_key : String → Result PublicKey
  -- crypto/ecdsa: `pub.(*ecdsa.PublicKey)`, and a key's type as `%T` prints it
  pub EcdsaKey : Type 0
  pub as_ecdsa : PublicKey → Option EcdsaKey
  pub from_ecdsa : EcdsaKey → PublicKey
  pub type_name : PublicKey → String
  pub verify_asn1 : EcdsaKey → String → String → Bool
  -- regexp, base64, hex, sha256
  pub compile : String → Result (String → Bool)
  pub base64_decode : String → Result String
  pub base64_encode : String → String
  pub hex_decode : String → String
  pub hex_encode : String → String
  pub sha256 : String → String
  -- encoding/json, on the types that the program reads
  pub Spec : Type 0
  pub unmarshal_envelope : String → Result Envelope
  pub unmarshal_toto : String → Result Spec
  pub unmarshal_rekord : String → Result Spec
  pub unmarshal_hashedrekord : String → Result Spec
  pub marshal_spec : Spec → Result String
  pub unmarshal_intoto_v001 : String → Result IntotoObj
  pub unmarshal_rekord_v001 : String → Result RekordObj
  pub unmarshal_hashedrekord_v001 : String → Result RekordObj
  pub unmarshal_simple_container_image : String → Result SimpleContainerImage
  pub unmarshal_statement : String → Result Statement
  -- `json.Marshal` of a rekor payload (body, integrated time, log index, log id), then its
  -- canonical form
  pub marshal_rekor_payload : String → ℤ → ℤ → String → Result String
  pub canonicalize : String → Result String
  -- go-securesystemslib's DSSE verifier
  pub EnvelopeVerifier : Type 0
  pub new_envelope_verifier : Verifier → Result EnvelopeVerifier
  pub verify_envelope : EnvelopeVerifier → Envelope → Option Error
  -- rekor's generated client, and the RFC 6962 hasher and proof verifier of trillian
  pub RekorClient : Type 0
  pub search_log_query : RekorClient → List ProposedEntry → Result (List (Map LogEntry))
  pub get_log_entry_by_uuid : RekorClient → String → Result (Map LogEntry)
  pub get_public_key : RekorClient → Result String
  pub intoto_api_version : String
  pub hashedrekord_api_version : String
  pub hash_leaf : String → String
  pub verify_inclusion_proof : ℤ → ℤ → List String → String → String → Option Error
  -- the TUF client of pkg/cosign/tuf: the targets of a usage, or why there are none
  pub rekor_targets : Result (List TargetFile)
  pub ctfe_targets : Result (List TargetFile)
  -- certificate-transparency-go, and ctutil of cmd/cosign/cli/fulcio
  pub Sct : Type 0
  pub sct_log_id : Sct → String
  pub parse_scts : String → Result (List Sct)
  pub certificate_from_pem : String → Result Certificate
  pub certificates_from_pem : String → Result (List Certificate)
  pub AddChainResponse : Type 0
  pub unmarshal_add_chain_response : String → Result AddChainResponse
  pub to_signed_certificate_timestamp : AddChainResponse → Result Sct
  pub get_ct_log_id : PublicKey → Result String
  pub ctutil_verify_sct : PublicKey → List Certificate → Sct → Bool → Option Error
  -- the environment: variables ("" if unset) and files
  pub getenv : String → String
  pub read_file : String → Result String
