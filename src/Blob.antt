-- ===== src/Blob.antt =====
-- `cosign verify-blob`: cmd/cosign/cli/verify/verify_blob.go. The options, and what the command
-- calls of the key services, the TUF roots and the log's client.
pub mod Inputs
pub mod Rekor
pub mod Command
use cosign.Base.{String, Option, Bool, List, Error, Result}
use cosign.World.{World}
use cosign.Verify.{RekorBundle}
use cosign.Verify.Registry.{Loaded}

-- `sign.KeyOpts`, as far as it is read
pub record KeyOpts : Type 0 where
  pub key_ref : String
  pub sk : Bool
  pub slot : String
  pub bundle_path : String
  pub rekor_url : String

-- `cosign.LocalSignedPayload`
pub record LocalSignedPayload : Type 0 where
  pub base64_signature : String
  pub cert : String
  pub bundle : Option RekorBundle

-- The public key's content in an entry of the log, by the entry's type
pub data EntryKey : Type 0 where
  rekord_key : Result String → EntryKey
  hashedrekord_key : Result String → EntryKey
  other_entry : EntryKey

pub record Services (w : World) : Type 1 where
  pub is_experimental : Bool
  pub load_file_or_url : String → Loaded
  pub read_stdin : Result String
  pub unmarshal_local_payload : String → Result LocalSignedPayload
  -- keys: by reference, on a token, of a PEM text
  pub public_key_from_key_ref : String → Result w.Verifier
  pub Token : Type 0
  pub get_key_with_slot : String → Result Token
  pub token_verifier : Token → Result w.Verifier
  pub load_public_key_raw : String → Result w.Verifier
  pub public_key_pem : w.Verifier → Result String
  pub wrap_verifier : w.Verifier → w.Verifier
  -- cryptoutils
  pub unmarshal_certificates_from_pem : String → Result (List w.Certificate)
  pub load_certificates_from_pem : String → Result (List w.Certificate)
  -- fulcio's roots
  pub roots : List w.Certificate
  pub intermediates : List w.Certificate
  -- rekor
  pub new_client : String → Result w.RekorClient
  pub search_index : w.RekorClient → String → Result (List String)
  pub entry_key : String → Result EntryKey
