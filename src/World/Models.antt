-- ===== src/World/Models.antt =====
-- The plain values that libraries hand to the program: X.509 extensions, DSSE envelopes, rekor's
-- log entries (github.com/sigstore/rekor/pkg/generated/models), simple signing and in-toto
-- payloads. A pointer that the program dereferences with no test is the value it points to.
use cosign.Base.{ℕ, String, Option, List}
use cosign.Base.Int.{ℤ}
use cosign.Base.Maps.{Map}

pub record Extension : Type 0 where
  pub id : List ℕ
  pub value : String

pub data ExtKeyUsage : Type 0 where
  any_usage server_auth client_auth code_signing : ExtKeyUsage

-- `cert.Verify` returns at least one chain where it returns no error.
pub record Chains (C : Type 0) : Type 0 where
  pub first : List C
  pub others : List (List C)

pub record Envelope : Type 0 where
  pub payload_type : String
  pub payload : String

-- `RekordV001Schema` and `HashedrekordV001Schema`
pub record RekordObj : Type 0 where
  pub hash_algorithm : String
  pub hash_value : String
  pub signature_content : String

pub record IntotoObj : Type 0 where
  pub hash_algorithm : String
  pub hash_value : String

pub record InclusionProof : Type 0 where
  pub log_index : ℤ
  pub tree_size : ℤ
  pub root_hash : String
  pub hashes : List String

pub record Verification : Type 0 where
  pub signed_entry_timestamp : String
  pub inclusion_proof : Option InclusionProof

pub record LogEntry : Type 0 where
  pub body : String
  pub integrated_time : ℤ
  pub log_index : ℤ
  pub log_id : String
  pub verification : Option Verification

pub data ProposedEntry : Type 0 where
  -- API version, envelope, public key
  intoto : String → String → String → ProposedEntry
  -- API version, hash algorithm and value, signature, public key
  hashedrekord : String → String → String → String → String → ProposedEntry

-- pkg/cosign/tuf/status_type.go
pub data StatusKind : Type 0 where
  unknown_status active expired : StatusKind

pub record TargetFile : Type 0 where
  pub target : String
  pub status : StatusKind

-- A value of `map[string]interface{}`: nil, a string, a Boolean or number by its text, or an object
-- or array by its text, which Go cannot compare.
pub data Value : Type 0 where
  null : Value
  text : String → Value
  other : String → Value
  object : String → Value
  array : String → Value

-- sigstore's `payload.SimpleContainerImage`: the critical part's digest, and the optional part.
pub record SimpleContainerImage : Type 0 where
  pub docker_manifest_digest : String
  pub optional : Map Value

-- in-toto's `Statement`: the digests of each subject.
pub record Statement : Type 0 where
  pub subject : List (Map String)
