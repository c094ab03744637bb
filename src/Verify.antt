-- ===== src/Verify.antt =====
-- Signature verification, pkg/cosign/verify.go: the options and signatures that its functions
-- take. The functions are in the modules below.
pub mod Cert
pub mod Bundle
pub mod Claims
pub mod Entry
pub mod Registry
pub mod Images
use cosign.Base.{ℕ, String, Option, List, Bool, Error, Result}
use cosign.Base.Int.{ℤ}
use cosign.Base.Maps.{Map}
use cosign.World.{World}
use cosign.World.Models.{Value}

-- pkg/cosign/bundle: `RekorPayload` and `RekorBundle`. The body is read as a string.
pub record RekorPayload : Type 0 where
  pub body : String
  pub integrated_time : ℤ
  pub log_index : ℤ
  pub log_id : String

pub record RekorBundle : Type 0 where
  pub signed_entry_timestamp : String
  pub payload : RekorPayload

-- v1alpha1's `Identity`
pub record Identity : Type 0 where
  pub issuer : String
  pub subject : String

-- `map[string]interface{}`, nil or not
abbrev pub Annotations : Type 0
Annotations = Option (Map Value)

module _ (w : World) where
  -- The interface `oci.Signature`, by what its methods return. A nil chain is an empty one, which
  -- the program does not tell apart.
  pub record Signature : Type 0 where
    pub base64_signature : Result String
    pub payload : Result String
    pub cert : Result (Option w.Certificate)
    pub chain : Result (List w.Certificate)
    pub bundle : Result (Option RekorBundle)

  -- `CheckOpts`, without the options of the registry client. A digest is given by its string.
  pub record CheckOpts : Type 0 where
    pub annotations : Annotations
    pub claim_verifier : Option (Signature → String → Annotations → Option Error)
    pub rekor_client : Option w.RekorClient
    pub sig_verifier : Option w.Verifier
    pub root_certs : Option (List w.Certificate)
    pub intermediate_certs : Option (List w.Certificate)
    pub cert_email : String
    pub cert_oidc_issuer : String
    pub enforce_sct : Bool
    pub signature_ref : String
    pub identities : List Identity
