-- ===== src/Policy.antt =====
-- Cluster image policies, as a user writes them: pkg/apis/cosigned/v1alpha1, and as the admission
-- webhook reads them: pkg/cosign/kubernetes/webhook/clusterimagepolicy. A nil pointer is `none`; a
-- slice is `none` where the program tells a nil slice from an empty one. URLs are their texts.
pub mod Glob
pub mod Validation
pub mod Entries
pub mod Matching
pub mod Convert
use cosign.Base.{String, Option, List}
use cosign.Base.Maps.{Map}
use cosign.World.{World}
use cosign.Verify.{Identity}

pub record ImagePattern : Type 0 where
  pub glob : String
  pub regex : String

pub record SecretReference : Type 0 where
  pub name : String
  pub namespace : String

pub record Source : Type 0 where
  pub oci : String

pub record TLog : Type 0 where
  pub url : Option String

-- The types of the user's policy.
pub record KeyRef : Type 0 where
  pub secret_ref : Option SecretReference
  pub key_data : String
  pub kms : String

pub record KeylessRef : Type 0 where
  pub url : Option String
  pub identities : Option (List Identity)
  pub ca_cert : Option KeyRef

pub record Authority : Type 0 where
  pub key : Option KeyRef
  pub keyless : Option KeylessRef
  pub sources : List Source
  pub ctlog : Option TLog

pub record ClusterImagePolicySpec : Type 0 where
  pub images : List ImagePattern
  pub authorities : List Authority

-- The types of the webhook's policy: keys are parsed, and options of the registry client stand for
-- the sources.
module _ (w : World) where
  pub record WebhookKeyRef : Type 0 where
    pub key_data : String
    pub public_keys : List w.PublicKey

  pub record WebhookKeylessRef : Type 0 where
    pub url : Option String
    pub identities : Option (List Identity)
    pub ca_cert : Option WebhookKeyRef

  pub record WebhookAuthority : Type 0 where
    pub key : Option WebhookKeyRef
    pub keyless : Option WebhookKeylessRef
    pub sources : List Source
    pub ctlog : Option TLog
    -- the repositories of `remote.WithTargetRepository`
    pub remote_opts : List String

  pub record ClusterImagePolicy : Type 0 where
    pub images : List ImagePattern
    pub authorities : List WebhookAuthority
