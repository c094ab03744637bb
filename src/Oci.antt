-- ===== src/Oci.antt =====
-- Signatures in a registry: pkg/oci and pkg/cosign/remote. The types that the modules below share,
-- and what the program calls of go-containerregistry and of the codecs.
pub mod Mutation
pub mod Signatures
pub mod Dedupe
pub mod Attach
use cosign.Base.{String, Option, List, Error, Result}
use cosign.Base.Maps.{Map}
use cosign.World.{World}
use cosign.World.Models.{Value}
use cosign.Verify.{Signature, RekorBundle}

-- pkg/oci/static and pkg/oci/internal/signature
abbrev pub sigkey : String
sigkey = "dev.cosignproject.cosign/signature"

abbrev pub certkey : String
certkey = "dev.sigstore.cosign/certificate"

abbrev pub chainkey : String
chainkey = "dev.sigstore.cosign/chain"

abbrev pub bundlekey : String
bundlekey = "dev.sigstore.cosign/bundle"

-- `v1.Layer`, by what its methods return
pub record Layer : Type 0 where
  pub compressed : Result String
  pub uncompressed : Result String
  pub digest : Result String
  pub media_type : Result String

-- `v1.Descriptor`
pub record Descriptor : Type 0 where
  pub digest : String
  pub annotations : Map String

module _ (w : World) where
  -- `oci.Signature`: what it signs with, beside its methods as a layer.
  pub record OciSignature : Type 0 where
    pub signature : Signature w
    pub annotations : Result (Map String)
    pub layer : Layer

  -- The codecs: PEM certificates, and JSON.
  pub record Codec : Type 0 where
    pub load_certificates : String → Result (List w.Certificate)
    pub marshal_bundle : RekorBundle → Result String
    pub unmarshal_bundle : String → Result RekorBundle
    pub unmarshal_map : String → Result (Map Value)

  -- `v1.Image` with its layers and their annotations: `mutate.Append` and `empty.Image`.
  pub record Images : Type 1 where
    pub Image : Type 0
    pub File : Type 0
    pub empty_image : Image
    pub append : Image → List OciSignature → Result Image
