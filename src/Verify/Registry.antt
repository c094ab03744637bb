-- ===== src/Verify/Registry.antt =====
-- Where signatures come from, for the callers in pkg/cosign/verify.go: pkg/oci/remote,
-- pkg/oci/layout, pkg/oci/static and pkg/blob, as operations of `Registry`.
use cosign.Base.{String, Option, List, Error, Result}
use cosign.World.{World}
use cosign.Verify.{Signature}

-- `blob.LoadFileOrURL`: the bytes, an error for which `os.IsNotExist` holds, or another.
pub data Loaded : Type 0 where
  bytes : String → Loaded
  not_exist : Loaded
  failed : Error → Loaded

module _ (w : World) where
  -- `oci.SignedEntity`; the methods that give `oci.Signatures` are followed by `Get`.
  pub record SignedEntity : Type 0 where
    pub digest : Result String
    pub signatures : Result (Result (List (Signature w)))
    pub attestations : Result (Result (List (Signature w)))

  -- `layout.SignedImageIndex(path)`: an index and an image are nil or have a digest.
  pub record LocalIndex : Type 0 where
    pub signed_image_index : Result (Option (Result String))
    pub signed_image : Result (Option (Result String))
    pub signatures : Result (Result (List (Signature w)))
    pub attestations : Result (Result (List (Signature w)))

  pub record Registry : Type 0 where
    pub signed_entity : String → Result SignedEntity
    pub local_index : String → Result LocalIndex
    pub load_file_or_url : String → Loaded
    pub resolve_digest : String → Result String
    -- `(&sigPayload.Cosign{Image: digest}).MarshalJSON()`
    pub marshal_cosign_payload : String → Result String
    -- `static.NewSignature(payload, b64sig)`
    pub new_signature : String → String → Result (Signature w)
