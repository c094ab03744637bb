-- ===== src/Oci/Attach.antt =====
-- What is attached to an image or an index: pkg/oci/mutate/mutate.go, with the options of
-- pkg/oci/mutate/options.go.
pub mod Twice
pub mod Published
use cosign.Base.{String, ◌<>◌, Option, none, some, Bool, true, false, List, [], ◌∷◌, ◌==◌}
use cosign.Base.{Error, message, Result, ok, err, ◌>>=◌, if◌then◌else◌}
use cosign.Base.Maps.{Map, lookup}
use cosign.World.{World}
use cosign.Oci.{OciSignature, Images}
use cosign.Oci.Signatures.{Signatures, append_signatures, replace_signatures}

module _ (w : World) (m : Images w) where
  -- `signOpts`: the methods of the detector and of the replacing operation, nil or not.
  pub record SignOpts : Type 0 where
    pub dd : Option (Signatures w m → OciSignature w → Result (Option (OciSignature w)))
    pub ro : Option (Signatures w m → OciSignature w → Result (Signatures w m))

  -- What `oci.SignedImage` and `oci.SignedImageIndex` promise, and their digest.
  pub record Signed : Type 0 where
    pub digest : Result String
    pub signatures : Result (Signatures w m)
    pub attestations : Result (Signatures w m)
    pub attachment : String → Result m.File

  -- `oci.SignedEntity`, by its dynamic type; an entity of another type carries its name.
  pub data Entity : Type 0 where
    image : Signed → Entity
    image_index : Signed → Entity
    other_entity : String → Entity

  -- `signedImage` and `signedImageIndex`
  pub record Attached : Type 0 where
    pub base : Signed
    pub sig : Option (OciSignature w)
    pub att : Option (OciSignature w)
    pub so : SignOpts
    pub attachments : Map m.File

  -- `if si.so.dd != nil { … }`: whether the signature is redundant
  unfoldable pub redundant : SignOpts → Signatures w m → OciSignature w → Result Bool
  redundant so base sig = elim so.dd [
    | none ↦ ok false
    | some find ↦ do existing ← find base sig; elim existing [ none ↦ ok false | some s ↦ ok true ]
  ]

  -- Signatures of either type.
  unfoldable pub attached_signatures : Attached → Result (Signatures w m)
  attached_signatures si = do
    base ← si.base.signatures
    elim si.sig [
      | none ↦ ok base
      | some sig ↦ do
        skip ← redundant si.so base sig
        if skip then ok base else append_signatures w m base (sig ∷ [])
    ]

  -- Attestations, with what is done to the result of a replacing operation.
  attestations_with :
      (Signatures w m → Result (Signatures w m)) → Attached → Result (Signatures w m)
  attestations_with publish si = do
    base ← si.base.attestations
    elim si.att [
      | none ↦ ok base
      | some att ↦ do
        skip ← redundant si.so base att
        if skip then ok base else elim si.so.ro [
          | none ↦ append_signatures w m base (att ∷ [])
          | some replace ↦ do r ← replace base att; publish r
        ]
    ]

  -- `(*signedImage).Attestations`
  unfoldable pub image_attestations : Attached → Result (Signatures w m)
  unfolding attestations_with
  image_attestations = attestations_with (λ r. append_signatures w m r [])

  -- `(*signedImageIndex).Attestations`
  unfoldable pub index_attestations : Attached → Result (Signatures w m)
  unfolding attestations_with
  index_attestations = attestations_with (replace_signatures w m)

  -- Attachment of either type.
  unfoldable pub attached_file : Attached → String → Result m.File
  attached_file si name = elim (lookup name si.attachments) [
    | none ↦ err (message ("attachment \"" <> (name <> "\" not found")))
    | some f ↦ ok f
  ]

  unfoldable pub signed_image : Attached → Signed
  signed_image si = record {
    digest = si.base.digest;
    signatures = attached_signatures si;
    attestations = image_attestations si;
    attachment = attached_file si;
  }

  unfoldable pub signed_image_index : Attached → Signed
  signed_image_index si = record {
    digest = si.base.digest;
    signatures = attached_signatures si;
    attestations = index_attestations si;
    attachment = attached_file si;
  }

  with_signature : OciSignature w → SignOpts → Signed → Attached
  with_signature sig so si = record {
    base = si;
    sig = some sig;
    att = none;
    so = so;
    attachments = [];
  }

  with_attestation : OciSignature w → SignOpts → Signed → Attached
  with_attestation att so si = record {
    base = si;
    sig = none;
    att = some att;
    so = so;
    attachments = [];
  }

  with_file : String → m.File → SignOpts → Signed → Attached
  with_file name f so si = record {
    base = si;
    sig = none;
    att = none;
    so = so;
    attachments = (name, f) ∷ [];
  }

  unfoldable pub attach_signature_to_image : Signed → OciSignature w → SignOpts → Signed
  unfolding with_signature
  attach_signature_to_image si sig so = signed_image (with_signature sig so si)

  unfoldable pub attach_attestation_to_image : Signed → OciSignature w → SignOpts → Signed
  unfolding with_attestation
  attach_attestation_to_image si att so = signed_image (with_attestation att so si)

  unfoldable pub attach_file_to_image : Signed → String → m.File → SignOpts → Signed
  unfolding with_file
  attach_file_to_image si name f so = signed_image (with_file name f so si)

  unfoldable pub attach_signature_to_image_index : Signed → OciSignature w → SignOpts → Signed
  unfolding with_signature
  attach_signature_to_image_index sii sig so = signed_image_index (with_signature sig so sii)

  unfoldable pub attach_attestation_to_image_index : Signed → OciSignature w → SignOpts → Signed
  unfolding with_attestation
  attach_attestation_to_image_index sii att so = signed_image_index (with_attestation att so sii)

  unfoldable pub attach_file_to_image_index : Signed → String → m.File → SignOpts → Signed
  unfolding with_file
  attach_file_to_image_index sii name f so = signed_image_index (with_file name f so sii)

  -- The `switch` on the entity's type.
  unfoldable pub on_entity : (Signed → Signed) → (Signed → Signed) → Entity → Result Entity
  on_entity on_image on_index (image si) = ok (image (on_image si))
  on_entity on_image on_index (image_index sii) = ok (image_index (on_index sii))
  on_entity on_image on_index (other_entity name) = err (message ("unsupported type: " <> name))

  unfoldable pub attach_signature_to_entity : Entity → OciSignature w → SignOpts → Result Entity
  attach_signature_to_entity se sig so =
      on_entity (λ si. attach_signature_to_image si sig so)
        (λ sii. attach_signature_to_image_index sii sig so) se

  unfoldable pub attach_attestation_to_entity : Entity → OciSignature w → SignOpts → Result Entity
  attach_attestation_to_entity se att so =
      on_entity (λ si. attach_attestation_to_image si att so)
        (λ sii. attach_attestation_to_image_index sii att so) se

  unfoldable pub attach_file_to_entity : Entity → String → m.File → SignOpts → Result Entity
  attach_file_to_entity se name f so =
      on_entity (λ si. attach_file_to_image si name f so)
        (λ sii. attach_file_to_image_index sii name f so) se
