-- ===== src/Tests/Oci.antt =====
-- The results on signatures in a registry, at concrete inputs.
use cosign.Base.{
  String, Option, ◌<>◌, none, some, true, false, List, [], ◌∷◌, ◌++◌, ◌==◌, ◌&&◌, not, eq_iff,
}
use cosign.Base.{◌≡◌, ◌≢◌, refl, sym, ap, inl, inr, ◌⊎◌, arith, Bool, Bool-cases}
use cosign.Base.{Error, message, Result, ok, err, if◌then◌else◌}
use Prim.Native.Nat.{zero, suc}
use cosign.Base.Int.{ℤ, pos, negsuc}
use cosign.Base.Maps.{Map, lookup, IsMap}
use cosign.World.Models.{text}
use cosign.Verify.{RekorBundle}
use cosign.Oci.{
  sigkey, certkey, chainkey, bundlekey, Layer, Descriptor, OciSignature, Codec, Images,
}
use cosign.Oci.Mutation.{SignatureOpts, layer_signature, mutate_signature}
use cosign.Oci.Mutation.RoundTrip.{IsCodec, published_chain, mutate_signature-roundtrip}
use cosign.Oci.Signatures.{Signatures}
use cosign.Oci.Signatures.Contents.{Layers}
use cosign.Oci.Attach.{
  Signed, attach_signature_to_image, attach_signature_to_image_index, attach_attestation_to_image,
  attach_attestation_to_image_index,
}
use cosign.Oci.Attach.Twice.{with_detector, IsVerified, attach_signature-idempotent}
use cosign.Oci.Attach.Published.{Replaced, attach_attestation-replaces}
use cosign.Tests.Toy.{toy}

-- Only bundles of the first entry of the log, with one timestamp, have a text: that of the body.
bundle_of : String → RekorBundle
bundle_of body = record {
  signed_entry_timestamp = "set";
  payload = record { body = body; integrated_time = pos 0; log_index = pos 0; log_id = "" };
}

marshal_fields : String → String → ℤ → ℤ → String → Result String
marshal_fields set body (pos zero) (pos zero) id =
    if (set == "set") && ((id == "") && not (body == "")) then ok body else err (message "bundle")
marshal_fields set body (pos (suc t)) index id = err (message "bundle")
marshal_fields set body (negsuc t) index id = err (message "bundle")
marshal_fields set body (pos zero) (pos (suc i)) id = err (message "bundle")
marshal_fields set body (pos zero) (negsuc i) id = err (message "bundle")

marshal : RekorBundle → Result String
marshal b =
    marshal_fields b.signed_entry_timestamp b.payload.body b.payload.integrated_time
      b.payload.log_index b.payload.log_id

-- An attestation's payload is the name of its predicate's type.
abbrev codec : Codec toy
codec = record {
  load_certificates = λ pem. if pem == "" then ok [] else ok (pem ∷ []);
  marshal_bundle = marshal;
  unmarshal_bundle = λ t. ok (bundle_of t);
  unmarshal_map = λ s. ok (("payload", text s) ∷ ("predicateType", text s) ∷ []);
}

fields-back :
    (set body id t : String) (time index : ℤ)
    → marshal_fields set body time index id ≡ ok t
    → (t ≢ "")
      × (bundle_of t ≡ record {
        signed_entry_timestamp = set;
        payload = record { body = body; integrated_time = time; log_index = index; log_id = id };
      })
unfolding marshal_fields bundle_of
fields-back set body id t (pos zero) (pos zero) h =
    let yes : ((set == "set") && ((id == "") && not (body == ""))) ≡ true = ground arith in
    let is_set : set ≡ "set" = (eq_iff set "set").0 (ground arith) in
    let is_id : id ≡ "" = (eq_iff id "").0 (ground arith) in
    let e : body ≡ t = ground arith in
    rw (sym e, is_set, is_id) (λ x. ground (arith, eq_iff body ""), refl)
fields-back set body id t (pos (suc n)) index h = cc
fields-back set body id t (negsuc n) index h = cc
fields-back set body id t (pos zero) (pos (suc i)) h = cc
fields-back set body id t (pos zero) (negsuc i) h = cc

codec-IsCodec : IsCodec toy codec
unfolding marshal
codec-IsCodec = record {
  bundle_lem = λ b t m.
      let (n, e) =
        fields-back b.signed_entry_timestamp b.payload.body b.payload.log_id t
          b.payload.integrated_time b.payload.log_index m in
      (n, ap ok e);
  empty_lem = refl;
}

abbrev layer : Layer
layer = record {
  compressed = ok "payload";
  uncompressed = ok "payload";
  digest = ok "sha256:1";
  media_type = ok "simplesigning";
}

abbrev descriptor : Descriptor
descriptor = record {
  digest = "sha256:1";
  annotations = (sigkey, "payload") ∷ (chainkey, "root") ∷ [];
}

-- A certificate without a chain, a bundle, and annotations of the caller's.
abbrev options : SignatureOpts toy
options = record {
  annotations = some (("a", "b") ∷ []);
  bundle = some (bundle_of "body");
  cert = some "cert";
  chain = none;
  media_type = "";
}

abbrev changed_annotations : Map String
changed_annotations =
    ("a", "b") ∷ (sigkey, "payload") ∷ (bundlekey, "body") ∷ (certkey, "cert") ∷ []

abbrev changed : OciSignature toy
changed = record {
  signature = record {
    base64_signature = ok "payload";
    payload = ok "payload";
    cert = ok (some "cert");
    chain = ok ("root" ∷ []);
    bundle = ok (some (bundle_of "body"));
  };
  annotations = ok changed_annotations;
  layer = layer;
}

changes :
    mutate_signature toy codec (layer_signature toy codec layer descriptor) options ≡ ok changed
unfolding cosign.Base.Maps.lookup cosign.Base.Maps.insert cosign.Base.Maps.remove
    cosign.Oci.Mutation.text_at cosign.Oci.Mutation.layer_cert cosign.Oci.Mutation.layer_chain
    cosign.Oci.Mutation.layer_bundle cosign.Oci.Mutation.layer_signature
    cosign.Oci.Mutation.base_annotations cosign.Oci.Mutation.with_bundle
    cosign.Oci.Mutation.with_cert cosign.Oci.Mutation.wrapper cosign.Oci.Mutation.mutate_signature
    marshal marshal_fields bundle_of
changes = refl

mutate_signature-roundtrip_example :
    (layer_signature toy codec layer
      (record descriptor { annotations = changed_annotations })).signature
    ≡ record changed.signature {
      chain = published_chain toy codec (some "cert") none changed.signature.chain;
    }
mutate_signature-roundtrip_example =
    mutate_signature-roundtrip toy codec codec-IsCodec layer descriptor options "payload" changed
      changed_annotations (unfold lookup in refl) changes refl

-- An image is its layers.
abbrev images : Images toy
images = record {
  Image = List (OciSignature toy);
  File = String;
  empty_image = [];
  append = λ i l. ok (i ++ l);
}

has_appended : (i j adds : List (OciSignature toy)) → ok (i ++ adds) ≡ ok j → j ≡ i ++ adds
has_appended i j adds e = let f : i ++ adds ≡ j = ground arith in sym f

abbrev image_layers : Layers toy images
image_layers = record { layers = λ i. i; empty_lem = refl; append_lem = has_appended }

changed-IsMap : (ann : Map String) → changed.annotations ≡ ok ann → IsMap ann
unfolding lookup
changed-IsMap ann e =
    let f : changed_annotations ≡ ann = ground arith in
    rw (sym f) (refl, (refl, (refl, (refl, tt))))

changed-IsVerified : IsVerified toy images "key" changed
changed-IsVerified = (
  (
    (("sha256:1", refl, refl), ("simplesigning", refl, refl)),
    (changed_annotations, changed_annotations, refl, refl, λ key value n e. e),
    (
      "payload",
      "payload",
      "payload",
      refl,
      (λ e. absurd (ground (arith, eq_iff "payload" ""))),
      refl,
      refl,
      refl,
    ),
  ),
  changed-IsMap,
)

listed : List (OciSignature toy) → Signatures toy images
listed sigs = record { image = sigs; get = ok sigs }

image_with : List (OciSignature toy) → Signed toy images
image_with sigs = record {
  digest = ok "sha256:abc";
  signatures = ok (listed sigs);
  attestations = ok (listed sigs);
  attachment = λ name. err (message "no attachment");
}

attach_signature-idempotent_example :
    let si = image_with [] in
    let so = with_detector toy images "key" changed in
    let once = attach_signature_to_image toy images si changed so in
    let once_index = attach_signature_to_image_index toy images si changed so in
    ((attach_signature_to_image toy images once changed so).signatures ≡ once.signatures)
    × ((attach_signature_to_image_index toy images once_index changed so).signatures
        ≡ once_index.signatures)
attach_signature-idempotent_example =
    attach_signature-idempotent toy images "key" changed (image_with []) changed-IsVerified

-- Two attestations, the first of the type that is replaced.
abbrev other_type : OciSignature toy
other_type = record changed {
  signature = record changed.signature { payload = ok "other payload" };
}

abbrev attestation : OciSignature toy
attestation = record changed { annotations = ok [] }

attach_attestation-replaces_example :
    (new : List (OciSignature toy)) × Replaced toy images image_layers codec "payload" attestation
      (changed ∷ other_type ∷ [])
      new
    × (◌≡◌ {A = Result (List (OciSignature toy))} (ok (attestation ∷ other_type ∷ [])) (ok new))
    × ((changed ∷ other_type ∷ []) ≡ (changed ∷ other_type ∷ []))
    × (◌≡◌ {A = Result (List (OciSignature toy))}
        (ok (attestation ∷ other_type ∷ attestation ∷ other_type ∷ []))
        (ok (new ++ new)))
    × ((attestation ∷ other_type ∷ []) ≡ new)
unfolding cosign.Base.Maps.lookup cosign.Base.Maps.insert cosign.Base.Maps.remove
    cosign.Oci.Signatures.append_signatures cosign.Oci.Signatures.replace_signatures
    cosign.Oci.Signatures.predicate_type cosign.Oci.Signatures.is_uri
    cosign.Oci.Signatures.keep_others cosign.Oci.Signatures.replace_on cosign.Oci.Attach.redundant
    cosign.Oci.Attach.attached_signatures cosign.Oci.Attach.image_attestations
    cosign.Oci.Attach.index_attestations cosign.Oci.Attach.attached_file
    cosign.Oci.Attach.signed_image cosign.Oci.Attach.signed_image_index
    cosign.Oci.Attach.attach_signature_to_image cosign.Oci.Attach.attach_attestation_to_image
    cosign.Oci.Attach.attach_file_to_image cosign.Oci.Attach.attach_signature_to_image_index
    cosign.Oci.Attach.attach_attestation_to_image_index cosign.Oci.Attach.attach_file_to_image_index
    cosign.Oci.Attach.on_entity cosign.Oci.Attach.attach_signature_to_entity
    cosign.Oci.Attach.attach_attestation_to_entity cosign.Oci.Attach.attach_file_to_entity listed
    image_with
attach_attestation-replaces_example =
    attach_attestation-replaces toy images image_layers codec "payload"
      (image_with (changed ∷ other_type ∷ [])) attestation (listed (changed ∷ other_type ∷ []))
      (changed ∷ other_type ∷ [])
      (record { image = changed ∷ other_type ∷ []; get = ok (attestation ∷ other_type ∷ []) })
      (record {
        image = attestation ∷ other_type ∷ [];
        get = ok (attestation ∷ other_type ∷ attestation ∷ other_type ∷ []);
      })
      refl refl refl refl
