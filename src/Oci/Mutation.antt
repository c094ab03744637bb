-- ===== src/Oci/Mutation.antt =====
-- A signature as a layer of an image: pkg/oci/internal/signature/layer.go, and its changed copies,
-- pkg/oci/mutate/signature.go with the options of pkg/oci/mutate/options.go.
pub mod RoundTrip
use cosign.Base.{String, ◌<>◌, Option, none, some, Bool, true, false, List, [], ◌∷◌, ◌==◌}
use cosign.Base.{Error, message, Result, ok, err, wrap_result, ◌>>=◌, if◌then◌else◌}
use cosign.Base.Maps.{Map, lookup, insert, remove}
use cosign.World.{World}
use cosign.Verify.{Signature, RekorBundle}
use cosign.Oci.{sigkey, certkey, chainkey, bundlekey, Layer, Descriptor, OciSignature, Codec}

-- `m[key]`, which is empty for a missing key
abbrev or_empty : Option String → String
or_empty none = ""
or_empty (some v) = v

unfoldable pub text_at : String → Map String → String
text_at key m = or_empty (lookup key m)

-- `newAnn[key] = val`, or `delete(newAnn, key)` where there is no value
abbrev kept : Option String → String → Map String → Map String
kept none = remove
kept (some v) = λ key. insert key v

-- `signatureOpts`; nil and empty bytes are told apart.
module _ (w : World) where
  pub record SignatureOpts : Type 0 where
    pub annotations : Option (Map String)
    pub bundle : Option RekorBundle
    pub cert : Option String
    pub chain : Option String
    pub media_type : String

  module _ (c : Codec w) where
    -- `certs[0]`, which panics where there is none
    first_cert : List w.Certificate → Result w.Certificate
    first_cert [] = err (message "panic: index out of range")
    first_cert (cert ∷ certs) = ok cert

    unfoldable pub layer_cert : String → Result (Option w.Certificate)
    unfolding first_cert
    layer_cert pem =
        if pem == ""
        then ok none
        else do certs ← c.load_certificates pem; cert ← first_cert certs; ok (some cert)

    unfoldable pub layer_chain : String → Result (List w.Certificate)
    layer_chain pem = if pem == "" then ok [] else c.load_certificates pem

    unfoldable pub layer_bundle : String → Result (Option RekorBundle)
    layer_bundle text =
        if text == ""
        then ok none
        else do b ← wrap_result "unmarshaling bundle" (c.unmarshal_bundle text); ok (some b)

    layer_base64 : String → Option String → Result String
    layer_base64 digest none =
        err (message ("signature layer " <> (digest <> " is missing its signature annotation")))
    layer_base64 digest (some s) = ok s

    -- `signature.New`: the layer, with what its annotations say.
    unfoldable pub layer_signature : Layer → Descriptor → OciSignature w
    unfolding layer_base64
    layer_signature l d = record {
      signature = record {
        base64_signature = layer_base64 d.digest (lookup sigkey d.annotations);
        payload = l.compressed;
        cert = layer_cert (text_at certkey d.annotations);
        chain = layer_chain (text_at chainkey d.annotations);
        bundle = layer_bundle (text_at bundlekey d.annotations);
      };
      annotations = ok d.annotations;
      layer = l;
    }

    -- The annotations before the bundle and the certificates: those that are asked for, with the
    -- signature's own, or the old ones.
    unfoldable pub base_annotations : Option (Map String) → Map String → Map String
    base_annotations none old = old
    base_annotations (some ann) old = kept (lookup chainkey old) chainkey (
        kept (lookup certkey old) certkey
          (kept (lookup bundlekey old) bundlekey (insert sigkey (text_at sigkey old) ann)))

    unfoldable pub with_bundle : Option RekorBundle → Map String → Result (Map String)
    with_bundle none ann = ok ann
    with_bundle (some b) ann = do text ← c.marshal_bundle b; ok (insert bundlekey text ann)

    -- The annotations, the certificate and the chain; the latter two are nil if not asked for.
    abbrev pub Certified : Type 0
    Certified = Map String × Option w.Certificate × Option (List w.Certificate)

    with_chain : Option String → w.Certificate → Map String → Result Certified
    with_chain none cert ann = ok (ann, some cert, none)
    with_chain (some pem) cert ann = do
      chain ← c.load_certificates pem
      ok (insert chainkey pem ann, some cert, some chain)

    unfoldable pub with_cert : Option String → Option String → Map String → Result Certified
    unfolding first_cert with_chain
    with_cert none chain ann = ok (ann, none, none)
    with_cert (some pem) chain ann = do
      certs ← c.load_certificates pem
      cert ← first_cert certs
      with_chain chain cert (remove chainkey (insert certkey pem ann))

    -- `sigWrapper`: what is set overrides the wrapped signature.
    or_wrapped {ℓ} : {A : Type ℓ} → Option A → Result A → Result A
    or_wrapped none r = r
    or_wrapped (some a) r = ok a

    or_wrapped_option {ℓ} : {A : Type ℓ} → Option A → Result (Option A) → Result (Option A)
    or_wrapped_option none r = r
    or_wrapped_option (some a) r = ok (some a)

    unfoldable pub wrapper :
        OciSignature w → Option RekorBundle → String → Certified → OciSignature w
    unfolding or_wrapped or_wrapped_option
    wrapper original bundle media_type (ann, cert, chain) = record {
      signature = record {
        base64_signature = original.signature.base64_signature;
        payload = original.signature.payload;
        cert = or_wrapped_option cert original.signature.cert;
        chain = or_wrapped chain original.signature.chain;
        bundle = or_wrapped_option bundle original.signature.bundle;
      };
      annotations = ok ann;
      layer = record original.layer {
        media_type = if media_type == "" then original.layer.media_type else ok media_type;
      };
    }

    -- `mutate.Signature`
    unfoldable pub mutate_signature : OciSignature w → SignatureOpts → Result (OciSignature w)
    mutate_signature original so = do
      old ← wrap_result "could not get annotations from signature to mutate" original.annotations
      ann ← with_bundle so.bundle (base_annotations so.annotations old)
      certified ← with_cert so.cert so.chain ann
      ok (wrapper original so.bundle so.media_type certified)
