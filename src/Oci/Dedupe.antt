-- ===== src/Oci/Dedupe.antt =====
-- The detector of duplicates that `cosign sign` and `cosign attest` use: `dd` of
-- pkg/cosign/remote/remote.go.
pub mod Finds
use cosign.Base.{String, Option, none, some, Bool, true, false, ◌||◌, ◌&&◌, List, [], ◌∷◌, ◌==◌}
use cosign.Base.{Error, Result, ok, err, ◌>>=◌, if◌then◌else◌}
use cosign.Base.Maps.{Map, lookup}
use cosign.World.{World}
use cosign.Oci.{sigkey, OciSignature, Images}
use cosign.Oci.Signatures.{Signatures}

-- `val, ok := m[key]; ok && val == value`
unfoldable pub holds : String → Option String → Bool
holds value none = false
holds value (some v) = v == value

-- Every new annotation but the signature is there.
unfoldable pub covers : Map String → Map String → Bool
covers existing [] = true
covers existing ((a, value) ∷ rest) =
    (a == sigkey || holds value (lookup a existing)) && covers existing rest

-- `if v, err := r; err != nil || v != value { continue }`
unfoldable pub returns : String → Result String → Bool
returns value (err e) = false
returns value (ok v) = v == value

module _ (w : World) where
  unfoldable pub accepted : Option Error → Result Bool
  accepted none = ok true
  accepted (some e) = ok false

  -- `r, err := newSig.Uncompressed()`, and then the verifier's answer, where there is a signature to
  -- verify: an error of the reader is returned, an error of the verifier is not.
  unfoldable pub verifies : w.Verifier → OciSignature w → Option String → Result Bool
  verifies verifier new_sig none = ok false
  verifies verifier new_sig (some uploaded_sig) = do
    r ← new_sig.layer.uncompressed
    accepted (w.verify_signature verifier uploaded_sig r)

  unfoldable pub decoded : Result String → Option String
  decoded (err e) = none
  decoded (ok raw) = some raw

  -- The bytes of the existing signature, unless it is missing, empty or no base64.
  unfoldable pub uploaded : Result String → Option String
  uploaded (err e) = none
  uploaded (ok existing) = if existing == "" then none else decoded (w.base64_decode existing)

  unfoldable pub annotated : Map String → Result (Map String) → Bool
  annotated new_annotations (err e) = false
  annotated new_annotations (ok existing) = covers existing new_annotations

  -- One turn of LayerLoop; false is `continue`.
  unfoldable pub is_duplicate :
      w.Verifier → OciSignature w → String → String → Map String → OciSignature w → Result Bool
  is_duplicate verifier new_sig digest media_type new_annotations sig =
      if annotated new_annotations sig.annotations
        && (returns digest sig.layer.digest && returns media_type sig.layer.media_type)
      then verifies verifier new_sig (uploaded sig.signature.base64_signature)
      else ok false

  unfoldable pub find_in :
      (OciSignature w → Result Bool) → List (OciSignature w) → Result (Option (OciSignature w))
  find_in duplicate [] = ok none
  find_in duplicate (sig ∷ sigs) =
      let rest = find_in duplicate sigs in
      do found ← duplicate sig; if found then ok (some sig) else rest

  -- `(*dd).Find`
  unfoldable pub find :
      (m : Images w)
      → w.Verifier
      → Signatures w m
      → OciSignature w
      → Result (Option (OciSignature w))
  find m verifier sig_image new_sig = do
    new_digest ← new_sig.layer.digest
    new_media_type ← new_sig.layer.media_type
    new_annotations ← new_sig.annotations
    sigs ← sig_image.get
    find_in (is_duplicate verifier new_sig new_digest new_media_type new_annotations) sigs
