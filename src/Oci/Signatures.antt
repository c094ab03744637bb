-- ===== src/Oci/Signatures.antt =====
-- Lists of signatures: pkg/oci/mutate/signatures.go, and the replacing of attestations in
-- pkg/cosign/remote/remote.go.
pub mod Contents
use cosign.Base.{String, ◌<>◌, Option, none, some, Bool, true, false, List, [], ◌∷◌, ◌++◌, ◌==◌}
use cosign.Base.{Error, message, wrapped, Result, ok, err, wrap_result, ◌>>=◌, if◌then◌else◌}
use cosign.Base.Maps.{Map, lookup}
use cosign.World.{World}
use cosign.World.Models.{Value, text}
use cosign.Oci.{OciSignature, Codec, Images}

module _ (w : World) (m : Images w) where
  -- `oci.Signatures`: the image that is published, beside what `Get` returns.
  pub record Signatures : Type 0 where
    pub image : m.Image
    pub get : Result (List (OciSignature w))

  -- The annotations of each are read first.
  addenda : List (OciSignature w) → Result (List (OciSignature w))
  addenda [] = ok []
  addenda (s ∷ ss) = do ann ← s.annotations; rest ← addenda ss; ok (s ∷ rest)

  -- `sigAppender.Get`
  appended : Signatures → List (OciSignature w) → Result (List (OciSignature w))
  appended base sigs = do sl ← base.get; ok (sl ++ sigs)

  unfoldable pub append_signatures : Signatures → List (OciSignature w) → Result Signatures
  unfolding addenda appended
  append_signatures base sigs = do
    adds ← addenda sigs
    image ← m.append base.image adds
    ok (record { image = image; get = appended base sigs })

  unfoldable pub replace_signatures : Signatures → Result Signatures
  unfolding addenda appended
  replace_signatures base = do
    sigs ← base.get
    adds ← addenda sigs
    image ← m.append m.empty_image adds
    ok (record { image = image; get = appended base sigs })

  module _ (c : Codec w) where
    -- `val, ok := m[key]`, with the error of a missing key
    value_at : String → String → Map Value → Result Value
    value_at key context entries = elim (lookup key entries) [
      | none ↦ err (message ("could not find '" <> (key <> ("' in " <> context))))
      | some v ↦ ok v
    ]

    -- `val.(string)`, which panics for any other value
    as_text : Value → Result String
    as_text (text s) = ok s
    as_text _ = err (message "panic: interface conversion")

    unfoldable pub predicate_type : OciSignature w → Result Value
    unfolding value_at as_text
    predicate_type s = do
      p ← wrap_result "could not get payload" s.signature.payload
      entries ← wrap_result "unmarshal payload data" (c.unmarshal_map p)
      val ← value_at "payload" "payload data" entries
      encoded ← as_text val
      decoded ← wrap_result "could not decode 'payload'" (w.base64_decode encoded)
      fields ← wrap_result "unmarshal payloadData" (c.unmarshal_map decoded)
      value_at "predicateType" "payload data" fields

    -- `r.predicateURI == val`
    unfoldable pub is_uri : String → Value → Bool
    is_uri uri (text s) = uri == s
    is_uri uri _ = false

    -- The loop of Replace: those whose predicate type is another one.
    unfoldable pub keep_others : String → List (OciSignature w) → Result (List (OciSignature w))
    keep_others uri [] = ok []
    keep_others uri (s ∷ ss) = do
      val ← predicate_type s
      rest ← keep_others uri ss
      ok (if is_uri uri val then rest else s ∷ rest)

    -- `(*ro).Replace`: the new one first. The image stays that of the old signatures.
    unfoldable pub replace_on : String → Signatures → OciSignature w → Result Signatures
    replace_on uri base o = do
      sigs ← base.get
      rest ← keep_others uri sigs
      ok (record base { get = ok (o ∷ rest) })
