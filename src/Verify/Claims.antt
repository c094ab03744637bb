-- ===== src/Verify/Claims.antt =====
-- Claim verifiers: pkg/cosign/verifiers.go, and correctAnnotations of pkg/cosign/verify.go.
pub mod Accepts
use cosign.Base.{String, ◌<>◌, Option, none, some, Bool, true, false, List, [], ◌∷◌, ◌==◌}
use cosign.Base.{Error, message, Result, ok, err, error_of, ◌>>=◌, ◌>>◌, if◌then◌else◌}
use cosign.Base.Maps.{Map, lookup}
use cosign.World.{World}
use cosign.World.Models.{Value, null, text, other, object, array, SimpleContainerImage, Statement}
use cosign.Verify.{Signature, Annotations}

-- `have[k]`: nil for a missing key.
abbrev pub or_nil : Option Value → Value
or_nil none = null
or_nil (some v) = v

abbrev pub uncomparable : Result Bool
uncomparable = err (message "panic: comparing uncomparable type")

-- `a == b` of two interfaces: two objects or two arrays panic.
unfoldable pub value_is : Value → Value → Result Bool
value_is null null = ok true
value_is (text a) (text b) = ok (a == b)
value_is (other a) (other b) = ok (a == b)
value_is (object a) (object b) = uncomparable
value_is (array a) (array b) = uncomparable
value_is _ _ = ok false

-- The range over what is wanted, in the order of the list.
unfoldable pub correct_annotations : Map Value → Map Value → Result Bool
unfolding value_is
correct_annotations [] have = ok true
correct_annotations ((k, v) ∷ wanted) have =
    let rest = correct_annotations wanted have in
    do same ← value_is (or_nil (lookup k have)) v; if same then rest else ok false

abbrev annotation_outcome : Result Bool → Option Error
annotation_outcome (ok true) = none
annotation_outcome (ok false) = some (message "missing or incorrect annotation")
annotation_outcome (err e) = some e

unfoldable pub annotations_error : Annotations → Map Value → Option Error
annotations_error none have = none
annotations_error (some wanted) have = annotation_outcome (correct_annotations wanted have)

module _ (w : World) where
  unfoldable pub simple_payload : Signature w → Result SimpleContainerImage
  simple_payload sig = do p ← sig.payload; w.unmarshal_simple_container_image p

  unfoldable pub simple_claim_verifier : Signature w → String → Annotations → Option Error
  unfolding simple_payload annotations_error
  simple_claim_verifier sig digest annotations = elim (simple_payload sig) [
    | err e ↦ some e
    | ok ss ↦
        if ss.docker_manifest_digest == digest
        then annotations_error annotations ss.optional
        else some (message ("invalid or missing digest in claim: " <> ss.docker_manifest_digest))
  ]

  -- The loop over the subjects; one with no sha256 digest is passed over.
  unfoldable pub match_subject : List (Map String) → String → Option Error
  match_subject [] digest = some (message "no matching subject digest found")
  match_subject (s ∷ subjects) digest =
      let rest = match_subject subjects digest in
      elim (lookup "sha256" s) [
        | none ↦ rest
        | some found ↦ if ("sha256:" <> found) == digest then none else rest
      ]

  unfoldable pub statement_of : Signature w → Result Statement
  statement_of sig = do
    p ← sig.payload
    e ← w.unmarshal_envelope p
    bytes ← w.base64_decode e.payload
    w.unmarshal_statement bytes

  unfoldable pub intoto_subject_claim_verifier : Signature w → String → Annotations → Option Error
  unfolding statement_of
  intoto_subject_claim_verifier sig digest annotations = elim (statement_of sig) [
    | err e ↦ some e
    | ok st ↦ match_subject st.subject digest
  ]
