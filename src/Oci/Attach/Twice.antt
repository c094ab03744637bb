-- ===== src/Oci/Attach/Twice.antt =====
-- Attaching a signature that is there already.
use mathlib.Core.List.{Memᴰ}
use cosign.Base.{String, Option, none, some, true, false, List, [], ◌∷◌, ◌++◌}
use cosign.Base.{◌≡◌, refl, sym, ap, ◌∙◌, arith}
use cosign.Base.{Result, ok, err, ◌>>=◌, >>=-eq-ok, if◌then◌else◌}
use cosign.Base.Maps.{Map, IsMap}
use cosign.World.{World}
use cosign.Oci.{OciSignature, Images}
use cosign.Oci.Signatures.{Signatures, append_signatures}
use cosign.Oci.Signatures.Contents.{append_signatures-get}
use cosign.Oci.Dedupe.{find}
use cosign.Oci.Dedupe.Finds.{IsDuplicate}
use cosign.Oci.Dedupe.Finds.Loop.{find-Found, find-IsDuplicate}
use cosign.Oci.Attach.{
  SignOpts, Signed, Attached, redundant, attached_signatures, signed_image, signed_image_index,
  with_signature, attach_signature_to_image, attach_signature_to_image_index,
}

Memᴰ-++ : {A : Type 0} (xs ys : List A) (x : A) → Memᴰ x ys → Memᴰ x (xs ++ ys)
Memᴰ-++ [] ys x i = i
Memᴰ-++ (y ∷ xs) ys x i = Memᴰ.tail (Memᴰ-++ xs ys x i)

module _ (w : World) (m : Images w) (verifier : w.Verifier) (sig : OciSignature w) where
  -- The options of `cosign sign`, with its detector of duplicates.
  abbrev pub with_detector : SignOpts w m
  with_detector = record { dd = some (find w m verifier); ro = none }

  -- The signature can be read, and it verifies, so that it is a duplicate of itself.
  abbrev pub IsVerified : Type 0
  IsVerified =
      IsDuplicate w verifier sig sig × ((ann : Map String) → sig.annotations ≡ ok ann → IsMap ann)

  -- A list of signatures that has it.
  abbrev Has : Signatures w m → Type 0
  Has s =
      (sigs : List (OciSignature w)) × (t : OciSignature w) × (s.get ≡ ok sigs)
      × Memᴰ t sigs
      × IsDuplicate w verifier sig t

  Has-redundant :
      (s : Signatures w m) → IsVerified → Has s → redundant w m with_detector s sig ≡ ok true
  unfolding redundant
  Has-redundant s (dup, is_map) (sigs, t, g, i, d) =
      let (found, e) = find-IsDuplicate w m verifier s sig sigs t is_map g i d in rw e refl

  append-Has :
      (base s : Signatures w m) (sigs : List (OciSignature w))
      → base.get ≡ ok sigs
      → IsDuplicate w verifier sig sig
      → append_signatures w m base (sig ∷ []) ≡ ok s
      → Has s
  append-Has base s sigs g dup h =
      let e : s.get ≡ ok (sigs ++ (sig ∷ [])) =
        append_signatures-get w m base s (sig ∷ []) h
        ∙ ap (λ r. r >>= (λ sl. ok (sl ++ (sig ∷ [])))) g in
      (sigs ++ (sig ∷ []), sig, e, Memᴰ-++ sigs (sig ∷ []) sig (Memᴰ.head refl), dup)

  -- What the detector found decides, whether the base is returned or the signature is appended.
  found-Has :
      (base s : Signatures w m) (found : Option (OciSignature w))
      → IsVerified
      → find w m verifier base sig ≡ ok found
      → (do
        skip ← elim found [ none ↦ ok false | some t ↦ ok true ]
        if skip then ok base else append_signatures w m base (sig ∷ []))
        ≡ ok s
      → Has s
  found-Has base s none (dup, is_map) f h =
      let (sigs, g, is) = find-Found w m verifier base sig none is_map f in
      append-Has base s sigs g dup h
  found-Has base s (some t) (dup, is_map) f h =
      let (sigs, g, (i, d)) = find-Found w m verifier base sig (some t) is_map f in
      let e : base ≡ s = ground arith in rw (sym e) (sigs, t, g, i, d)

  first : Signed w m → Attached w m
  first si = with_signature w m sig with_detector si

  first-Has :
      (si : Signed w m) (s : Signatures w m)
      → IsVerified
      → attached_signatures w m (first si) ≡ ok s
      → Has s
  unfolding attached_signatures redundant first with_signature
  first-Has si s v h =
      let (base, b, h₁) = >>=-eq-ok si.signatures _ h in
      let (skip, r, h₂) = >>=-eq-ok (redundant w m with_detector base sig) _ h₁ in
      let (found, f, r₁) = >>=-eq-ok (find w m verifier base sig) _ r in
      found-Has base s found v f (
        ap (λ q. q >>= (λ x. if x then ok base else append_signatures w m base (sig ∷ []))) r₁ ∙ h₂)

  second :
      (si : Signed w m)
      → IsVerified
      → (r : Result (Signatures w m)) → si.signatures ≡ r
      → ((s : Signatures w m) → r ≡ ok s → Has s)
      → attached_signatures w m (first si) ≡ r
  unfolding attached_signatures first with_signature
  second si v (err e) p h = rw p refl
  second si v (ok s) p h = rw (p, Has-redundant s v (h s refl)) refl

  -- Attaching a signature to an image a second time, with the detector of duplicates of a verifier
  -- that accepts it, leaves the image's signatures as they are: the same list, the same image to
  -- publish, and the same error if there was one. The same is true of an index.
  pub attach_signature-idempotent :
      (si : Signed w m)
      → IsVerified
      → let so = with_detector in
        let once = attach_signature_to_image w m si sig so in
        let once_index = attach_signature_to_image_index w m si sig so in
        ((attach_signature_to_image w m once sig so).signatures ≡ once.signatures)
        × ((attach_signature_to_image_index w m once_index sig so).signatures
            ≡ once_index.signatures)
  unfolding attach_signature_to_image attach_signature_to_image_index signed_image
      signed_image_index first
  attach_signature-idempotent si v = (
    second (signed_image w m (first si)) v _ refl (λ s. first-Has si s v),
    second (signed_image_index w m (first si)) v _ refl (λ s. first-Has si s v),
  )
