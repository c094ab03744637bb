-- ===== src/Oci/Attach/Published.antt =====
-- What is published of an image or an index after an attestation is attached to it.
use mathlib.Core.List.{Memᴰ, append-nil}
use cosign.Base.{String, none, some, List, [], ◌∷◌, ◌++◌}
use cosign.Base.{◌≡◌, refl, sym, ap, ◌∙◌, arith, ◌↔◌, ◌⊎◌, inl, inr}
use cosign.Base.{ok, ◌>>=◌, >>=-eq-ok}
use cosign.World.{World}
use cosign.Oci.{OciSignature, Codec, Images}
use cosign.Oci.Signatures.{
  Signatures, append_signatures, replace_signatures, keep_others, replace_on,
}
use cosign.Oci.Signatures.Contents.{
  Layers, IsConsistent, append_signatures-get, append_signatures-layers, replace_signatures-ok,
  HasPredicate, keep_others-Memᴰ,
}
use cosign.Oci.Attach.{
  SignOpts, Signed, redundant, attestations_with, image_attestations, index_attestations,
  signed_image, signed_image_index, with_attestation, attach_attestation_to_image,
  attach_attestation_to_image_index,
}

module _ (w : World) (m : Images w) (l : Layers w m) where
  abbrev plain : SignOpts w m
  plain = record { dd = none; ro = none }

  -- Without options, an attestation that is attached is the last of those that are published, and
  -- what is listed is what is published, for an image and for an index.
  pub attach_attestation-appends :
      (si : Signed w m) (att : OciSignature w) (base : Signatures w m)
      → si.attestations ≡ ok base
      → IsConsistent w m l base
      → (s : Signatures w m)
      → ((attach_attestation_to_image w m si att plain).attestations ≡ ok s)
        ⊎ ((attach_attestation_to_image_index w m si att plain).attestations ≡ ok s)
      → (l.layers s.image ≡ l.layers base.image ++ (att ∷ [])) × IsConsistent w m l s
  unfolding attach_attestation_to_image attach_attestation_to_image_index signed_image
      signed_image_index with_attestation image_attestations index_attestations attestations_with
      redundant
  attach_attestation-appends si att base b c s h =
      let a : append_signatures w m base (att ∷ []) ≡ ok s = elim h [
        | inl x ↦ rw b at x
        | inr x ↦ rw b at x
      ] in
      let has = append_signatures-layers w m l base s (att ∷ []) a in
      (
        has,
        append_signatures-get w m base s (att ∷ []) a
            ∙ ap (λ r. r >>= (λ sl. ok (sl ++ (att ∷ [])))) c
            ∙ ap ok (sym has),
      )

  module _ (c : Codec w) (uri : String) where
    -- The options of `cosign attest --replace`.
    abbrev pub with_replace : SignOpts w m
    with_replace = record { dd = none; ro = some (replace_on w m c uri) }

    -- The attestations after a replacement: the new one, and the old ones of another type.
    abbrev pub Replaced : OciSignature w → List (OciSignature w) → List (OciSignature w) → Type 0
    Replaced att old new =
        (kept : List (OciSignature w)) × (new ≡ att ∷ kept)
        × ((s : OciSignature w) → Memᴰ s kept ↔ (Memᴰ s old × ¬ HasPredicate w m c uri s))

    replace_on-Replaced :
        (base r : Signatures w m) (att : OciSignature w) (old : List (OciSignature w))
        → base.get ≡ ok old
        → replace_on w m c uri base att ≡ ok r
        → (new : List (OciSignature w)) × (r.get ≡ ok new)
          × Replaced att old new
          × (r.image ≡ base.image)
    unfolding replace_on
    replace_on-Replaced base r att old g h =
        let (sigs, q, h₁) = >>=-eq-ok base.get _ h in
        let (kept, k, h₂) = >>=-eq-ok (keep_others w m c uri sigs) _ h₁ in
        let same : sigs ≡ old = ground arith in
        let e : record base { get = ok (att ∷ kept) } ≡ r = ground arith in
        rw (sym e) (
          (att ∷ kept),
          refl,
          (kept, refl, (λ s. let i = keep_others-Memᴰ w m c uri sigs kept s k in rw same at i)),
          refl,
        )

    -- Where an attestation replaces those of its type, an image lists it and the ones that are
    -- kept, but what is published has the old layers only; an index publishes the new attestation
    -- and those that are kept, and lists them twice.
    pub attach_attestation-replaces :
        (si : Signed w m) (att : OciSignature w) (base : Signatures w m)
        (old : List (OciSignature w)) (s t : Signatures w m)
        → si.attestations ≡ ok base
        → base.get ≡ ok old
        → (attach_attestation_to_image w m si att with_replace).attestations ≡ ok s
        → (attach_attestation_to_image_index w m si att with_replace).attestations ≡ ok t
        → (new : List (OciSignature w)) × Replaced att old new
          × (s.get ≡ ok new)
          × (l.layers s.image ≡ l.layers base.image)
          × (t.get ≡ ok (new ++ new))
          × (l.layers t.image ≡ new)
    unfolding attach_attestation_to_image attach_attestation_to_image_index signed_image
        signed_image_index with_attestation image_attestations index_attestations attestations_with
        redundant
    attach_attestation-replaces si att base old s t b g p q =
        let p₁ : (replace_on w m c uri base att >>= (λ r. append_signatures w m r [])) ≡ ok s =
          rw b at p in
        let q₁ : (replace_on w m c uri base att >>= replace_signatures w m) ≡ ok t = rw b at q in
        let (r, e, p₂) = >>=-eq-ok (replace_on w m c uri base att) _ p₁ in
        let q₂ : replace_signatures w m r ≡ ok t =
          ap (λ x. x >>= replace_signatures w m) (sym e) ∙ q₁ in
        let (new, n, is, image) = replace_on-Replaced base r att old g e in
        let (published, listed) = replace_signatures-ok w m l r t new n q₂ in
        (
          new,
          is,
          append_signatures-get w m r s [] p₂
              ∙ ap (λ x. x >>= (λ sl. ok (sl ++ []))) n
              ∙ ap ok (append-nil new),
          append_signatures-layers w m l r s [] p₂ ∙ append-nil _ ∙ ap l.layers image,
          listed,
          published,
        )
