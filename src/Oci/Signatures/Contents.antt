-- ===== src/Oci/Signatures/Contents.antt =====
-- What a list of signatures shows and what is published of it.
use mathlib.Core.List.{Memᴰ}
use cosign.Base.{String, true, List, [], ◌∷◌, ◌++◌, eq_iff}
use cosign.Base.{◌≡◌, refl, sym, ap, ◌∙◌, inl, inr, ◌↔◌, arith, Bool-cases}
use cosign.Base.{ok, ◌>>=◌, >>=-eq-ok}
use cosign.World.{World}
use cosign.World.Models.{Value, null, text, other, object, array}
use cosign.Oci.{OciSignature, Codec, Images}
use cosign.Oci.Signatures.{
  Signatures, addenda, appended, append_signatures, replace_signatures, predicate_type, is_uri,
  keep_others,
}

module _ (w : World) (m : Images w) where
  addenda-ok : (sigs adds : List (OciSignature w)) → addenda w m sigs ≡ ok adds → adds ≡ sigs
  unfolding addenda
  addenda-ok [] adds h = ground arith
  addenda-ok (s ∷ ss) adds h =
      let (ann, e, h₁) = >>=-eq-ok s.annotations _ h in
      let (rest, r, h₂) = >>=-eq-ok (addenda w m ss) _ h₁ in
      let ih = addenda-ok ss rest r in
      let e : s ∷ rest ≡ adds = ground arith in sym e ∙ ap (λ l. s ∷ l) ih

  pub append_signatures-get :
      (base result : Signatures w m) (sigs : List (OciSignature w))
      → append_signatures w m base sigs ≡ ok result
      → result.get ≡ (base.get >>= (λ sl. ok (sl ++ sigs)))
  unfolding append_signatures appended
  append_signatures-get base result sigs h =
      let (adds, a, h₁) = >>=-eq-ok (addenda w m sigs) _ h in
      let (image, i, h₂) = >>=-eq-ok (m.append base.image adds) _ h₁ in
      let e : record { image = image; get = appended w m base sigs } ≡ result = ground arith in
      rw (sym e) refl

  module _ (c : Codec w) where
    -- The attestation's predicate is of this type.
    abbrev pub HasPredicate : String → OciSignature w → Type 0
    HasPredicate uri s = predicate_type w m c s ≡ ok (text uri)

    is_uri_iff : (uri : String) (v : Value) → (is_uri w m c uri v ≡ true) ↔ (v ≡ text uri)
    unfolding is_uri
    is_uri_iff uri (text s) =
        (λ h. ap text (sym ((eq_iff uri s).0 h)), λ h. (eq_iff uri s).1 (ground arith))
    is_uri_iff uri null = (λ h. cc, λ h. cc)
    is_uri_iff uri (other s) = (λ h. cc, λ h. cc)
    is_uri_iff uri (object s) = (λ h. cc, λ h. cc)
    is_uri_iff uri (array s) = (λ h. cc, λ h. cc)

    -- What is kept are the attestations whose predicate is of another type.
    pub keep_others-Memᴰ :
        (uri : String) (sigs kept : List (OciSignature w)) (s : OciSignature w)
        → keep_others w m c uri sigs ≡ ok kept
        → Memᴰ s kept ↔ (Memᴰ s sigs × ¬ HasPredicate uri s)
    unfolding keep_others
    keep_others-Memᴰ uri [] kept s h =
        let e : [] ≡ kept = ground arith in rw (sym e) (λ i. elim i [ ], λ (i, n). elim i [ ])
    keep_others-Memᴰ uri (x ∷ xs) kept s h =
        let (val, p, h₁) = >>=-eq-ok (predicate_type w m c x) _ h in
        let (rest, r, h₂) = >>=-eq-ok (keep_others w m c uri xs) _ h₁ in
        let (fwd, bwd) = keep_others-Memᴰ uri xs rest s r in
        let (is, from) = is_uri_iff uri val in
        elim (Bool-cases (is_uri w m c uri val)) [
          | inl y ↦
              let e : rest ≡ kept = ground arith in
              let x_is : HasPredicate uri x = p ∙ ap ok (is y) in
              rw (sym e) (
                (λ i. (Memᴰ.tail (fwd i).0, (fwd i).1)),
                (λ (i, n). elim i [
                  | Memᴰ.head q ↦ absurd (n (rw q x_is))
                  | Memᴰ.tail i' ↦ bwd (i', n)
                ]),
              )
          | inr n ↦
              let e : x ∷ rest ≡ kept = ground arith in
              let x_not : ¬ HasPredicate uri x = λ q. ground (arith, from (ground arith)) in
              rw (sym e) (
                (λ i. elim i [
                  | Memᴰ.head q ↦ (Memᴰ.head q, rw q x_not)
                  | Memᴰ.tail i' ↦ (Memᴰ.tail (fwd i').0, (fwd i').1)
                ]),
                (λ (i, n). elim i [
                  | Memᴰ.head q ↦ Memᴰ.head q
                  | Memᴰ.tail i' ↦ Memᴰ.tail (bwd (i', n))
                ]),
              )
        ]

  -- What go-containerregistry promises of `mutate.Append` and `empty.Image`: the layers that an
  -- image has.
  pub record Layers : Type 0 where
    pub layers : m.Image → List (OciSignature w)
    pub empty_lem : layers m.empty_image ≡ []
    pub append_lem :
        (i j : m.Image) (adds : List (OciSignature w))
        → m.append i adds ≡ ok j
        → layers j ≡ layers i ++ adds

  module _ (l : Layers) where
    -- The published image has the layers that `Get` shows.
    abbrev pub IsConsistent : Signatures w m → Type 0
    IsConsistent s = s.get ≡ ok (l.layers s.image)

    pub append_signatures-layers :
        (base result : Signatures w m) (sigs : List (OciSignature w))
        → append_signatures w m base sigs ≡ ok result
        → l.layers result.image ≡ l.layers base.image ++ sigs
    unfolding append_signatures
    append_signatures-layers base result sigs h =
        let (adds, a, h₁) = >>=-eq-ok (addenda w m sigs) _ h in
        let (image, i, h₂) = >>=-eq-ok (m.append base.image adds) _ h₁ in
        let has = l.append_lem base.image image adds i in
        let same = addenda-ok sigs adds a in
        let e : record { image = image; get = appended w m base sigs } ≡ result = ground arith in
        rw (sym e) (has ∙ ap (λ x. l.layers base.image ++ x) same)

    pub replace_signatures-ok :
        (base result : Signatures w m) (sigs : List (OciSignature w))
        → base.get ≡ ok sigs
        → replace_signatures w m base ≡ ok result
        → (l.layers result.image ≡ sigs) × (result.get ≡ ok (sigs ++ sigs))
    unfolding replace_signatures appended
    replace_signatures-ok base result sigs g h =
        let (sl, q, h₀) = >>=-eq-ok base.get _ h in
        let (adds, a, h₁) = >>=-eq-ok (addenda w m sl) _ h₀ in
        let (image, i, h₂) = >>=-eq-ok (m.append m.empty_image adds) _ h₁ in
        let has = l.append_lem m.empty_image image adds i in
        let same : sl ≡ sigs = ground arith in
        let e : record { image = image; get = appended w m base sl } ≡ result = ground arith in
        rw (sym e) (
          has ∙ ap (λ x. x ++ adds) l.empty_lem ∙ (addenda-ok sl adds a ∙ same),
          ap (λ r. r >>= (λ s. ok (s ++ sl))) g ∙ ap (λ x. ok (sigs ++ x)) same,
        )
