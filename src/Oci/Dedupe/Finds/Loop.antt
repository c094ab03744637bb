-- ===== src/Oci/Dedupe/Finds/Loop.antt =====
-- The loop of the detector, and what it finds.
use mathlib.Core.List.{Memᴰ}
use cosign.Base.{String, Option, none, some, Bool, true, false, ◌&&◌, List, [], ◌∷◌}
use cosign.Base.{◌≡◌, refl, sym, ap, ◌∙◌, inl, inr, arith, Bool-cases}
use cosign.Base.{Error, Result, ok, >>=-eq-ok, if◌then◌else◌}
use cosign.Base.Maps.{Map, IsMap}
use cosign.World.{World}
use cosign.Oci.{OciSignature, Images}
use cosign.Oci.Signatures.{Signatures}
use cosign.Oci.Dedupe.{
  returns, accepted, verifies, uploaded, annotated, is_duplicate, find_in, find,
}
use cosign.Oci.Dedupe.Finds.{
  IsDuplicate, verifies-AlsoSigns, AlsoSigns-verifies, annotated_iff, Found, Found-cons,
  returns_iff,
}

module _ (w : World) where
  module _ (verifier : w.Verifier) (new : OciSignature w) (d t : String) (ann : Map String) where
    -- What `find` reads of the new signature first.
    abbrev pub IsRead : Type 0
    IsRead = (new.layer.digest ≡ ok d) × (new.layer.media_type ≡ ok t) × (new.annotations ≡ ok ann)

    is_duplicate-IsDuplicate :
        (sig : OciSignature w)
        → IsMap ann
        → IsRead
        → is_duplicate w verifier new d t ann sig ≡ ok true
        → IsDuplicate w verifier new sig
    unfolding is_duplicate
    is_duplicate-IsDuplicate sig m (nd, nt, na) h =
        let l = returns_iff d sig.layer.digest in
        let k = returns_iff t sig.layer.media_type in
        let a = annotated_iff w ann sig.annotations m in
        let (x, e, c) = a.0 (ground arith) in
        (
          ((d, nd, l.0 (ground arith)), (t, nt, k.0 (ground arith))),
          (ann, x, na, e, c),
          verifies-AlsoSigns w verifier new sig _ refl (ground arith),
        )

    IsDuplicate-is_duplicate :
        (sig : OciSignature w)
        → IsMap ann
        → IsRead
        → IsDuplicate w verifier new sig
        → is_duplicate w verifier new d t ann sig ≡ ok true
    unfolding is_duplicate
    IsDuplicate-is_duplicate sig m (nd, nt, na)
          (((d', nd', sd), (t', nt', st)), (ann', x, na', e, c), s) =
        let d_eq : d' ≡ d = ground arith in
        let t_eq : t' ≡ t = ground arith in
        let ann_eq : ann' ≡ ann = ground arith in
        let l = (returns_iff d sig.layer.digest).1 (sd ∙ ap ok d_eq) in
        let k = (returns_iff t sig.layer.media_type).1 (st ∙ ap ok t_eq) in
        let a = (annotated_iff w ann sig.annotations m).1 (x, e, rw ann_eq at c) in
        rw (l, k, a) (AlsoSigns-verifies w verifier new sig s)

    find_in-Found :
        (sigs : List (OciSignature w)) (found : Option (OciSignature w))
        → IsMap ann
        → IsRead
        → find_in w (is_duplicate w verifier new d t ann) sigs ≡ ok found
        → Found w verifier new sigs found
    unfolding find_in
    find_in-Found [] none m r h = λ sig i. elim i [ ]
    find_in-Found [] (some sig) m r h = absurd (ground arith)
    find_in-Found (s ∷ sigs) found m r h =
        let (b, p, q) = >>=-eq-ok (is_duplicate w verifier new d t ann s) _ h in
        elim (Bool-cases b) [
          | inl y ↦
              let e : some s ≡ found = ground arith in
              rw (sym e) (Memᴰ.head refl, is_duplicate-IsDuplicate s m r (p ∙ ap ok y))
          | inr n ↦
              Found-cons w verifier new s sigs found
                (λ i. ground (arith, IsDuplicate-is_duplicate s m r i))
                (find_in-Found sigs found m r (ground arith))
        ]

  accepted-total : (o : Option Error) → (b : Bool) × (accepted w o ≡ ok b)
  unfolding accepted
  accepted-total none = (true, refl)
  accepted-total (some e) = (false, refl)

  -- Where the new signature's payload can be read, no turn of the loop ends in an error.
  verifies-total :
      (verifier : w.Verifier) (new : OciSignature w) (payload : String) (o : Option String)
      → new.layer.uncompressed ≡ ok payload
      → (b : Bool) × (verifies w verifier new o ≡ ok b)
  unfolding verifies
  verifies-total verifier new payload none u = (false, refl)
  verifies-total verifier new payload (some raw) u = rw u (accepted-total _)

  is_duplicate-total :
      (verifier : w.Verifier) (new : OciSignature w) (d t payload : String) (ann : Map String)
      (sig : OciSignature w)
      → new.layer.uncompressed ≡ ok payload
      → (b : Bool) × (is_duplicate w verifier new d t ann sig ≡ ok b)
  unfolding is_duplicate
  is_duplicate-total verifier new d t payload ann sig u =
      let (b, e) =
        verifies-total verifier new payload (uploaded w sig.signature.base64_signature) u in
      elim (Bool-cases (
        annotated w ann sig.annotations
        && (returns d sig.layer.digest && returns t sig.layer.media_type))) [
          | inl y ↦ rw y (b, e)
          | inr n ↦ rw n (false, refl)
        ]

  find_in-total :
      (duplicate : OciSignature w → Result Bool) (sigs : List (OciSignature w))
      → ((sig : OciSignature w) → (b : Bool) × (duplicate sig ≡ ok b))
      → (found : Option (OciSignature w)) × (find_in w duplicate sigs ≡ ok found)
  unfolding find_in
  find_in-total duplicate [] h = (none, refl)
  find_in-total duplicate (s ∷ sigs) h =
      let (b, e) = h s in
      let (found, rest) = find_in-total duplicate sigs h in rw (e, rest) (if_ok b (some s) found)
    where
      if_ok : {A : Type 0} (b : Bool) (x y : A) → (z : A) × ((if b then ok x else ok y) ≡ ok z)
      if_ok true x y = (x, refl)
      if_ok false x y = (y, refl)

  -- Where the detector returns without an error, the signatures could be listed, and what it found
  -- is one of them and a duplicate of the new signature; where it found nothing, none of them is.
  pub find-Found :
      (m : Images w) (verifier : w.Verifier) (base : Signatures w m) (new : OciSignature w)
      (found : Option (OciSignature w))
      → ((ann : Map String) → new.annotations ≡ ok ann → IsMap ann)
      → find w m verifier base new ≡ ok found
      → (sigs : List (OciSignature w)) × (base.get ≡ ok sigs) × Found w verifier new sigs found
  unfolding find
  find-Found m verifier base new found is_map h =
      let (d, nd, h₁) = >>=-eq-ok new.layer.digest _ h in
      let (t, nt, h₂) = >>=-eq-ok new.layer.media_type _ h₁ in
      let (ann, na, h₃) = >>=-eq-ok new.annotations _ h₂ in
      let (sigs, e, h₄) = >>=-eq-ok base.get _ h₃ in
      (sigs, e, find_in-Found verifier new d t ann sigs found (is_map ann na) (nd, nt, na) h₄)

  -- Where a duplicate is among the signatures, the detector finds one and returns no error.
  pub find-IsDuplicate :
      (m : Images w) (verifier : w.Verifier) (base : Signatures w m) (new : OciSignature w)
      (sigs : List (OciSignature w)) (sig : OciSignature w)
      → ((ann : Map String) → new.annotations ≡ ok ann → IsMap ann)
      → base.get ≡ ok sigs
      → Memᴰ sig sigs
      → IsDuplicate w verifier new sig
      → (found : OciSignature w) × (find w m verifier base new ≡ ok (some found))
  unfolding find
  find-IsDuplicate m verifier base new sigs sig is_map g i dup =
      let (((d, nd, sd), (t, nt, st)), (ann, x, na, q, c), s) = dup in
      let (text, raw, payload, b, n, dec, u, a) = s in
      let (o, e) =
        find_in-total (is_duplicate w verifier new d t ann) sigs
          (λ s. is_duplicate-total verifier new d t payload ann s u) in
      let f = find_in-Found verifier new d t ann sigs o (is_map ann na) (nd, nt, na) e in
      simp (nd, nt, na, g) (go o f e)
    where
      go :
          (o : Option (OciSignature w))
          → Found w verifier new sigs o
          → {r : Result (Option (OciSignature w))} → r ≡ ok o
          → (found : OciSignature w) × (r ≡ ok (some found))
      go none f e = absurd (f sig i dup)
      go (some s) f e = (s, e)
