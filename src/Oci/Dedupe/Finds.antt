-- ===== src/Oci/Dedupe/Finds.antt =====
-- What the detector of duplicates finds, against a description of a duplicate.
pub mod Loop
use mathlib.Core.List.{Memᴰ}
use cosign.Base.{String, Option, none, some, Bool, true, false, ◌&&◌, List, [], ◌∷◌, ◌==◌, eq_iff}
use cosign.Base.{◌≡◌, ◌≢◌, refl, sym, ap, ◌∙◌, inl, inr, ◌↔◌, arith, Bool-cases}
use cosign.Base.{Error, Result, ok, err, >>=-eq-ok, if◌then◌else◌}
use cosign.Base.Maps.{Map, lookup, IsMap}
use cosign.World.{World}
use cosign.Oci.{sigkey, OciSignature, Images}
use cosign.Oci.Signatures.{Signatures}
use cosign.Oci.Dedupe.{
  holds, covers, returns, accepted, verifies, decoded, uploaded, annotated, is_duplicate, find_in,
  find,
}

-- The annotations of the first map, but for the signature's, are in the second.
abbrev pub IsCovered : Map String → Map String → Type 0
IsCovered existing new =
    (key value : String)
    → key ≢ sigkey
    → lookup key new ≡ some value
    → lookup key existing ≡ some value

holds_iff : (value : String) (o : Option String) → (holds value o ≡ true) ↔ (o ≡ some value)
unfolding holds
holds_iff value none = (λ h. cc, λ h. cc)
holds_iff value (some v) =
    (λ h. ap some ((eq_iff v value).0 h), λ h. (eq_iff v value).1 (ground arith))

covers-IsCovered : (existing new : Map String) → covers existing new ≡ true → IsCovered existing new
unfolding covers lookup
covers-IsCovered existing [] h key value n e = absurd (ground arith)
covers-IsCovered existing ((a, v) ∷ rest) h key value n e =
    let ih = covers-IsCovered existing rest in
    let step = holds_iff v (lookup a existing) in
    elim (Bool-cases (a == key)) [
      | inl y ↦
          let q : a ≡ key = (eq_iff a key).0 y in
          let r : v ≡ value = ground arith in
          let entry : holds v (lookup a existing) ≡ true = ground (arith, eq_iff a sigkey) in
          rw (sym q, sym r) (step.0 entry)
      | inr x ↦ ih (ground arith) key value n (ground arith)
    ]

covers-intro :
    (existing new : Map String) → IsMap new → IsCovered existing new → covers existing new ≡ true
unfolding covers lookup
covers-intro existing [] m h = refl
covers-intro existing ((a, v) ∷ rest) m h =
    let tail : covers existing rest ≡ true =
      covers-intro existing rest m.1
        (λ key value n e. h key value n (ground (arith, eq_iff a key, m.0))) in
    elim (Bool-cases (a == sigkey)) [
      | inl y ↦ ground arith
      | inr x ↦
          let e : lookup a existing ≡ some v =
            h a v (λ q. ground (arith, eq_iff a sigkey)) (ground (arith, eq_iff a a)) in
          let entry = (holds_iff v (lookup a existing)).1 e in ground arith
    ]

returns_iff : (value : String) (r : Result String) → (returns value r ≡ true) ↔ (r ≡ ok value)
unfolding returns
returns_iff value (err e) = (λ h. cc, λ h. cc)
returns_iff value (ok v) =
    (λ h. ap ok ((eq_iff v value).0 h), λ h. (eq_iff v value).1 (ground arith))

module _ (w : World) where
  -- The same layer.
  abbrev pub SameLayer : OciSignature w → OciSignature w → Type 0
  SameLayer new sig =
      ((d : String) × (new.layer.digest ≡ ok d) × (sig.layer.digest ≡ ok d))
      × ((t : String) × (new.layer.media_type ≡ ok t) × (sig.layer.media_type ≡ ok t))

  -- The annotations of the new signature, but for the signature itself, are the other's too.
  abbrev pub SameAnnotations : OciSignature w → OciSignature w → Type 0
  SameAnnotations new sig =
      (ann : Map String) × (existing : Map String) × (new.annotations ≡ ok ann)
      × (sig.annotations ≡ ok existing)
      × IsCovered existing ann

  -- The other's signature is one of the new signature's payload.
  abbrev pub AlsoSigns : w.Verifier → OciSignature w → OciSignature w → Type 0
  AlsoSigns verifier new sig =
      (text : String) × (raw : String) × (payload : String) × (sig.signature.base64_signature
        ≡ ok text)
      × (text ≢ "")
      × (w.base64_decode text ≡ ok raw)
      × (new.layer.uncompressed ≡ ok payload)
      × (w.verify_signature verifier raw payload ≡ none)

  abbrev pub IsDuplicate : w.Verifier → OciSignature w → OciSignature w → Type 0
  IsDuplicate verifier new sig =
      SameLayer new sig × SameAnnotations new sig × AlsoSigns verifier new sig

  decoded_iff : (r : Result String) (raw : String) → (decoded w r ≡ some raw) ↔ (r ≡ ok raw)
  unfolding decoded
  decoded_iff (err e) raw = (λ h. cc, λ h. cc)
  decoded_iff (ok r) raw = (λ h. ground arith, λ h. ground arith)

  uploaded_iff :
      (r : Result String) (raw : String)
      → (uploaded w r ≡ some raw)
        ↔ ((text : String) × (r ≡ ok text) × (text ≢ "") × (w.base64_decode text ≡ ok raw))
  unfolding uploaded
  uploaded_iff (err e) raw = (λ h. cc, λ (text, p, n, q). cc)
  uploaded_iff (ok text) raw =
      let d = decoded_iff (w.base64_decode text) raw in
      (
        λ h. (text, refl, (λ e. ground (arith, eq_iff text "")), d.0 (ground arith)),
        λ (t, p, n, q).
            let e : text ≡ t = ground arith in
            let there : decoded w (w.base64_decode text) ≡ some raw = d.1 (rw e q) in
            ground (arith, eq_iff text "", n),
      )

  accepted_iff : (o : Option Error) → (accepted w o ≡ ok true) ↔ (o ≡ none)
  unfolding accepted
  accepted_iff none = (λ h. refl, λ h. refl)
  accepted_iff (some e) = (λ h. absurd (ground arith), λ h. cc)

  verifies-AlsoSigns :
      (verifier : w.Verifier) (new sig : OciSignature w) (o : Option String)
      → uploaded w sig.signature.base64_signature ≡ o
      → verifies w verifier new o ≡ ok true
      → AlsoSigns verifier new sig
  unfolding verifies
  verifies-AlsoSigns verifier new sig none e h = absurd (ground arith)
  verifies-AlsoSigns verifier new sig (some raw) e h =
      let (payload, p, h₁) = >>=-eq-ok new.layer.uncompressed _ h in
      let (text, t, n, d) = (uploaded_iff sig.signature.base64_signature raw).0 e in
      (text, raw, payload, t, n, d, p, (accepted_iff _).0 h₁)

  AlsoSigns-verifies :
      (verifier : w.Verifier) (new sig : OciSignature w)
      → AlsoSigns verifier new sig
      → verifies w verifier new (uploaded w sig.signature.base64_signature) ≡ ok true
  unfolding verifies
  AlsoSigns-verifies verifier new sig (text, raw, payload, t, n, d, p, a) =
      rw ((uploaded_iff sig.signature.base64_signature raw).1 (text, t, n, d), p, a)
        (unfold accepted in refl)

  annotated_iff :
      (ann : Map String) (r : Result (Map String))
      → IsMap ann
      → (annotated w ann r ≡ true)
        ↔ ((existing : Map String) × (r ≡ ok existing) × IsCovered existing ann)
  unfolding annotated
  annotated_iff ann (err e) m = (λ h. cc, λ (x, p, c). cc)
  annotated_iff ann (ok x) m = (
    λ h. (x, refl, covers-IsCovered x ann h),
    λ (y, p, c). let e : x ≡ y = ground arith in covers-intro x ann m (rw e c),
  )

  -- What is found: a duplicate, or none where there is none.
  abbrev pub Found :
      w.Verifier → OciSignature w → List (OciSignature w) → Option (OciSignature w) → Type 0
  Found verifier new sigs none =
      (sig : OciSignature w) → Memᴰ sig sigs → ¬ IsDuplicate verifier new sig
  Found verifier new sigs (some sig) = Memᴰ sig sigs × IsDuplicate verifier new sig

  Found-cons :
      (verifier : w.Verifier) (new s : OciSignature w) (sigs : List (OciSignature w))
      (found : Option (OciSignature w))
      → ¬ IsDuplicate verifier new s
      → Found verifier new sigs found
      → Found verifier new (s ∷ sigs) found
  Found-cons verifier new s sigs none n f =
      λ sig i. elim i [ Memᴰ.head e ↦ λ q. n (rw e at q) | Memᴰ.tail i' ↦ f sig i' ]
  Found-cons verifier new s sigs (some sig) n (i, q) = (Memᴰ.tail i, q)
