-- ===== src/Verify/Claims/Accepts.antt =====
-- When the claim verifiers of pkg/cosign/verifiers.go accept a signature.
use mathlib.Core.List.{Memᴰ}
use mathlib.Core.List.Memᴰ
use cosign.Base.{String, ◌<>◌, none, some, true, List, [], ◌∷◌, ◌==◌}
use cosign.Base.{
  ◌≡◌, refl, ap, ◌↔◌, inl, inr, arith, eq_iff, Result-cases, Option-cases, Bool-cases,
}
use cosign.Base.{>>=-eq-ok, ok, Bool, false, sym, ◌∙◌, ◌⊎◌}
use cosign.Base.Lists.{All}
use cosign.Base.Maps.{Map, lookup}
use cosign.World.{World}
use cosign.World.Models.{Value, null, text, other, object, array, SimpleContainerImage, Statement}
use cosign.Verify.{Signature, Annotations}
use cosign.Verify.Claims.{
  or_nil, value_is, annotations_error, correct_annotations, simple_payload, simple_claim_verifier,
  match_subject, statement_of, intoto_subject_claim_verifier,
}

-- Objects and arrays cannot be compared.
abbrev pub is_comparable : Value → Bool
is_comparable (object a) = false
is_comparable (array a) = false
is_comparable _ = true

-- The value under the key is the one that is wanted, which can be compared; a missing key has nil.
abbrev pub HasValue : Map Value → String × Value → Type 0
HasValue have (k, v) =
    (is_comparable v ≡ true) × ((lookup k have ≡ some v) ⊎ ((lookup k have ≡ none) × (v ≡ null)))

-- No annotations are asked for, or all of them are there.
abbrev pub Annotated : Annotations → Map Value → Type 0
Annotated none have = Unit
Annotated (some wanted) have = All (HasValue have) wanted

value_is_iff : (a b : Value) → (value_is a b ≡ ok true) ↔ ((a ≡ b) × (is_comparable b ≡ true))
unfolding value_is
value_is_iff null null = (λ h. ground arith, λ (e, c). ground arith)
value_is_iff null (text b) = (λ h. ground arith, λ (e, c). ground arith)
value_is_iff null (other b) = (λ h. ground arith, λ (e, c). ground arith)
value_is_iff null (object b) = (λ h. ground arith, λ (e, c). ground arith)
value_is_iff null (array b) = (λ h. ground arith, λ (e, c). ground arith)
value_is_iff (text a) null = (λ h. ground arith, λ (e, c). ground arith)
value_is_iff (text a) (text b) = ground (arith, eq_iff a b)
value_is_iff (text a) (other b) = (λ h. ground arith, λ (e, c). ground arith)
value_is_iff (text a) (object b) = (λ h. ground arith, λ (e, c). ground arith)
value_is_iff (text a) (array b) = (λ h. ground arith, λ (e, c). ground arith)
value_is_iff (other a) null = (λ h. ground arith, λ (e, c). ground arith)
value_is_iff (other a) (text b) = (λ h. ground arith, λ (e, c). ground arith)
value_is_iff (other a) (other b) = ground (arith, eq_iff a b)
value_is_iff (other a) (object b) = (λ h. ground arith, λ (e, c). ground arith)
value_is_iff (other a) (array b) = (λ h. ground arith, λ (e, c). ground arith)
value_is_iff (object a) null = (λ h. ground arith, λ (e, c). ground arith)
value_is_iff (object a) (text b) = (λ h. ground arith, λ (e, c). ground arith)
value_is_iff (object a) (other b) = (λ h. ground arith, λ (e, c). ground arith)
value_is_iff (object a) (object b) = (λ h. ground arith, λ (e, c). ground arith)
value_is_iff (object a) (array b) = (λ h. ground arith, λ (e, c). ground arith)
value_is_iff (array a) null = (λ h. ground arith, λ (e, c). ground arith)
value_is_iff (array a) (text b) = (λ h. ground arith, λ (e, c). ground arith)
value_is_iff (array a) (other b) = (λ h. ground arith, λ (e, c). ground arith)
value_is_iff (array a) (object b) = (λ h. ground arith, λ (e, c). ground arith)
value_is_iff (array a) (array b) = (λ h. ground arith, λ (e, c). ground arith)

same_value_iff :
    (have : Map Value) (k : String) (v : Value)
    → (value_is (or_nil (lookup k have)) v ≡ ok true) ↔ HasValue have (k, v)
same_value_iff have k v = elim (Option-cases (lookup k have)) [
  | inl n ↦
      let i = value_is_iff null v in
      (
        λ h. let (e, c) = i.0 (simp n at h) in (c, inr (n, sym e)),
        λ (c, x). elim x [ inl e ↦ absurd (ground arith) | inr (_, e) ↦ simp n (i.1 (sym e, c)) ],
      )
  | inr (u, n) ↦
      let i = value_is_iff u v in
      (
        λ h. let (e, c) = i.0 (simp n at h) in (c, inl (n ∙ ap some e)),
        λ (c, x). elim x [
          | inl e ↦ simp n (i.1 (ground arith, c))
          | inr (m, _) ↦ absurd (ground arith)
        ],
      )
]

correct_annotations_iff :
    (wanted have : Map Value)
    → (correct_annotations wanted have ≡ ok true) ↔ All (HasValue have) wanted
unfolding correct_annotations
correct_annotations_iff [] have = (λ h. tt, λ h. refl)
correct_annotations_iff ((k, v) ∷ wanted) have =
    let here = same_value_iff have k v in
    let (fwd, bwd) = correct_annotations_iff wanted have in
    (
      λ h. elim (Result-cases (value_is (or_nil (lookup k have)) v)) [
        | inr (x, e) ↦ absurd (ground arith)
        | inl (true, e) ↦ (here.0 e, fwd (ground arith))
        | inl (false, e) ↦ absurd (ground arith)
      ],
      λ (x, xs). let e = here.1 x in let r = bwd xs in ground arith,
    )

annotations_error_iff :
    (a : Annotations) (have : Map Value) → (annotations_error a have ≡ none) ↔ Annotated a have
unfolding annotations_error
annotations_error_iff none have = (λ _. tt, λ _. refl)
annotations_error_iff (some wanted) have =
    let (fwd, bwd) = correct_annotations_iff wanted have in
    (
      λ h. fwd (elim (Result-cases (correct_annotations wanted have)) [
        | inr (x, e) ↦ absurd (ground arith)
        | inl (true, e) ↦ e
        | inl (false, e) ↦ absurd (ground arith)
      ]),
      λ h. let e = bwd h in ground arith,
    )

-- Some subject has the digest.
abbrev pub HasSubject : List (Map String) → String → Type 0
HasSubject subjects digest =
    (s : Map String) × Memᴰ s subjects
    × ((found : String) × (lookup "sha256" s ≡ some found) × ("sha256:" <> found ≡ digest))

match_subject_iff :
    (w : World) (subjects : List (Map String)) (digest : String)
    → (match_subject w subjects digest ≡ none) ↔ HasSubject subjects digest
unfolding match_subject
match_subject_iff w [] digest = (λ h. cc, λ (s, m, x). elim m [ ])
match_subject_iff w (s ∷ subjects) digest =
    let (fwd, bwd) = match_subject_iff w subjects digest in
    let later : HasSubject subjects digest → HasSubject (s ∷ subjects) digest =
      λ (t, m, x). (t, Memᴰ.tail m, x) in
    elim (Option-cases (lookup "sha256" s)) [
      | inl n ↦ (
        λ h. later (fwd (ground arith)),
        λ (t, m, (d, l, e)). elim (Memᴰ.cases_cons m) [
          | inl q ↦ absurd (let r = ap (lookup "sha256") q in ground arith)
          | inr i ↦ let r = bwd (t, i, (d, l, e)) in ground arith
        ],
      )
      | inr (found, l) ↦ (
        λ h. elim (Bool-cases (("sha256:" <> found) == digest)) [
          | inl y ↦ (s, Memᴰ.head refl, (found, l, (eq_iff _ _).0 y))
          | inr n ↦ later (fwd (ground arith))
        ],
        λ (t, m, (d, k, e)). elim (Memᴰ.cases_cons m) [
          | inl q ↦ let r = ap (lookup "sha256") q in ground (arith, eq_iff ("sha256:" <> d) digest)
          | inr i ↦ let r = bwd (t, i, (d, k, e)) in ground arith
        ],
      )
    ]

module _ (w : World) where
  -- The signature's payload is a simple signing payload.
  abbrev pub IsSimple : Signature w → SimpleContainerImage → Type 0
  IsSimple sig ss =
      (p : String) × (sig.payload ≡ ok p) × (w.unmarshal_simple_container_image p ≡ ok ss)

  simple_payload_iff :
      (sig : Signature w) (ss : SimpleContainerImage)
      → (simple_payload w sig ≡ ok ss) ↔ IsSimple sig ss
  unfolding simple_payload
  simple_payload_iff sig ss =
      (λ h. >>=-eq-ok sig.payload w.unmarshal_simple_container_image h, λ (p, e, u). simp (e, u))

  -- SimpleClaimVerifier accepts a signature exactly if its payload is a simple signing payload for
  -- the digest, and every annotation that is asked for can be compared and is there with its value,
  -- where a wanted nil is also there if its key is missing.
  pub simple_claim_verifier_iff :
      (sig : Signature w) (digest : String) (annotations : Annotations)
      → (simple_claim_verifier w sig digest annotations ≡ none) ↔ (
          (ss : SimpleContainerImage) × IsSimple sig ss
          × (ss.docker_manifest_digest ≡ digest)
          × Annotated annotations ss.optional)
  unfolding simple_claim_verifier
  simple_claim_verifier_iff sig digest annotations = (
    λ h. elim (Result-cases (simple_payload w sig)) [
      | inl (ss, e) ↦ elim (Bool-cases (ss.docker_manifest_digest == digest)) [
        | inl y ↦ (
          ss,
          (simple_payload_iff sig ss).0 e,
          (eq_iff ss.docker_manifest_digest digest).0 y,
          (annotations_error_iff annotations ss.optional).0 (ground arith),
        )
        | inr n ↦ absurd (ground arith)
      ]
      | inr (x, e) ↦ absurd (ground arith)
    ],
    λ (ss, i, d, a).
        let e = (simple_payload_iff sig ss).1 i in
        let r = (annotations_error_iff annotations ss.optional).1 a in
        ground (arith, eq_iff ss.docker_manifest_digest digest),
  )

  -- IntotoSubjectClaimVerifier accepts a signature exactly if its payload is an envelope around a
  -- statement that has the digest among its subjects; annotations play no part.
  pub intoto_subject_claim_verifier_iff :
      (sig : Signature w) (digest : String) (annotations : Annotations)
      → (intoto_subject_claim_verifier w sig digest annotations ≡ none)
        ↔ ((st : Statement) × (statement_of w sig ≡ ok st) × HasSubject st.subject digest)
  unfolding intoto_subject_claim_verifier
  intoto_subject_claim_verifier_iff sig digest annotations = (
    λ h. elim (Result-cases (statement_of w sig)) [
      | inl (st, e) ↦ (st, e, (match_subject_iff w st.subject digest).0 (ground arith))
      | inr (x, e) ↦ absurd (ground arith)
    ],
    λ (st, e, s). let r = (match_subject_iff w st.subject digest).1 s in ground arith,
  )
