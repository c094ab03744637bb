-- ===== src/Policy/Matching/Laws.antt =====
-- Which policies GetMatchingPolicies finds for an image, and when it has an error.
use mathlib.Core.List.{Memᴰ}
use mathlib.Core.List.Memᴰ
use cosign.Base.{String, none, some, Bool, true, false, List, [], ◌∷◌, ◌==◌, ◌||◌, ◌&&◌}
use cosign.Base.{◌≡◌, ◌≢◌, ◌∙◌, ◌↔◌, ◌⊎◌, inl, inr, arith, eq_iff, is_some, ap, sym}
use cosign.Base.{Error, ok, err, Bool-cases, Result-cases}
use cosign.Base.Lists.{any, any-elim, any-intro}
use cosign.Base.Maps.{Map, lookup}
use cosign.World.{World}
use cosign.Policy.{ImagePattern, ClusterImagePolicy, WebhookAuthority}
use cosign.Policy.Glob.{glob_match}
use cosign.Policy.Matching.{
  ImagePolicyConfig, Verdict, is_match, malformed, judge, Found, append_at, match_patterns,
  match_policies, get_matching_policies,
}

lookup-append_at {ℓ} :
    {V : Type ℓ} (k j : String) (xs : List V) (m : Map (List V))
    → is_some (lookup j (append_at k xs m)) ≡ (is_some (lookup j m) || k == j)
unfolding lookup append_at
lookup-append_at k j xs [] = ground arith
lookup-append_at k j xs ((i, ys) ∷ m) =
    ground (arith, eq_iff i k, eq_iff i j, eq_iff k j, lookup-append_at k j xs m)

module _ (w : World) where
  abbrev hits : Verdict w → Bool
  hits is_match = true
  hits _ = false

  abbrev fails : Verdict w → Bool
  fails (malformed e) = true
  fails _ = false

  -- The image matches the glob, if there is one, or else the regular expression.
  abbrev pub MatchesImage : String → ImagePattern → Type 0
  MatchesImage image p =
      ((p.glob ≢ "") × (glob_match image p.glob ≡ true))
      ⊎ ((p.glob ≡ "")
          × (p.regex ≢ "")
          × ((m : String → Bool) × (w.compile p.regex ≡ ok m) × (m image ≡ true)))

  judge_iff :
      (image : String) (p : ImagePattern) → (hits (judge w image p) ≡ true) ↔ MatchesImage image p
  unfolding judge
  judge_iff image p =
      let c = Result-cases (w.compile p.regex) in
      (
        λ h. elim (Bool-cases (p.glob == "")) [
          | inr n ↦ inl (ground (arith, eq_iff p.glob ""), ground arith)
          | inl y ↦ elim c [
            | inl (m, e) ↦
                inr
                  ((eq_iff p.glob "").0 y, ground (arith, eq_iff p.regex ""), (m, e, ground arith))
            | inr (x, e) ↦ absurd (ground arith)
          ]
        ],
        λ v. elim v [
          | inl (n, g) ↦ ground (arith, eq_iff p.glob "")
          | inr (z, n, (m, e, t)) ↦ ground (arith, eq_iff p.glob "", eq_iff p.regex "")
        ],
      )

  -- A pattern that has no glob and whose regular expression does not compile.
  abbrev pub IsMalformed : ImagePattern → Type 0
  IsMalformed p = (p.glob ≡ "") × (p.regex ≢ "") × ((e : Error) × (w.compile p.regex ≡ err e))

  judge-fails_iff :
      (image : String) (p : ImagePattern) → (fails (judge w image p) ≡ true) ↔ IsMalformed p
  unfolding judge
  judge-fails_iff image p =
      let c = Result-cases (w.compile p.regex) in
      (
        λ h. elim c [
          | inl (m, e) ↦ absurd (ground arith)
          | inr (x, e) ↦
              (ground (arith, eq_iff p.glob ""), ground (arith, eq_iff p.regex ""), (x, e))
        ],
        λ v. let (z, n, (x, e)) = v in ground (arith, eq_iff p.glob "", eq_iff p.regex ""),
      )

  lookup-match_patterns :
      (image k j : String) (authorities : List (WebhookAuthority w)) (ps : List ImagePattern)
      (found : Found w)
      → is_some (lookup j (match_patterns w image k authorities ps found).0)
        ≡ (is_some (lookup j found.0) || (k == j && any (λ p. hits (judge w image p)) ps))
  unfolding match_patterns
  lookup-match_patterns image k j authorities [] found = ground arith
  lookup-match_patterns image k j authorities (p ∷ ps) found =
      lookup-match_patterns image k j authorities ps _
      ∙ ground (arith, lookup-append_at k j authorities found.0)

  lookup-match_policies :
      (image j : String) (policies : ImagePolicyConfig w) (found : Found w)
      → is_some (lookup j (match_policies w image policies found).0) ≡ (
          is_some (lookup j found.0)
          || any (λ (k, v). k == j && any (λ p. hits (judge w image p)) v.images) policies)
  unfolding match_policies
  lookup-match_policies image j [] found = ground arith
  lookup-match_policies image j ((k, v) ∷ policies) found =
      lookup-match_policies image j policies _
      ∙ ground (arith, lookup-match_patterns image k j v.authorities v.images found)

  error-match_patterns :
      (image k : String) (authorities : List (WebhookAuthority w)) (ps : List ImagePattern)
      (found : Found w)
      → is_some (match_patterns w image k authorities ps found).1
        ≡ (is_some found.1 || any (λ p. fails (judge w image p)) ps)
  unfolding match_patterns
  error-match_patterns image k authorities [] found = ground arith
  error-match_patterns image k authorities (p ∷ ps) found =
      error-match_patterns image k authorities ps _ ∙ ground arith

  error-match_policies :
      (image : String) (policies : ImagePolicyConfig w) (found : Found w)
      → is_some (match_policies w image policies found).1
        ≡ (is_some found.1 || any (λ (k, v). any (λ p. fails (judge w image p)) v.images) policies)
  unfolding match_policies
  error-match_policies image [] found = ground arith
  error-match_policies image ((k, v) ∷ policies) found =
      error-match_policies image policies _
      ∙ ground (arith, error-match_patterns image k v.authorities v.images found)

  -- A policy is found for an image exactly if one of its patterns matches the image: its glob, or
  -- its regular expression where it has no glob.
  pub get_matching_policies_iff :
      (policies : ImagePolicyConfig w) (image k : String)
      → (is_some (lookup k (get_matching_policies w (some policies) image).0) ≡ true) ↔ (
          (v : ClusterImagePolicy w) × Memᴰ (k, v) policies
          × ((p : ImagePattern) × Memᴰ p v.images × MatchesImage image p))
  unfolding get_matching_policies lookup
  get_matching_policies_iff policies image k = (
    λ h.
        let ((j, v), m, q) =
          any-elim _ policies (rw (lookup-match_policies image k policies ([], none)) at h) in
        let (p, n, r) = any-elim (λ p. hits (judge w image p)) v.images (ground arith) in
        (
          v,
          Memᴰ.cast (ap (λ i. (i, v)) (sym ((eq_iff j k).0 (ground arith)))) m,
          (p, n, (judge_iff image p).0 r),
        ),
    λ x.
        let (v, m, (p, n, q)) = x in
        lookup-match_policies image k policies ([], none)
        ∙ any-intro _ policies m (
            ground (
              arith,
              eq_iff k k,
              any-intro (λ p. hits (judge w image p)) v.images n ((judge_iff image p).1 q),
            )),
  )

  -- The search has an error exactly if some policy has a malformed pattern, matching or not.
  get_matching_policies-error_iff :
      (policies : ImagePolicyConfig w) (image : String)
      → (is_some (get_matching_policies w (some policies) image).1 ≡ true) ↔ (
          (k : String) × (v : ClusterImagePolicy w) × Memᴰ (k, v) policies
          × ((p : ImagePattern) × Memᴰ p v.images × IsMalformed p))
  unfolding get_matching_policies
  get_matching_policies-error_iff policies image = (
    λ h.
        let ((k, v), m, q) =
          any-elim _ policies (rw (error-match_policies image policies ([], none)) at h) in
        let (p, n, r) = any-elim (λ p. fails (judge w image p)) v.images q in
        (k, v, m, (p, n, (judge-fails_iff image p).0 r)),
    λ x.
        let (k, v, m, (p, n, q)) = x in
        error-match_policies image policies ([], none)
        ∙ any-intro _ policies m
            (any-intro (λ p. fails (judge w image p)) v.images n ((judge-fails_iff image p).1 q)),
  )
