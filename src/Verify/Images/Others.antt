-- ===== src/Verify/Images/Others.antt =====
-- What VerifyImageAttestations, VerifyLocalImageSignatures and VerifyLocalImageAttestations return.
use cosign.Base.{String, Option, none, some, Bool, false, List, []}
use cosign.Base.{◌⊎◌, ◌≡◌, ◌≢◌, refl, arith, Result, ok, err, >>=-eq-ok, >>-eq-ok}
use cosign.Base.{ok-pair, ap, sym, ◌∙◌, inl, inr, Bool-cases}
use cosign.Base.Lists.{any, keep, All}
use cosign.World.{World}
use cosign.Verify.{Signature, CheckOpts}
use cosign.Verify.Registry.{Registry, SignedEntity, LocalIndex}
use cosign.Verify.Entry.{Outcome, verify_image_signature, verify_image_attestation}
use cosign.Verify.Images.{
  lacks_trust, require_trust, get_signed_entity, fetch_attestations, fetch_local, local_digest,
  then_verify, Fetched, verify_signatures, verify_attestations, verify_image_attestations,
  verify_local_image_signatures, verify_local_image_attestations,
}
use cosign.Verify.Images.Loop.{
  accepted, filtered, verify_signatures-eq-filtered, verify_attestations-eq-filtered,
}
use cosign.Verify.Images.Sound.{keep-All, filtered-ok, get_signed_entity-ok}

module _ (w : World) where
  -- What is returned of a list: those that are accepted, at least one, with a flag for whether one
  -- has a verified bundle.
  pub record Kept (judge : Signature w → Outcome) (all sigs : List (Signature w)) (bundled : Bool)
      : Type 0 where
    pub kept : sigs ≡ keep (accepted w judge) all
    pub each_accepted : All (λ s. (judge s).1 ≡ none) sigs
    pub some_accepted : sigs ≢ []
    pub flag : bundled ≡ any (λ s. (judge s).0) all

  filtered-Kept :
      (judge : Signature w → Outcome) (headline : String) (all sigs : List (Signature w)) (b : Bool)
      → filtered w headline judge all ≡ ok (sigs, b)
      → Kept judge all sigs b
  filtered-Kept judge headline all sigs b h =
      let (kept, ne, flag) = filtered-ok w judge headline all sigs b h in
      record {
        kept = kept;
        each_accepted = rw kept (keep-All w judge all);
        some_accepted = ne;
        flag = flag;
      }

  -- What was fetched is verified: the lists are there, and the result is kept of them.
  abbrev FetchedKept :
      (Signature w → String → CheckOpts w → Outcome)
      → Result (Fetched w)
      → CheckOpts w
      → List (Signature w)
      → Bool
      → Type 0
  FetchedKept judge f co sigs b =
      (all : List (Signature w)) × (digest : String) × (f ≡ ok (ok all, digest))
      × Kept (λ s. judge s digest co) all sigs b

  then_verify-signatures :
      (r : Registry w) (f : Result (Fetched w)) (co : CheckOpts w) (sigs : List (Signature w))
      (b : Bool)
      → (then_verify w r (verify_signatures w) f co).0 ≡ ok (sigs, b)
      → FetchedKept (λ s digest co. (verify_image_signature w s digest co).0) f co sigs b
  unfolding then_verify
  then_verify-signatures r (err e) co sigs b h = cc
  then_verify-signatures r (ok (err e, digest)) co sigs b h = unfold verify_signatures in cc
  then_verify-signatures r (ok (ok all, digest)) co sigs b h = (
    all,
    digest,
    refl,
    filtered-Kept _ "no matching signatures:\n" all sigs b
        (sym (verify_signatures-eq-filtered w all digest co) ∙ h),
  )

  then_verify-attestations :
      (r : Registry w) (f : Result (Fetched w)) (co : CheckOpts w) (sigs : List (Signature w))
      (b : Bool)
      → (then_verify w r (verify_attestations w) f co).0 ≡ ok (sigs, b)
      → FetchedKept (λ s digest co. (verify_image_attestation w s digest co).0) f co sigs b
  unfolding then_verify
  then_verify-attestations r (err e) co sigs b h = cc
  then_verify-attestations r (ok (err e, digest)) co sigs b h = unfold verify_attestations in cc
  then_verify-attestations r (ok (ok all, digest)) co sigs b h = (
    all,
    digest,
    refl,
    filtered-Kept _ "no matching attestations:\n" all sigs b
        (sym (verify_attestations-eq-filtered w all digest co) ∙ h),
  )

  require_trust-none : (co : CheckOpts w) → require_trust w co ≡ none → lacks_trust w co ≡ false
  unfolding require_trust
  require_trust-none co h = elim (Bool-cases (lacks_trust w co)) [
    | inl y ↦ absurd (ground arith)
    | inr n ↦ n
  ]

  -- Success means: a key or roots are given; the image has a digest; and the result is the list of
  -- those of its attestations that are accepted for that digest, which is not empty, with a flag
  -- for whether one has a verified bundle.
  pub verify_image_attestations_sound :
      (r : Registry w) (ref : String) (co : CheckOpts w) (atts : List (Signature w)) (b : Bool)
      → (verify_image_attestations w r ref co).0 ≡ ok (atts, b)
      → (entity : SignedEntity w) × (all : List (Signature w)) × (digest : String) × (lacks_trust w
            co
          ≡ false)
        × (r.signed_entity ref ≡ ok entity)
        × (entity.digest ≡ ok digest)
        × (entity.attestations ≡ ok (ok all))
        × Kept (λ s. (verify_image_attestation w s digest co).0) all atts b
  unfolding verify_image_attestations fetch_attestations
  verify_image_attestations_sound r ref co atts b h =
      let (all, digest, f, k) = then_verify-attestations r _ co atts b h in
      let (t, h₁) = >>-eq-ok (require_trust w co) _ f in
      let (p, g, h₂) = >>=-eq-ok (get_signed_entity w r ref) _ h₁ in
      let (e, q) = get_signed_entity-ok w r ref p.0 p.1 g in
      let (l, c, h₃) = >>=-eq-ok p.0.attestations _ h₂ in
      let (e₁, e₂) = ok-pair h₃ in
      (p.0, all, digest, require_trust-none co t, e, q ∙ ap ok e₂, c ∙ ap ok e₁, k)

  -- A local image: trust is given, its index has a digest, that of an index or else of an image,
  -- and the list is there.
  pub record Local (choose : LocalIndex w → Result (Result (List (Signature w)))) (r : Registry w)
      (path : String) (co : CheckOpts w) (all : List (Signature w)) (digest : String) : Type 0 where
    pub has_trust : lacks_trust w co ≡ false
    pub index : LocalIndex w
    pub found : r.local_index path ≡ ok index
    pub digest_read :
        (index.signed_image_index ≡ ok (some (ok digest)))
        ⊎ ((index.signed_image_index ≡ ok none) × (index.signed_image ≡ ok (some (ok digest))))
    pub chosen : choose index ≡ ok (ok all)

  local_digest-ok :
      (r : Registry w) (ii i : Option (Result String)) (digest : String)
      → local_digest w r ii i ≡ ok digest
      → (ii ≡ some (ok digest)) ⊎ ((ii ≡ none) × (i ≡ some (ok digest)))
  unfolding local_digest
  local_digest-ok r (some d) i digest h = inl (ap some h)
  local_digest-ok r none (some d) digest h = inr (refl, ap some h)
  local_digest-ok r none none digest h = cc

  fetch_local-Local :
      (choose : LocalIndex w → Result (Result (List (Signature w)))) (r : Registry w)
      (path : String) (co : CheckOpts w) (all : List (Signature w)) (digest : String)
      → fetch_local w r choose path co ≡ ok (ok all, digest)
      → Local choose r path co all digest
  unfolding fetch_local
  fetch_local-Local choose r path co all digest f =
      let (t, h₁) = >>-eq-ok (require_trust w co) _ f in
      let (se, e, h₂) = >>=-eq-ok (r.local_index path) _ h₁ in
      let (ii, p, h₃) = >>=-eq-ok se.signed_image_index _ h₂ in
      let (i, q, h₄) = >>=-eq-ok se.signed_image _ h₃ in
      let (d, g, h₅) = >>=-eq-ok (local_digest w r ii i) _ h₄ in
      let (l, c, h₆) = >>=-eq-ok (choose se) _ h₅ in
      let (e₁, e₂) = ok-pair h₆ in
      record {
        has_trust = require_trust-none co t;
        index = se;
        found = e;
        digest_read = elim (local_digest-ok r ii i digest (g ∙ ap ok e₂)) [
          | inl a ↦ inl (p ∙ ap ok a)
          | inr (a, b) ↦ inr (p ∙ ap ok a, q ∙ ap ok b)
        ];
        chosen = c ∙ ap ok e₁;
      }

  -- Success for a local image means: a key or roots are given; the index at the path, or else the
  -- image there, has a digest; and the result is the list of those of its signatures that are
  -- accepted for that digest, which is not empty, with a flag for whether one has a verified bundle.
  pub verify_local_image_signatures_sound :
      (r : Registry w) (path : String) (co : CheckOpts w) (sigs : List (Signature w)) (b : Bool)
      → (verify_local_image_signatures w r path co).0 ≡ ok (sigs, b)
      → (all : List (Signature w)) × (digest : String) × Local
          (λ se. se.signatures)
          r
          path
          co
          all
          digest
        × Kept (λ s. (verify_image_signature w s digest co).0) all sigs b
  unfolding verify_local_image_signatures
  verify_local_image_signatures_sound r path co sigs b h =
      let (all, digest, f, k) = then_verify-signatures r _ co sigs b h in
      (all, digest, fetch_local-Local (λ se. se.signatures) r path co all digest f, k)

  -- The same holds of the attestations of a local image: success means that a key or roots are
  -- given, the index at the path, or else the image there, has a digest, and the result is the list
  -- of the attestations that are accepted for it, which is not empty, with such a flag.
  verify_local_image_attestations_sound :
      (r : Registry w) (path : String) (co : CheckOpts w) (atts : List (Signature w)) (b : Bool)
      → (verify_local_image_attestations w r path co).0 ≡ ok (atts, b)
      → (all : List (Signature w)) × (digest : String) × Local
          (λ se. se.attestations)
          r
          path
          co
          all
          digest
        × Kept (λ s. (verify_image_attestation w s digest co).0) all atts b
  unfolding verify_local_image_attestations
  verify_local_image_attestations_sound r path co atts b h =
      let (all, digest, f, k) = then_verify-attestations r _ co atts b h in
      (all, digest, fetch_local-Local (λ se. se.attestations) r path co all digest f, k)
