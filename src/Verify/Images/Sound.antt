-- ===== src/Verify/Images/Sound.antt =====
-- What VerifyImageSignatures returns: the signatures of one image that were accepted, at least one.
use cosign.Base.{String, none, Bool, false, List, [], ◌∷◌, ◌==◌}
use cosign.Base.{◌⊎◌, eq_iff, ◌≡◌, ◌≢◌, refl, arith, Result, ok, err, >>=-eq-ok, >>-eq-ok}
use cosign.Base.{ok-pair, ap, sym, ◌∙◌, inl, inr, Bool-cases}
use cosign.Base.Lists.{any, keep, All}
use cosign.World.{World}
use cosign.Verify.{Signature, CheckOpts}
use cosign.Verify.Registry.{Registry, SignedEntity}
use cosign.Verify.Entry.{Outcome, verify_image_signature}
use cosign.Verify.Images.{
  lacks_trust, require_trust, get_signed_entity, choose_signatures, fetch_signatures, then_verify,
  Fetched, verify_signatures, verify_image_signatures, load_signature_from_file,
}
use cosign.Verify.Images.Loop.{accepted, filtered, verify_signatures-eq-filtered}

module _ (w : World) where
  module _ (judge : Signature w → Outcome) where
    pub keep-All :
        (sigs : List (Signature w)) → All (λ s. (judge s).1 ≡ none) (keep (accepted w judge) sigs)
    keep-All [] = tt
    keep-All (s ∷ sigs) = elim (Bool-cases (accepted w judge s)) [
      | inl y ↦ rw y (ground arith, keep-All sigs)
      | inr n ↦ rw n (keep-All sigs)
    ]

    pub filtered-ok :
        (headline : String) (sigs : List (Signature w)) (r : List (Signature w)) (b : Bool)
        → filtered w headline judge sigs ≡ ok (r, b)
        → (r ≡ keep (accepted w judge) sigs) × (r ≢ []) × (b ≡ any (λ s. (judge s).0) sigs)
    filtered-ok headline sigs r b h = ground arith

  -- Where the signatures of an image are: with the image, or in the file that the options name.
  abbrev pub Source :
      Registry w → String → CheckOpts w → SignedEntity w → List (Signature w) → Type 0
  Source r ref co entity all =
      ((co.signature_ref ≡ "") × (entity.signatures ≡ ok (ok all)))
      ⊎ ((co.signature_ref ≢ "") × (load_signature_from_file w r co.signature_ref ref ≡ ok all))

  pub record ImageVerified (r : Registry w) (ref : String) (co : CheckOpts w)
      (sigs : List (Signature w)) (bundled : Bool) : Type 0 where
    pub has_trust : lacks_trust w co ≡ false
    pub entity : SignedEntity w
    pub found : r.signed_entity ref ≡ ok entity
    pub digest : String
    pub digest_read : entity.digest ≡ ok digest
    pub all : List (Signature w)
    pub source : Source r ref co entity all
    pub kept : sigs ≡ keep (accepted w (λ s. (verify_image_signature w s digest co).0)) all
    pub each_accepted : All (λ s. (verify_image_signature w s digest co).0.1 ≡ none) sigs
    pub some_accepted : sigs ≢ []
    pub flag : bundled ≡ any (λ s. (verify_image_signature w s digest co).0.0) all

  source_of :
      (r : Registry w) (ref : String) (co : CheckOpts w) (entity : SignedEntity w)
      (all : List (Signature w))
      → choose_signatures w r entity ref co ≡ ok (ok all)
      → Source r ref co entity all
  unfolding choose_signatures
  source_of r ref co entity all h = elim (Bool-cases (co.signature_ref == "")) [
    | inl y ↦ inl ((eq_iff co.signature_ref "").0 y, ground arith)
    | inr n ↦ inr (ground (arith, eq_iff co.signature_ref ""), ground arith)
  ]

  verified_all :
      (r : Registry w) (ref : String) (co : CheckOpts w) (entity : SignedEntity w) (digest : String)
      (found : Result (List (Signature w))) (sigs : List (Signature w)) (b : Bool)
      → (verify_signatures w found digest co).0 ≡ ok (sigs, b)
      → (all : List (Signature w)) × (found ≡ ok all)
        × (filtered w "no matching signatures:\n"
              (λ s. (verify_image_signature w s digest co).0)
              all
            ≡ ok (sigs, b))
  verified_all r ref co entity digest (err e) sigs b h = unfold verify_signatures in cc
  verified_all r ref co entity digest (ok all) sigs b h =
      (all, refl, rw (verify_signatures-eq-filtered w all digest co) at h)

  then_verify-ok :
      (r : Registry w) (f : Result (Fetched w)) (co : CheckOpts w) (sigs : List (Signature w))
      (b : Bool)
      → (then_verify w r (verify_signatures w) f co).0 ≡ ok (sigs, b)
      → (found : Result (List (Signature w))) × (digest : String) × (f ≡ ok (found, digest))
        × ((verify_signatures w found digest co).0 ≡ ok (sigs, b))
  unfolding then_verify
  then_verify-ok r (err e) co sigs b h = cc
  then_verify-ok r (ok (found, digest)) co sigs b h = (found, digest, refl, h)

  record FetchedOk (r : Registry w) (ref : String) (co : CheckOpts w)
      (found : Result (List (Signature w))) (digest : String) : Type 0 where
    trusts : lacks_trust w co ≡ false
    entity : SignedEntity w
    entity_found : r.signed_entity ref ≡ ok entity
    digest_read : entity.digest ≡ ok digest
    chosen : choose_signatures w r entity ref co ≡ ok found

  pub get_signed_entity-ok :
      (r : Registry w) (ref : String) (entity : SignedEntity w) (digest : String)
      → get_signed_entity w r ref ≡ ok (entity, digest)
      → (r.signed_entity ref ≡ ok entity) × (entity.digest ≡ ok digest)
  unfolding get_signed_entity
  get_signed_entity-ok r ref entity digest h =
      let (e, p, h₁) = >>=-eq-ok (r.signed_entity ref) _ h in
      let (d, q, h₂) = >>=-eq-ok e.digest _ h₁ in
      let (e₁, e₂) = ok-pair h₂ in
      (p ∙ ap ok e₁, ap (λ (x : SignedEntity w). x.digest) (sym e₁) ∙ (q ∙ ap ok e₂))

  fetch_signatures-ok :
      (r : Registry w) (ref : String) (co : CheckOpts w) (found : Result (List (Signature w)))
      (digest : String)
      → fetch_signatures w r ref co ≡ ok (found, digest)
      → FetchedOk r ref co found digest
  unfolding fetch_signatures require_trust
  fetch_signatures-ok r ref co found digest h =
      let (t, h₁) = >>-eq-ok (require_trust w co) _ h in
      let (p, g, h₂) = >>=-eq-ok (get_signed_entity w r ref) _ h₁ in
      let (e, q) = get_signed_entity-ok r ref p.0 p.1 g in
      let (l, c, h₃) = >>=-eq-ok (choose_signatures w r p.0 ref co) _ h₂ in
      let (e₁, e₂) = ok-pair h₃ in
      record {
        trusts = elim (Bool-cases (lacks_trust w co)) [ inl y ↦ absurd (ground arith) | inr n ↦ n ];
        entity = p.0;
        entity_found = e;
        digest_read = q ∙ ap ok e₂;
        chosen = c ∙ ap ok e₁;
      }

  -- Success means: a key or roots are given; the image has a digest; and the result is the list of
  -- those of its signatures (or of the one in the file that the options name) that are accepted
  -- for that digest, which is not empty, with a flag for whether one has a verified bundle.
  pub verify_image_signatures_sound :
      (r : Registry w) (ref : String) (co : CheckOpts w) (sigs : List (Signature w)) (b : Bool)
      → (verify_image_signatures w r ref co).0 ≡ ok (sigs, b)
      → ImageVerified r ref co sigs b
  unfolding verify_image_signatures
  verify_image_signatures_sound r ref co sigs b h =
      let (found, digest, f, v) = then_verify-ok r (fetch_signatures w r ref co) co sigs b h in
      let o = fetch_signatures-ok r ref co found digest f in
      let (all, e, k) = verified_all r ref co o.entity digest found sigs b v in
      let (kept, ne, flag) =
        filtered-ok (λ s. (verify_image_signature w s digest co).0) _ all sigs b k in
      record {
        has_trust = o.trusts;
        entity = o.entity;
        found = o.entity_found;
        digest = digest;
        digest_read = o.digest_read;
        all = all;
        source = source_of r ref co o.entity all (rw e at o.chosen);
        kept = kept;
        each_accepted = rw kept (keep-All (λ s. (verify_image_signature w s digest co).0) all);
        some_accepted = ne;
        flag = flag;
      }
