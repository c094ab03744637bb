-- ===== src/Verify/Cert/Accepts.antt =====
-- When a certificate is accepted: ValidateAndUnpackCert against a description of its own.
use mathlib.Core.List.{Memᴰ}
use cosign.Base.{String, none, Bool, true, List, [], ◌∷◌, ◌==◌}
use cosign.Base.{◌≡◌, refl, ◌≢◌, ◌↔◌, ◌⊎◌, inl, inr, arith, eq_iff, ◌&&◌, ap}
use cosign.Base.{ok, Result-cases, Bool-cases}
use cosign.Base.{>>=-eq-ok}
use cosign.Base.Int.{ℤ, ◌≤ℤ◌}
use cosign.Base.Lists.{any, any-elim, any-intro}
use cosign.World.{World}
use cosign.Verify.{Identity}
use cosign.Verify.Cert.{
  check_expiry, issuer_matches, subject_matches, match_identities, get_issuer,
  get_subject_alternate_names,
}

module _ (w : World) where
  -- The check passes exactly for the times from NotBefore to NotAfter, both included.
  pub check_expiry_iff :
      (cert : w.Certificate) (it : ℤ)
      → (check_expiry w cert it ≡ none) ↔ ((w.not_before cert ≤ℤ it) × (it ≤ℤ w.not_after cert))
  unfolding check_expiry
  check_expiry_iff cert it = ground arith

  -- The pattern of an identity is empty, or compiles to a test that some text passes.
  abbrev pub Fits : String → List String → Type 0
  Fits pattern texts =
      (pattern ≡ "")
      ⊎ ((matches : String → Bool) × (w.compile pattern ≡ ok matches)
          × ((t : String) × Memᴰ t texts × (matches t ≡ true)))

  pub record Matches (cert : w.Certificate) (i : Identity) : Type 0 where
    pub issuer_fits : Fits i.issuer (get_issuer w cert ∷ [])
    pub subject_fits : Fits i.subject (get_subject_alternate_names w cert)

  -- A pattern that is not empty compiles.
  abbrev pub WellFormed : String → Type 0
  WellFormed pattern = (pattern ≢ "") → (m : String → Bool) × (w.compile pattern ≡ ok m)

  issuer_matches-true :
      (cert : w.Certificate) (issuer : String)
      → issuer_matches w cert issuer ≡ ok true
      → Fits issuer (get_issuer w cert ∷ [])
  unfolding issuer_matches
  issuer_matches-true cert issuer h = elim (Bool-cases (issuer == "")) [
    | inl e ↦ inl ((eq_iff issuer "").0 e)
    | inr e ↦ elim (Result-cases (w.compile issuer)) [
      | inl (m, c) ↦ inr (m, c, (_, Memᴰ.head refl, ground arith))
      | inr (x, c) ↦ absurd (ground arith)
    ]
  ]

  subject_matches-true :
      (cert : w.Certificate) (subject : String)
      → subject_matches w cert subject ≡ ok true
      → Fits subject (get_subject_alternate_names w cert)
  unfolding subject_matches
  subject_matches-true cert subject h = elim (Bool-cases (subject == "")) [
    | inl e ↦ inl ((eq_iff subject "").0 e)
    | inr e ↦ elim (Result-cases (w.compile subject)) [
      | inl (m, c) ↦ inr (m, c, any-elim m (get_subject_alternate_names w cert) (ground arith))
      | inr (x, c) ↦ absurd (ground arith)
    ]
  ]

  Fits-issuer_matches :
      (cert : w.Certificate) (issuer : String)
      → Fits issuer (get_issuer w cert ∷ [])
      → issuer_matches w cert issuer ≡ ok true
  unfolding issuer_matches
  Fits-issuer_matches cert issuer (inl e) = ground (arith, eq_iff issuer "")
  Fits-issuer_matches cert issuer (inr (m, c, (t, Memᴰ.head e, p))) = ground (arith, ap m e)
  Fits-issuer_matches cert issuer (inr (m, c, (t, Memᴰ.tail r, p))) = elim r [ ]

  Fits-subject_matches :
      (cert : w.Certificate) (subject : String)
      → Fits subject (get_subject_alternate_names w cert)
      → subject_matches w cert subject ≡ ok true
  unfolding subject_matches
  Fits-subject_matches cert subject (inl e) = ground (arith, eq_iff subject "")
  Fits-subject_matches cert subject (inr (m, c, (t, r, p))) =
      ground (arith, any-intro m (get_subject_alternate_names w cert) r p)

  issuer_matches-total :
      (cert : w.Certificate) (issuer : String)
      → WellFormed issuer
      → (b : Bool) × (issuer_matches w cert issuer ≡ ok b)
  unfolding issuer_matches
  issuer_matches-total cert issuer wf = elim (Bool-cases (issuer == "")) [
    | inl e ↦ (true, rw e)
    | inr e ↦
        let (m, c) = wf (ground (arith, eq_iff issuer "")) in (m (get_issuer w cert), rw (e, c))
  ]

  subject_matches-total :
      (cert : w.Certificate) (subject : String)
      → WellFormed subject
      → (b : Bool) × (subject_matches w cert subject ≡ ok b)
  unfolding subject_matches
  subject_matches-total cert subject wf = elim (Bool-cases (subject == "")) [
    | inl e ↦ (true, rw e)
    | inr e ↦
        let (m, c) = wf (ground (arith, eq_iff subject "")) in
        (any m (get_subject_alternate_names w cert), rw (e, c))
  ]

  -- Some identity of the list fits the certificate.
  abbrev pub SomeMatches : w.Certificate → List Identity → Type 0
  SomeMatches cert is = (i : Identity) × Memᴰ i is × Matches cert i

  pub match_identities_sound :
      (cert : w.Certificate) (is : List Identity) (v : w.Verifier) {r : w.Verifier}
      → match_identities w cert is v ≡ ok r
      → (r ≡ v) × SomeMatches cert is
  unfolding match_identities
  match_identities_sound cert [] v h = cc
  match_identities_sound cert (i ∷ is) v h =
      let (issuer_ok, e, h₁) = >>=-eq-ok (issuer_matches w cert i.issuer) _ h in
      let (subject_ok, f, h₂) = >>=-eq-ok (subject_matches w cert i.subject) _ h₁ in
      elim (Bool-cases (subject_ok && issuer_ok)) [
        | inl both ↦ (
          ground arith,
          (
            i,
            Memᴰ.head refl,
            record {
              issuer_fits = issuer_matches-true cert i.issuer (ground arith);
              subject_fits = subject_matches-true cert i.subject (ground arith);
            },
          ),
        )
        | inr other ↦
            let (p, (j, m, q)) = match_identities_sound cert is v (rw other at h₂) in
            (p, (j, Memᴰ.tail m, q))
      ]

  -- Every pattern of every identity is empty or compiles.
  abbrev pub AllWellFormed : List Identity → Type 0
  AllWellFormed is = (i : Identity) → Memᴰ i is → WellFormed i.issuer × WellFormed i.subject

  pub match_identities_complete :
      (cert : w.Certificate) (is : List Identity) (v : w.Verifier)
      → AllWellFormed is
      → SomeMatches cert is
      → match_identities w cert is v ≡ ok v
  unfolding match_identities
  match_identities_complete cert [] v wf (j, m, q) = elim m [ ]
  match_identities_complete cert (i ∷ is) v wf (j, Memᴰ.head e, q) =
      rw
        (
          Fits-issuer_matches cert i.issuer (rw e at q.issuer_fits),
          Fits-subject_matches cert i.subject (rw e at q.subject_fits),
        )
        refl
  match_identities_complete cert (i ∷ is) v wf (j, Memᴰ.tail m, q) =
      let (a, b) = wf i (Memᴰ.head refl) in
      let (issuer_ok, e) = issuer_matches-total cert i.issuer a in
      let (subject_ok, f) = subject_matches-total cert i.subject b in
      let ih = match_identities_complete cert is v (λ k n. wf k (Memᴰ.tail n)) (j, m, q) in
      ground arith
