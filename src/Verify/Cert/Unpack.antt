-- ===== src/Verify/Cert/Unpack.antt =====
-- ValidateAndUnpackCert as a whole: what an accepted certificate has, and what its caller's other
-- options do to the outcome.
use mathlib.Core.List.{Memᴰ}
use mathlib.Core.List.Memᴰ
use cosign.Base.{String, none, Bool, true, List, [], ◌∷◌, ◌==◌}
use cosign.Base.{◌≡◌, refl, ◌↔◌, ◌⊎◌, inl, inr, arith, eq_iff}
use cosign.Base.{ok, Result-cases, Bool-cases}
use cosign.Base.{>>=-eq-ok, >>-eq-ok}
use cosign.Base.Lists.{any-elim, any-intro}
use cosign.World.{World}
use cosign.Verify.Cert.{code_signing}
use cosign.World.Models.{Chains}
use cosign.Ctl.{contains_sct, verify_embedded_sct}
use cosign.Verify.{CheckOpts, Identity}
use cosign.Verify.Cert.{
  check_email, check_oidc_issuer, finish_unpack, trusted_cert, validate_and_unpack_cert, get_issuer,
  check_embedded_sct,
}
use cosign.Verify.Cert.Accepts.{
  SomeMatches, AllWellFormed, match_identities_sound, match_identities_complete,
}

module _ (w : World) where
  -- An embedded timestamp that verifies, or none where none is required.
  pub record SctOk (cert : w.Certificate) (chain : List w.Certificate) (enforce : Bool)
      : Type 0 where
    pub contains : Bool
    pub parsed : contains_sct w (w.raw cert) ≡ ok contains
    pub required : enforce ≡ true → contains ≡ true
    pub verified : contains ≡ true → verify_embedded_sct w chain ≡ none

  check_embedded_sct_iff :
      (cert : w.Certificate) (chains : Chains w.Certificate) (enforce : Bool)
      → (check_embedded_sct w cert chains enforce ≡ none) ↔ SctOk cert chains.first enforce
  unfolding check_embedded_sct
  check_embedded_sct_iff cert chains enforce = (
    λ h. elim (Result-cases (contains_sct w (w.raw cert))) [
      | inl (c, e) ↦ record {
        contains = c;
        parsed = e;
        required = λ x. ground arith;
        verified = λ x. ground arith;
      }
      | inr (x, e) ↦ absurd (ground arith)
    ],
    λ s. elim (Bool-cases s.contains) [
      | inl y ↦ ground (arith, s.parsed, s.verified y)
      | inr n ↦ elim (Bool-cases enforce) [
        | inl r ↦ absurd (ground (arith, s.required r))
        | inr r ↦ ground (arith, s.parsed)
      ]
    ],
  )

  -- Without expected identities the timestamp decides; with them, one has to match.
  abbrev pub Finishes : w.Certificate → List w.Certificate → Bool → List Identity → Type 0
  Finishes cert chain enforce [] = SctOk cert chain enforce
  Finishes cert chain enforce (i ∷ is) = SomeMatches w cert (i ∷ is)

  pub record Accepted (cert : w.Certificate) (co : CheckOpts w) (v : w.Verifier) : Type 0 where
    pub loaded : w.load_verifier (w.public_key cert) ≡ ok v
    pub chains : Chains w.Certificate
    pub trusted :
        w.build_chains cert
          (w.not_before cert)
          co.root_certs
          co.intermediate_certs
          (code_signing ∷ [])
        ≡ ok chains
    pub email : (co.cert_email ≡ "") ⊎ Memᴰ co.cert_email (w.email_addresses cert)
    pub issuer : (co.cert_oidc_issuer ≡ "") ⊎ (get_issuer w cert ≡ co.cert_oidc_issuer)
    pub finishes : Finishes cert chains.first co.enforce_sct co.identities

  check_email_iff :
      (cert : w.Certificate) (email : String)
      → (check_email w cert email ≡ none) ↔ ((email ≡ "") ⊎ Memᴰ email (w.email_addresses cert))
  unfolding check_email
  check_email_iff cert email = (
    λ h. elim (Bool-cases (email == "")) [
      | inl e ↦ inl ((eq_iff email "").0 e)
      | inr e ↦
          let (x, m, q) = any-elim (λ em. email == em) (w.email_addresses cert) (ground arith) in
          inr (Memᴰ.cast ((eq_iff email x).0 q) m)
    ],
    λ c. elim c [
      | inl e ↦ ground (arith, eq_iff email "")
      | inr m ↦ ground (
        arith,
        any-intro (λ em. email == em) (w.email_addresses cert) m ((eq_iff email email).1 refl),
      )
    ],
  )

  check_oidc_issuer_iff :
      (cert : w.Certificate) (issuer : String)
      → (check_oidc_issuer w cert issuer ≡ none) ↔ ((issuer ≡ "") ⊎ (get_issuer w cert ≡ issuer))
  unfolding check_oidc_issuer
  check_oidc_issuer_iff cert issuer =
      ground (arith, eq_iff issuer "", eq_iff (get_issuer w cert) issuer)

  finish_unpack_sound :
      (cert : w.Certificate) (co : CheckOpts w) (chains : Chains w.Certificate) (v : w.Verifier)
      {r : w.Verifier} (is : List Identity)
      → co.identities ≡ is
      → finish_unpack w cert co chains v ≡ ok r
      → (r ≡ v) × Finishes cert chains.first co.enforce_sct is
  unfolding finish_unpack
  finish_unpack_sound cert co chains v [] e h =
      let (p, q) = >>-eq-ok (check_embedded_sct w cert chains co.enforce_sct) _ (rw e at h) in
      (cc, (check_embedded_sct_iff cert chains co.enforce_sct).0 p)
  finish_unpack_sound cert co chains v (i ∷ is) e h =
      match_identities_sound w cert (i ∷ is) v (rw e at h)

  -- A certificate gives a verifier only if the verifier is that of its key, chains for code signing
  -- were built from the options' roots and intermediates at the time that the certificate's validity
  -- starts, the expected email is among its addresses and the expected issuer is its issuer, also
  -- where identities are expected, and: where identities are expected one of them fits it; where
  -- none are, an embedded timestamp verifies, which it must have if that is enforced.
  pub validate_and_unpack_cert_sound :
      (cert : w.Certificate) (co : CheckOpts w) (v : w.Verifier)
      → validate_and_unpack_cert w cert co ≡ ok v
      → Accepted cert co v
  unfolding validate_and_unpack_cert trusted_cert
  validate_and_unpack_cert_sound cert co v h =
      elim (Result-cases (w.load_verifier (w.public_key cert))) [
        | inr (x, e) ↦ absurd (ground arith)
        | inl (v', l) ↦
            let (chains, t, h₁) =
              >>=-eq-ok (trusted_cert w cert co.root_certs co.intermediate_certs) _ (rw l at h) in
            let (a, h₂) = >>-eq-ok (check_email w cert co.cert_email) _ h₁ in
            let (b, h₃) = >>-eq-ok (check_oidc_issuer w cert co.cert_oidc_issuer) _ h₂ in
            let (p, f) = finish_unpack_sound cert co chains v' co.identities refl h₃ in
            record {
              loaded = rw p l;
              chains = chains;
              trusted = t;
              email = (check_email_iff cert co.cert_email).0 a;
              issuer = (check_oidc_issuer_iff cert co.cert_oidc_issuer).0 b;
              finishes = f;
            }
      ]

  finish_unpack_complete :
      (cert : w.Certificate) (co : CheckOpts w) (chains : Chains w.Certificate) (v : w.Verifier)
      (is : List Identity)
      → co.identities ≡ is
      → AllWellFormed w is
      → Finishes cert chains.first co.enforce_sct is
      → finish_unpack w cert co chains v ≡ ok v
  unfolding finish_unpack
  finish_unpack_complete cert co chains v [] e wf f =
      rw (e, (check_embedded_sct_iff cert chains co.enforce_sct).1 f) refl
  finish_unpack_complete cert co chains v (i ∷ is) e wf f =
      rw e (match_identities_complete w cert (i ∷ is) v wf f)

  -- Conversely, a certificate that has all this is accepted with that verifier, if every pattern
  -- of the expected identities is empty or compiles.
  pub validate_and_unpack_cert_complete :
      (cert : w.Certificate) (co : CheckOpts w) (v : w.Verifier)
      → AllWellFormed w co.identities
      → Accepted cert co v
      → validate_and_unpack_cert w cert co ≡ ok v
  unfolding validate_and_unpack_cert trusted_cert
  validate_and_unpack_cert_complete cert co v wf a =
      rw
        (
          a.loaded,
          a.trusted,
          (check_email_iff cert co.cert_email).1 a.email,
          (check_oidc_issuer_iff cert co.cert_oidc_issuer).1 a.issuer,
        )
        (finish_unpack_complete cert co a.chains v co.identities refl wf a.finishes)

  -- Where identities are expected, the outcome does not depend on whether a timestamp is
  -- enforced: the requirement is passed over.
  pub enforce_sct_ignored :
      (cert : w.Certificate) (co : CheckOpts w) (i : Identity) (is : List Identity) (b : Bool)
      → co.identities ≡ i ∷ is
      → validate_and_unpack_cert w cert (record co { enforce_sct = b })
        ≡ validate_and_unpack_cert w cert co
  unfolding validate_and_unpack_cert finish_unpack
  enforce_sct_ignored cert co i is b e = rw e refl
