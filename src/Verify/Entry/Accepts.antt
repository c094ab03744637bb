-- ===== src/Verify/Entry/Accepts.antt =====
-- What a signature or an attestation that is accepted has passed.
use cosign.Base.{String, Option, none, some, Bool, true, false}
use cosign.Base.{◌≡◌, ◌≢◌, refl, ◌↔◌, ◌⊎◌, inl, inr, arith}
use cosign.Base.{Error, Result, ok, err, Result-cases, Option-cases}
use cosign.World.{World}
use cosign.Verify.Entry.Verifier.{ObtainedFrom, obtain_verifier_iff}
use cosign.Verify.Entry.Online.{OnServer, tlog_validate_iff}
use cosign.Verify.{Signature, CheckOpts, Annotations}
use cosign.Verify.Bundle.{verify_bundle}
use cosign.Verify.Bundle.Accepts.{OtherPayload, verify_bundle-OtherPayload}
use cosign.Verify.Entry.Isolation.{verify_entry-outcome}
use cosign.Verify.Entry.{
  obtain_verifier, verify_claims, finish, check_with, verify_entry, verify_image_signature,
  verify_oci_signature,
}

module _ (w : World) where
  -- How the log comes in: by a verified bundle; by the log's server, if there is a client and
  -- no bundle verifies; or not at all, if there is no client and VerifyBundle has no error.
  abbrev pub Logged : Signature w → CheckOpts w → Bool → Type 0
  Logged sig co true = verify_bundle w sig ≡ ok true
  Logged sig co false =
      ((client : w.RekorClient) × (co.rekor_client ≡ some client)
        × (verify_bundle w sig ≢ ok true)
        × OnServer w co.sig_verifier client sig)
      ⊎ ((co.rekor_client ≡ none) × (verify_bundle w sig ≡ ok false))

  finish_sound :
      (sig : Signature w) (co : CheckOpts w) (b : Bool)
      → finish w sig co (verify_bundle w sig) ≡ (b, none)
      → Logged sig co b
  unfolding finish
  finish_sound sig co true h = ground arith
  finish_sound sig co false h = elim (Option-cases co.rekor_client) [
    | inl n ↦ inr (n, ground arith)
    | inr (client, e) ↦ inl (
      client,
      e,
      ground arith,
      (tlog_validate_iff w client sig co co.sig_verifier refl).0 (ground arith),
    )
  ]

  finish_complete :
      (sig : Signature w) (co : CheckOpts w) (b : Bool)
      → Logged sig co b
      → finish w sig co (verify_bundle w sig) ≡ (b, none)
  unfolding finish
  finish_complete sig co true h = ground arith
  finish_complete sig co false (inl (client, e, ne, on_server)) =
      let t = (tlog_validate_iff w client sig co co.sig_verifier refl).1 on_server in
      elim (Result-cases (verify_bundle w sig)) [
        | inr (x, p) ↦ ground arith
        | inl (true, p) ↦ absurd (ne p)
        | inl (false, p) ↦ ground arith
      ]
  finish_complete sig co false (inr (e, p)) = ground arith

  -- An outcome that reports a verified bundle has no error.
  finish_flag :
      (sig : Signature w) (co : CheckOpts w) (r : Result Bool)
      → (finish w sig co r).0 ≡ true
      → (r ≡ ok true) × ((finish w sig co r).1 ≡ none)
  unfolding finish
  finish_flag sig co (err e) h = ground arith
  finish_flag sig co (ok true) h = ground arith
  finish_flag sig co (ok false) h = ground arith

  -- The claim verifier of the options, if there is one, accepts the signature for the digest.
  abbrev pub ClaimsHold :
      Option (Signature w → String → Annotations → Option Error)
      → Signature w
      → String
      → Annotations
      → Type 0
  ClaimsHold none sig digest annotations = Unit
  ClaimsHold (some check) sig digest annotations = check sig digest annotations ≡ none

  verify_claims_iff :
      (sig : Signature w) (digest : String) (co : CheckOpts w)
      (o : Option (Signature w → String → Annotations → Option Error))
      → co.claim_verifier ≡ o
      → (verify_claims w sig digest co ≡ none) ↔ ClaimsHold o sig digest co.annotations
  unfolding verify_claims
  verify_claims_iff sig digest co none e = (λ h. tt, λ h. ground arith)
  verify_claims_iff sig digest co (some check) e = (λ h. ground arith, λ h. ground arith)

  module _ (missing : String) (verify_payload : w.Verifier → Signature w → Option Error) where
    pub record Accepted (sig : Signature w) (digest : String) (co : CheckOpts w) (bundled : Bool)
        : Type 0 where
      pub verifier : w.Verifier
      pub obtained : ObtainedFrom w co.sig_verifier sig co verifier
      pub payload_ok : verify_payload verifier sig ≡ none
      pub claims_ok : ClaimsHold co.claim_verifier sig digest co.annotations
      pub logged : Logged sig co bundled

    check_with_sound :
        (r : Result w.Verifier) (sig : Signature w) (digest : String) (co : CheckOpts w) (b : Bool)
        → check_with w missing verify_payload r sig digest co ≡ (b, none)
        → (v : w.Verifier) × (r ≡ ok v)
          × (verify_payload v sig ≡ none)
          × (verify_claims w sig digest co ≡ none)
          × Logged sig co b
    unfolding check_with
    check_with_sound (err e) sig digest co b h = cc
    check_with_sound (ok v) sig digest co b h = elim (Option-cases (verify_payload v sig)) [
      | inr (e, p) ↦ absurd (ground arith)
      | inl p ↦ elim (Option-cases (verify_claims w sig digest co)) [
        | inr (e, q) ↦ absurd (ground arith)
        | inl q ↦ (v, refl, p, q, finish_sound sig co b (ground arith))
      ]
    ]

    check_with_complete :
        (v : w.Verifier) (sig : Signature w) (digest : String) (co : CheckOpts w) (b : Bool)
        → verify_payload v sig ≡ none
        → verify_claims w sig digest co ≡ none
        → Logged sig co b
        → check_with w missing verify_payload (ok v) sig digest co ≡ (b, none)
    unfolding check_with
    check_with_complete v sig digest co b p c l = ground (arith, finish_complete sig co b l)

    check_with-flag :
        (r : Result w.Verifier) (sig : Signature w) (digest : String) (co : CheckOpts w)
        → (check_with w missing verify_payload r sig digest co).0 ≡ true
        → (verify_bundle w sig ≡ ok true)
          × ((check_with w missing verify_payload r sig digest co).1 ≡ none)
    unfolding check_with
    check_with-flag (err e) sig digest co h = cc
    check_with-flag (ok v) sig digest co h = elim (Option-cases (verify_payload v sig)) [
      | inr (e, p) ↦ absurd (ground arith)
      | inl p ↦ elim (Option-cases (verify_claims w sig digest co)) [
        | inr (e, q) ↦ absurd (ground arith)
        | inl q ↦ ground (arith, finish_flag sig co (verify_bundle w sig))
      ]
    ]

    -- A signature is accepted exactly if: a verifier is at hand, which is the key of the options or,
    -- where they have none, the one that its certificate is given by its checks, with the chain but
    -- its root for the intermediates; the verifier verifies the payload; the claims hold; and the log
    -- agrees, by a verified bundle, or by an entry that the server has under the key, or under the
    -- certificate, in its time and with its proof, or there is no server and the bundle has no
    -- error. The flag says whether that was by a bundle.
    pub verify_entry_iff :
        (sig : Signature w) (digest : String) (co : CheckOpts w) (b : Bool)
        → ((verify_entry w missing verify_payload sig digest co).0 ≡ (b, none))
          ↔ Accepted sig digest co b
    verify_entry_iff sig digest co b =
        let claims = verify_claims_iff sig digest co co.claim_verifier refl in
        (
          λ h.
              let (v, o, p, c, l) =
                check_with_sound (obtain_verifier w missing sig co).0 sig digest co b
                  (rw (verify_entry-outcome w missing verify_payload sig digest co) at h) in
              record {
                verifier = v;
                obtained = (obtain_verifier_iff w missing sig co v co.sig_verifier refl).0 o;
                payload_ok = p;
                claims_ok = (verify_claims_iff sig digest co co.claim_verifier refl).0 c;
                logged = l;
              },
          λ a.
              let o =
                (obtain_verifier_iff w missing sig co a.verifier co.sig_verifier refl).1
                  a.obtained in
              rw (verify_entry-outcome w missing verify_payload sig digest co, o)
                (check_with_complete a.verifier sig digest co b a.payload_ok (claims.1 a.claims_ok)
                  a.logged),
        )

    -- An outcome that reports a verified bundle is one of acceptance.
    verify_entry_flag :
        (sig : Signature w) (digest : String) (co : CheckOpts w)
        → (verify_entry w missing verify_payload sig digest co).0.0 ≡ true
        → (verify_bundle w sig ≡ ok true)
          × ((verify_entry w missing verify_payload sig digest co).0.1 ≡ none)
    unfolding verify_entry
    verify_entry_flag sig digest co h =
        let (r, co') = obtain_verifier w missing sig co in check_with-flag r sig digest co' h

  -- Without a client of the log, a signature with a verifier at hand that verifies it, and with
  -- claims that hold, is accepted although its bundle is that of another payload.
  pub OtherPayload-accepted :
      (sig : Signature w) (digest : String) (co : CheckOpts w) (v : w.Verifier)
      → OtherPayload w sig
      → (obtain_verifier w "no certificate found on signature" sig co).0 ≡ ok v
      → co.rekor_client ≡ none
      → verify_oci_signature w v sig ≡ none
      → verify_claims w sig digest co ≡ none
      → (verify_image_signature w sig digest co).0 ≡ (false, none)
  unfolding verify_image_signature
  OtherPayload-accepted sig digest co v o key client p c =
      (verify_entry_iff _ (verify_oci_signature w) sig digest co false).1 (record {
        verifier = v;
        obtained = (obtain_verifier_iff w _ sig co v co.sig_verifier refl).0 key;
        payload_ok = p;
        claims_ok = (verify_claims_iff sig digest co co.claim_verifier refl).0 c;
        logged = inr (client, verify_bundle-OtherPayload w sig o);
      })
