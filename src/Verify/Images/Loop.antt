-- ===== src/Verify/Images/Loop.antt =====
-- The loop over signatures, which threads the options from each signature to the next, is a filter:
-- every signature is judged by the options that the caller gave.
use mathlib.Core.List.{append_assoc, append-nil}
use mathlib.Core.Bool.{or_assoc, or-false}
use cosign.Base.{String, ◌<>◌, Option, none, some, Bool, List, [], ◌∷◌, ◌++◌}
use cosign.Base.{◌≡◌, refl, ◌∙◌, ◌||◌, is_none}
use cosign.Base.{Error, message, error_text, Result, ok, err}
use cosign.Base.Lists.{any, keep}
use cosign.World.{World}
use cosign.Verify.{Signature, CheckOpts}
use cosign.Verify.Entry.{Outcome, verify_image_signature, verify_image_attestation}
use cosign.Verify.Entry.Isolation.{with_pool, verify_entry-frame, verify_entry-with_pool}
use cosign.Verify.Images.{
  Tally, start, tally, verify_each, conclude, verify_signatures, verify_attestations, join,
}

abbrev pub with_text : Option Error → List String → List String
with_text none texts = texts
with_text (some e) texts = error_text e ∷ texts

module _ (w : World) where
  -- The judgement of one signature by itself.
  module _ (judge : Signature w → Outcome) where
    abbrev pub accepted : Signature w → Bool
    accepted sig = is_none (judge sig).1

    abbrev pub error_texts : List (Signature w) → List String
    error_texts [] = []
    error_texts (sig ∷ sigs) = with_text (judge sig).1 (error_texts sigs)

    -- What the loop adds to its variables.
    abbrev pub summary : List (Signature w) → Tally w → Tally w
    summary sigs t = record {
      checked = t.checked ++ keep accepted sigs;
      bundle_verified = t.bundle_verified || any (λ s. (judge s).0) sigs;
      validation_errs = t.validation_errs ++ error_texts sigs;
    }

    summary-cons_of :
        (sig : Signature w) (sigs : List (Signature w)) (t : Tally w) (o : Outcome)
        → judge sig ≡ o
        → summary sigs (tally w sig o t) ≡ summary (sig ∷ sigs) t
    unfolding tally
    summary-cons_of sig sigs t (b, none) e = rw e (simp (append_assoc, or_assoc))
    summary-cons_of sig sigs t (b, some x) e = rw e (simp (append_assoc, or_assoc))

    summary-cons :
        (sig : Signature w) (sigs : List (Signature w)) (t : Tally w)
        → summary sigs (tally w sig (judge sig) t) ≡ summary (sig ∷ sigs) t
    summary-cons sig sigs t = summary-cons_of sig sigs t (judge sig) refl

  module _ (verify : Signature w → String → CheckOpts w → Outcome × CheckOpts w)
      (frame : (sig : Signature w) (digest : String) (co : CheckOpts w)
        → (verify sig digest co).1 ≡ with_pool w co (verify sig digest co).1.intermediate_certs)
      (isolated : (sig : Signature w) (digest : String) (co : CheckOpts w)
          (pool : Option (List w.Certificate))
        → (verify sig digest (with_pool w co pool)).0 ≡ (verify sig digest co).0) where
    verify_each-cons :
        (sig : Signature w) (sigs : List (Signature w)) (digest : String) (co : CheckOpts w)
        (t : Tally w)
        → verify_each w verify (sig ∷ sigs) digest co t
          ≡ verify_each w verify sigs digest
              (verify sig digest co).1
              (tally w sig (verify sig digest co).0 t)
    unfolding verify_each
    verify_each-cons sig sigs digest co t = refl

    verify_each-eq-summary :
        (sigs : List (Signature w)) (digest : String) (co : CheckOpts w)
        (pool : Option (List w.Certificate)) (t : Tally w)
        → (verify_each w verify sigs digest (with_pool w co pool) t).0
          ≡ summary (λ s. (verify s digest co).0) sigs t
    verify_each-eq-summary [] digest co pool t = unfold verify_each in simp (append-nil, or-false)
    verify_each-eq-summary (sig ∷ sigs) digest co pool t =
        rw (verify_each-cons, frame sig digest (with_pool w co pool), isolated sig digest co pool)
          (verify_each-eq-summary sigs digest co _ _
            ∙ summary-cons (λ s. (verify s digest co).0) sig sigs t)

  -- The accepted signatures in their order and whether one of them has a verified bundle, or the
  -- error with the texts of every rejection.
  abbrev pub filtered :
      String → (Signature w → Outcome) → List (Signature w) → Result (List (Signature w) × Bool)
  filtered headline judge sigs = elim (keep (accepted judge) sigs) [
    | [] ↦ err (message (headline <> join "\n " (error_texts judge sigs)))
    | _ ∷ _ ↦ ok (keep (accepted judge) sigs, any (λ s. (judge s).0) sigs)
  ]

  -- The signatures of an image are filtered: each is judged by itself, with the caller's options,
  -- whatever the checks of the others wrote to them.
  pub verify_signatures-eq-filtered :
      (sigs : List (Signature w)) (digest : String) (co : CheckOpts w)
      → (verify_signatures w (ok sigs) digest co).0
        ≡ filtered "no matching signatures:\n" (λ s. (verify_image_signature w s digest co).0) sigs
  unfolding verify_signatures verify_image_signature conclude
  verify_signatures-eq-filtered sigs digest co =
      rw
        (verify_each-eq-summary (verify_image_signature w) (verify_entry-frame w _ _)
          (verify_entry-with_pool w _ _) sigs digest co co.intermediate_certs (start w))
        refl

  -- The attestations of an image are filtered: each is judged by itself, with the caller's
  -- options, whatever the checks of the others wrote to them.
  pub verify_attestations-eq-filtered :
      (sigs : List (Signature w)) (digest : String) (co : CheckOpts w)
      → (verify_attestations w (ok sigs) digest co).0
        ≡ filtered "no matching attestations:\n"
            (λ s. (verify_image_attestation w s digest co).0)
            sigs
  unfolding verify_attestations verify_image_attestation conclude
  verify_attestations-eq-filtered sigs digest co =
      rw
        (verify_each-eq-summary (verify_image_attestation w) (verify_entry-frame w _ _)
          (verify_entry-with_pool w _ _) sigs digest co co.intermediate_certs (start w))
        refl
