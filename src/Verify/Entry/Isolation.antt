-- ===== src/Verify/Entry/Isolation.antt =====
-- Verification writes to the options that its caller shares between signatures: the pool of
-- intermediates, and nothing else. No outcome depends on what an earlier signature left there.
use cosign.Base.{String, Option, List, ◌≡◌, refl, arith, Error, Result, ok, err}
use cosign.World.{World}
use cosign.Verify.{Signature, CheckOpts}
use cosign.Verify.Entry.{
  verifier_of_cert, obtain_verifier, verify_claims, tlog_validate, finish, check_with, verify_entry,
}

module _ (w : World) where
  -- The options with another pool of intermediates.
  abbrev pub with_pool : CheckOpts w → Option (List w.Certificate) → CheckOpts w
  with_pool co pool = record co { intermediate_certs = pool }

  module _ (missing : String) where
    verifier_of_cert-frame :
        (sig : Signature w) (co : CheckOpts w)
        → (verifier_of_cert w missing sig co).1
          ≡ with_pool co (verifier_of_cert w missing sig co).1.intermediate_certs
    unfolding verifier_of_cert
    verifier_of_cert-frame sig co = ground arith

    obtain_verifier-frame :
        (sig : Signature w) (co : CheckOpts w)
        → (obtain_verifier w missing sig co).1
          ≡ with_pool co (obtain_verifier w missing sig co).1.intermediate_certs
    unfolding obtain_verifier
    obtain_verifier-frame sig co = ground (arith, verifier_of_cert-frame sig co)

    verifier_of_cert-with_pool :
        (sig : Signature w) (co : CheckOpts w) (pool : Option (List w.Certificate))
        → (verifier_of_cert w missing sig (with_pool co pool)).0
          ≡ (verifier_of_cert w missing sig co).0
    unfolding verifier_of_cert
    verifier_of_cert-with_pool sig co pool = ground arith

    obtain_verifier-with_pool :
        (sig : Signature w) (co : CheckOpts w) (pool : Option (List w.Certificate))
        → (obtain_verifier w missing sig (with_pool co pool)).0
          ≡ (obtain_verifier w missing sig co).0
    unfolding obtain_verifier
    obtain_verifier-with_pool sig co pool = ground (arith, verifier_of_cert-with_pool sig co pool)

    module _ (verify_payload : w.Verifier → Signature w → Option Error) where
      check_with-with_pool :
          (r : Result w.Verifier) (sig : Signature w) (digest : String) (co : CheckOpts w)
          (pool : Option (List w.Certificate))
          → check_with w missing verify_payload r sig digest (with_pool co pool)
            ≡ check_with w missing verify_payload r sig digest co
      unfolding check_with verify_claims finish tlog_validate
      check_with-with_pool (err e) sig digest co pool = refl
      check_with-with_pool (ok v) sig digest co pool = refl

      -- The outcome is the one with the caller's options.
      pub verify_entry-outcome :
          (sig : Signature w) (digest : String) (co : CheckOpts w)
          → (verify_entry w missing verify_payload sig digest co).0
            ≡ check_with w missing verify_payload (obtain_verifier w missing sig co).0 sig digest co
      unfolding verify_entry
      verify_entry-outcome sig digest co =
          rw (obtain_verifier-frame sig co) (check_with-with_pool _ sig digest co _)

      -- Only the pool of intermediates is written.
      pub verify_entry-frame :
          (sig : Signature w) (digest : String) (co : CheckOpts w)
          → (verify_entry w missing verify_payload sig digest co).1
            ≡ with_pool co
                (verify_entry w missing verify_payload sig digest co).1.intermediate_certs
      unfolding verify_entry
      verify_entry-frame sig digest co = obtain_verifier-frame sig co

      -- The outcome does not depend on the pool that the options come with.
      pub verify_entry-with_pool :
          (sig : Signature w) (digest : String) (co : CheckOpts w)
          (pool : Option (List w.Certificate))
          → (verify_entry w missing verify_payload sig digest (with_pool co pool)).0
            ≡ (verify_entry w missing verify_payload sig digest co).0
      verify_entry-with_pool sig digest co pool =
          rw
            (
              verify_entry-outcome sig digest (with_pool co pool),
              verify_entry-outcome sig digest co,
              obtain_verifier-with_pool sig co pool,
            )
            (check_with-with_pool _ sig digest co pool)
