-- ===== src/Verify/Entry/Verifier.antt =====
-- Which verifier a signature is checked against: the beginning of VerifyImageSignature of
-- pkg/cosign/verify.go.
use cosign.Base.{String, Option, none, some, List, [], ◌∷◌, ◌++◌, ap}
use cosign.Base.{◌≡◌, ◌≢◌, refl, ◌↔◌, ◌⊎◌, inl, inr, arith, sym, ◌∙◌}
use cosign.Base.{ok, Result-cases}
use cosign.Base.Lists.{init}
use cosign.World.{World}
use cosign.Verify.{Signature, CheckOpts}
use cosign.Verify.Cert.{validate_and_unpack_cert}
use cosign.Verify.Entry.{intermediates_of, verifier_of_cert, obtain_verifier}

module _ (w : World) where
  -- The pool of intermediates of a chain: the chain without its last certificate, the root; there
  -- is none for a chain of at most one certificate.
  abbrev pub PoolOf : List w.Certificate → Option (List w.Certificate) → Type 0
  PoolOf chain none = (chain ≡ []) ⊎ ((root : w.Certificate) × (chain ≡ root ∷ []))
  PoolOf chain (some pool) = (pool ≢ []) × ((root : w.Certificate) × (chain ≡ pool ++ root ∷ []))

  init-snoc :
      (c : w.Certificate) (cs : List w.Certificate)
      → (root : w.Certificate) × (c ∷ cs ≡ init (c ∷ cs) ++ root ∷ [])
  init-snoc c [] = (c, refl)
  init-snoc c (d ∷ ds) = let (root, e) = init-snoc d ds in (root, ap (λ l. c ∷ l) e)

  snoc-init : (pool : List w.Certificate) (root : w.Certificate) → init (pool ++ root ∷ []) ≡ pool
  snoc-init [] root = refl
  snoc-init (c ∷ []) root = refl
  snoc-init (c ∷ d ∷ cs) root = ap (λ l. c ∷ l) (snoc-init (d ∷ cs) root)

  intermediates_of-PoolOf : (chain : List w.Certificate) → PoolOf chain (intermediates_of w chain)
  unfolding intermediates_of
  intermediates_of-PoolOf [] = inl refl
  intermediates_of-PoolOf (c ∷ []) = inr (c, refl)
  intermediates_of-PoolOf (c ∷ d ∷ cs) = (λ e. cc, init-snoc c (d ∷ cs))

  PoolOf-intermediates_of :
      (chain : List w.Certificate) (pool : Option (List w.Certificate))
      → PoolOf chain pool
      → pool ≡ intermediates_of w chain
  unfolding intermediates_of
  PoolOf-intermediates_of chain none (inl e) = rw e refl
  PoolOf-intermediates_of chain none (inr (root, e)) = rw e refl
  PoolOf-intermediates_of chain (some []) (ne, _) = absurd (ne refl)
  PoolOf-intermediates_of chain (some (c ∷ [])) (ne, (root, e)) = rw e refl
  PoolOf-intermediates_of chain (some (c ∷ d ∷ cs)) (ne, (root, e)) =
      rw e (ap (λ l. some (c ∷ l)) (sym (snoc-init (d ∷ cs) root)))

  -- The options' key; or, where they have none, the verifier of the signature's certificate, which
  -- it is given with the chain's pool for the intermediates of the options.
  abbrev pub ObtainedFrom : Option w.Verifier → Signature w → CheckOpts w → w.Verifier → Type 0
  ObtainedFrom (some key) sig co v = v ≡ key
  ObtainedFrom none sig co v =
      (cert : w.Certificate) × (chain : List w.Certificate) × (pool : Option (List w.Certificate))
      × (sig.cert ≡ ok (some cert))
      × (sig.chain ≡ ok chain)
      × PoolOf chain pool
      × (validate_and_unpack_cert w cert (record co { intermediate_certs = pool }) ≡ ok v)

  module _ (missing : String) where
    verifier_of_cert-found :
        (sig : Signature w) (co : CheckOpts w) (cert : w.Certificate) (chain : List w.Certificate)
        → sig.cert ≡ ok (some cert)
        → sig.chain ≡ ok chain
        → (verifier_of_cert w missing sig co).0
          ≡ validate_and_unpack_cert w cert
              (record co { intermediate_certs = intermediates_of w chain })
    unfolding verifier_of_cert
    verifier_of_cert-found sig co cert chain c d = ground arith

    obtain_verifier-none :
        (sig : Signature w) (co : CheckOpts w)
        → co.sig_verifier ≡ none
        → (obtain_verifier w missing sig co).0 ≡ (verifier_of_cert w missing sig co).0
    unfolding obtain_verifier
    obtain_verifier-none sig co e = ground arith

    verifier_of_cert_iff :
        (sig : Signature w) (co : CheckOpts w) (v : w.Verifier)
        → ((verifier_of_cert w missing sig co).0 ≡ ok v) ↔ ObtainedFrom none sig co v
    unfolding verifier_of_cert
    verifier_of_cert_iff sig co v = (
      λ h. elim (Result-cases sig.cert) [
        | inr (x, c) ↦ absurd (ground arith)
        | inl (none, c) ↦ absurd (ground arith)
        | inl (some cert, c) ↦ elim (Result-cases sig.chain) [
          | inr (x, d) ↦ absurd (ground arith)
          | inl (chain, d) ↦ (
            cert,
            chain,
            intermediates_of w chain,
            c,
            d,
            intermediates_of-PoolOf chain,
            sym (verifier_of_cert-found sig co cert chain c d) ∙ h,
          )
        ]
      ],
      λ (cert, chain, pool, c, d, p, q).
          let e = PoolOf-intermediates_of chain pool p in
          verifier_of_cert-found sig co cert chain c d ∙ rw e at q,
    )

    pub obtain_verifier_iff :
        (sig : Signature w) (co : CheckOpts w) (v : w.Verifier) (o : Option w.Verifier)
        → co.sig_verifier ≡ o
        → ((obtain_verifier w missing sig co).0 ≡ ok v) ↔ ObtainedFrom o sig co v
    unfolding obtain_verifier
    obtain_verifier_iff sig co v (some key) e = (λ h. ground arith, λ h. ground arith)
    obtain_verifier_iff sig co v none e =
        let (fwd, bwd) = verifier_of_cert_iff sig co v in
        let same = obtain_verifier-none sig co e in (λ h. fwd (sym same ∙ h), λ x. same ∙ bwd x)
