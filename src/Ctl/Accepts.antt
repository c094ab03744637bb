-- ===== src/Ctl/Accepts.antt =====
-- When VerifySCT of cmd/cosign/cli/fulcio/fulcioverifier/ctl/verify.go accepts a certificate.
use cosign.Base.{String, none, some, Bool, true, false, List, [], ◌∷◌, ◌==◌}
use cosign.Base.{◌≡◌, ◌≢◌, refl, ◌↔◌, ◌⊎◌, inl, inr, arith, eq_iff}
use cosign.Base.{wrap-eq-none, ok, Result-cases, Option-cases, Bool-cases}
use cosign.Base.Lists.{All}
use cosign.Base.Maps.{Map, lookup}
use cosign.World.{World}
use cosign.Ctl.{
  LogIdMetadata, verify_embedded, detached_sct, verify_detached, check_scts, sct_inputs, SctInputs,
  verify_sct,
}

module _ (w : World) where
  -- The timestamp is of a log that is known, and that log's key verifies it.
  abbrev pub SctVerified : Map (LogIdMetadata w) → List w.Certificate → Bool → w.Sct → Type 0
  SctVerified keys chain embedded sct =
      (m : LogIdMetadata w) × (lookup (w.sct_log_id sct) keys ≡ some m)
      × (w.ctutil_verify_sct m.pub_key chain sct embedded ≡ none)

  verify_embedded_iff :
      (keys : Map (LogIdMetadata w)) (cert issuer : w.Certificate) (scts : List w.Sct)
      → (verify_embedded w keys cert issuer scts ≡ none)
        ↔ All (SctVerified keys (cert ∷ issuer ∷ []) true) scts
  unfolding verify_embedded
  verify_embedded_iff keys cert issuer [] = (λ _. tt, λ _. refl)
  verify_embedded_iff keys cert issuer (sct ∷ scts) =
      let (fwd, bwd) = verify_embedded_iff keys cert issuer scts in
      (
        λ h. elim (Option-cases (lookup (w.sct_log_id sct) keys)) [
          | inl n ↦ absurd (ground arith)
          | inr (m, e) ↦
              elim (Option-cases (w.ctutil_verify_sct m.pub_key (cert ∷ issuer ∷ []) sct true)) [
                | inl v ↦ ((m, e, v), fwd (ground arith))
                | inr (x, v) ↦ absurd (ground arith)
              ]
        ],
        λ ((m, e, v), rest). let r = bwd rest in ground arith,
      )

  verify_detached_iff :
      (keys : Map (LogIdMetadata w)) (cert : w.Certificate) (raw_sct : String)
      → (verify_detached w keys cert raw_sct ≡ none) ↔ (
          (sct : w.Sct) × (detached_sct w raw_sct ≡ ok sct)
          × SctVerified keys (cert ∷ []) false sct)
  unfolding verify_detached
  verify_detached_iff keys cert raw_sct = (
    λ h. elim (Result-cases (detached_sct w raw_sct)) [
      | inr (x, d) ↦ absurd (ground arith)
      | inl (sct, d) ↦ elim (Option-cases (lookup (w.sct_log_id sct) keys)) [
        | inl n ↦ absurd (ground arith)
        | inr (m, e) ↦ (sct, d, (m, e, wrap-eq-none "error verifying SCT" _ (ground arith)))
      ]
    ],
    λ (sct, d, (m, e, v)). ground arith,
  )

  -- What is asked of the timestamps: where some are embedded, each is verified; where none is, the
  -- detached one is there and is verified.
  abbrev pub SctsVerified :
      String → Map (LogIdMetadata w) → w.Certificate → w.Certificate → List w.Sct → Type 0
  SctsVerified raw_sct keys cert issuer scts =
      ((scts ≢ []) × All (SctVerified keys (cert ∷ issuer ∷ []) true) scts)
      ⊎ ((scts ≡ [])
          × (raw_sct ≢ "")
          × ((sct : w.Sct) × (detached_sct w raw_sct ≡ ok sct)
              × SctVerified keys (cert ∷ []) false sct))

  check_fwd :
      (raw_sct : String) (keys : Map (LogIdMetadata w)) (cert issuer : w.Certificate)
      (scts : List w.Sct)
      → check_scts w keys cert issuer scts raw_sct ≡ none
      → SctsVerified raw_sct keys cert issuer scts
  unfolding check_scts
  check_fwd raw_sct keys cert issuer [] h = elim (Bool-cases (raw_sct == "")) [
    | inl y ↦ absurd (ground arith)
    | inr n ↦ inr (
      refl,
      ground (arith, eq_iff raw_sct ""),
      (verify_detached_iff keys cert raw_sct).0 (ground arith),
    )
  ]
  check_fwd raw_sct keys cert issuer (s ∷ ss) h =
      inl (λ e. ground arith, (verify_embedded_iff keys cert issuer (s ∷ ss)).0 h)

  check_bwd :
      (raw_sct : String) (keys : Map (LogIdMetadata w)) (cert issuer : w.Certificate)
      (scts : List w.Sct)
      → SctsVerified raw_sct keys cert issuer scts
      → check_scts w keys cert issuer scts raw_sct ≡ none
  unfolding check_scts
  check_bwd raw_sct keys cert issuer [] (inl (n, a)) = absurd (n refl)
  check_bwd raw_sct keys cert issuer [] (inr (e, n, d)) =
      let r = (verify_detached_iff keys cert raw_sct).1 d in ground (arith, eq_iff raw_sct "")
  check_bwd raw_sct keys cert issuer (s ∷ ss) (inl (n, a)) =
      (verify_embedded_iff keys cert issuer (s ∷ ss)).1 a
  check_bwd raw_sct keys cert issuer (s ∷ ss) (inr (e, n, d)) = absurd (ground arith)

  -- A certificate is accepted exactly if the keys, the certificates and the embedded timestamps can
  -- be read, with at least one key and an issuer, and either it embeds timestamps, each of which
  -- a known log's key verifies, or it embeds none and the detached one is there and verified.
  pub verify_sct_iff :
      (cert_pem chain_pem raw_sct : String)
      → (verify_sct w cert_pem chain_pem raw_sct ≡ none) ↔ (
          (i : SctInputs w) × (sct_inputs w cert_pem chain_pem ≡ ok i)
          × SctsVerified raw_sct i.keys i.cert i.issuer i.scts)
  unfolding verify_sct
  verify_sct_iff cert_pem chain_pem raw_sct = (
    λ h. elim (Result-cases (sct_inputs w cert_pem chain_pem)) [
      | inr (x, e) ↦ absurd (ground arith)
      | inl (i, e) ↦ (i, e, check_fwd raw_sct i.keys i.cert i.issuer i.scts (ground arith))
    ],
    λ (i, e, p). let r = check_bwd raw_sct i.keys i.cert i.issuer i.scts p in ground arith,
  )
