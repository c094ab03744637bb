-- ===== src/Tlog/Accepts.antt =====
-- When VerifyTLogEntry of pkg/cosign/tlog.go accepts an entry of the log.
use cosign.Base.{String, Option, none, some, true, ◌==◌, eq_iff, ◌≢◌, ◌⊎◌, Bool-cases, Result-cases}
use cosign.Base.{◌≡◌, ◌↔◌, inl, inr, arith}
use cosign.Base.{wrap-eq-none, wrap_result-eq-ok, ok}
use cosign.Base.{>>=-eq-ok, >>-eq-ok, error_of-eq-none, Option-cases}
use cosign.Base.Int.{ℤ}
use cosign.Base.Lists.{map}
use cosign.Base.Maps.{Map, lookup, insert}
use cosign.World.{World}
use cosign.World.Models.{LogEntry, Verification, InclusionProof, active}
use cosign.Tlog.{
  pem_to_ecdsa_key, get_log_id, RekorPubKey, get_rekor_pubs, add_api_key, key_for, verify_set,
  check_log_entry, proof_of, verify_tlog_entry,
}

module _ (w : World) where
  -- The leaf of the entry's body is in the tree with the proof's root.
  abbrev pub Included : LogEntry → InclusionProof → Type 0
  Included e p =
      (bytes : String) × (w.base64_decode e.body ≡ ok bytes)
      × (w.verify_inclusion_proof p.log_index p.tree_size (map w.hex_decode p.hashes)
            (w.hex_decode p.root_hash) (w.hash_leaf bytes)
          ≡ none)

  -- The keys that are used beside the trusted ones: the server's own, but only where the
  -- environment asks for it.
  abbrev pub WithServerKey : w.RekorClient → Map (RekorPubKey w) → Map (RekorPubKey w) → Type 0
  WithServerKey client trusted keys =
      ((w.getenv "SIGSTORE_TRUST_REKOR_API_PUBLIC_KEY" ≡ "") × (keys ≡ trusted))
      ⊎ ((w.getenv "SIGSTORE_TRUST_REKOR_API_PUBLIC_KEY" ≢ "")
          × ((pem : String) × (key : w.EcdsaKey) × (id : String) × (w.get_public_key client
                ≡ ok pem)
              × (pem_to_ecdsa_key w pem ≡ ok key)
              × (get_log_id w (w.from_ecdsa key) ≡ ok id)
              × (keys ≡ insert id (record { pub_key = key; status = active }) trusted)))

  -- The key signs the canonical JSON of body, time, index and log ID.
  abbrev pub Signs : String → ℤ → ℤ → String → String → w.EcdsaKey → Type 0
  Signs body time index id signature key =
      (contents : String) × (canonical : String) × (w.marshal_rekor_payload body time index id
        ≡ ok contents)
      × (w.canonicalize contents ≡ ok canonical)
      × (w.verify_asn1 key (w.sha256 canonical) signature ≡ true)

  -- A key of the log that the entry names signs the entry's timestamp.
  abbrev pub Timestamped : w.RekorClient → LogEntry → Verification → Type 0
  Timestamped client e v =
      (trusted : Map (RekorPubKey w)) × (keys : Map (RekorPubKey w)) × (key : RekorPubKey w)
      × (get_rekor_pubs w ≡ ok trusted)
      × WithServerKey client trusted keys
      × (lookup e.log_id keys ≡ some key)
      × Signs e.body e.integrated_time e.log_index e.log_id v.signed_entry_timestamp key.pub_key

  add_api_key_iff :
      (client : w.RekorClient) (trusted keys : Map (RekorPubKey w))
      → (add_api_key w client trusted ≡ ok keys) ↔ WithServerKey client trusted keys
  unfolding add_api_key
  add_api_key_iff client trusted keys =
      elim (Bool-cases (w.getenv "SIGSTORE_TRUST_REKOR_API_PUBLIC_KEY" == "")) [
        | inl y ↦
            let off = (eq_iff _ _).0 y in
            (
              λ h. inl (off, ground arith),
              λ x. elim x [ inl (_, e) ↦ ground arith | inr (on, _) ↦ absurd (on off) ],
            )
        | inr n ↦
            let on : w.getenv "SIGSTORE_TRUST_REKOR_API_PUBLIC_KEY" ≢ "" =
              λ e. let q = (eq_iff _ _).1 e in ground arith in
            (
              λ h.
                  let (pem, p, h₁) = >>=-eq-ok _ _ (simp n at h) in
                  let (key, k, h₂) = >>=-eq-ok _ _ h₁ in
                  let (id, i, h₃) = >>=-eq-ok _ _ h₂ in
                  inr (
                    on,
                    (
                      pem,
                      key,
                      id,
                      wrap_result-eq-ok _ _ p,
                      wrap_result-eq-ok _ _ k,
                      wrap_result-eq-ok _ _ i,
                      ground arith,
                    ),
                  ),
              λ x. elim x [
                | inl (off, _) ↦ absurd (on off)
                | inr (_, (pem, key, id, p, k, i, e)) ↦ simp (n, p, k, i, e)
              ],
            )
      ]

  pub verify_set_iff :
      (body : String) (time index : ℤ) (id signature : String) (key : w.EcdsaKey)
      → (verify_set w body time index id signature key ≡ none)
        ↔ Signs body time index id signature key
  unfolding verify_set
  verify_set_iff body time index id signature key = (
    λ h. elim (Result-cases (w.marshal_rekor_payload body time index id)) [
      | inr (x, m) ↦ absurd (ground arith)
      | inl (contents, m) ↦ elim (Result-cases (w.canonicalize contents)) [
        | inr (x, c) ↦ absurd (ground arith)
        | inl (canonical, c) ↦ (contents, canonical, m, c, ground arith)
      ]
    ],
    λ (contents, canonical, m, c, s). ground (arith, m, c, s),
  )

  pub key_for-ok :
      (id : String) (keys : Map (RekorPubKey w)) (key : RekorPubKey w)
      → key_for w id keys ≡ ok key
      → lookup id keys ≡ some key
  unfolding key_for
  key_for-ok id keys key h = elim (Option-cases (lookup id keys)) [
    | inl n ↦ absurd (ground arith)
    | inr (k, e) ↦ ground arith
  ]

  pub key_for-eq :
      (id : String) (keys : Map (RekorPubKey w)) (key : RekorPubKey w)
      → lookup id keys ≡ some key
      → key_for w id keys ≡ ok key
  unfolding key_for
  key_for-eq id keys key h = ground arith

  check_log_entry_sound :
      (client : w.RekorClient) (e : LogEntry) (v : Verification) (p : InclusionProof)
      → check_log_entry w client e v p ≡ none
      → Included e p × Timestamped client e v
  unfolding check_log_entry
  check_log_entry_sound client e v p h =
      let (u, h0) = error_of-eq-none _ h in
      let (bytes, d, h1) = >>=-eq-ok (w.base64_decode e.body) _ h0 in
      let (i, h2) = >>-eq-ok _ _ h1 in
      let (trusted, t, h3) = >>=-eq-ok _ _ h2 in
      let (keys, a, h4) = >>=-eq-ok (add_api_key w client trusted) _ h3 in
      let (key, k, h5) = >>=-eq-ok (key_for w e.log_id keys) _ h4 in
      let (s, _) = >>-eq-ok _ _ h5 in
      (
        (bytes, d, wrap-eq-none _ _ i),
        (
          trusted,
          keys,
          key,
          wrap_result-eq-ok _ _ t,
          (add_api_key_iff client trusted keys).0 a,
          key_for-ok e.log_id keys key k,
          (verify_set_iff _ _ _ _ _ _).0 (wrap-eq-none _ _ s),
        ),
      )

  check_log_entry_complete :
      (client : w.RekorClient) (e : LogEntry) (v : Verification) (p : InclusionProof)
      → Included e p
      → Timestamped client e v
      → check_log_entry w client e v p ≡ none
  unfolding check_log_entry
  check_log_entry_complete client e v p (bytes, d, i) (trusted, keys, key, t, a, k, s) = simp (
    d,
    i,
    t,
    (add_api_key_iff client trusted keys).1 a,
    key_for-eq e.log_id keys key k,
    (verify_set_iff _ _ _ _ _ _).1 s,
  )

  proof_of-some :
      (o : Option Verification) (v : Verification) (p : InclusionProof)
      → (proof_of w o ≡ some (v, p)) ↔ ((o ≡ some v) × (v.inclusion_proof ≡ some p))
  unfolding proof_of
  proof_of-some none v p = (λ h. absurd (ground arith), λ h. absurd (ground arith))
  proof_of-some (some u) v p = elim (Option-cases u.inclusion_proof) [
    | inl n ↦ (λ h. absurd (ground arith), λ (e, i). ground arith)
    | inr (q, n) ↦ (λ h. (ground arith, ground arith), λ (e, i). ground arith)
  ]

  -- An entry is accepted exactly if it comes with an inclusion proof, the proof holds for its body,
  -- and a key of the log it names, trusted or, only where the environment asks for it, handed out by
  -- the server, signs the canonical JSON of the entry as its timestamp.
  pub verify_tlog_entry_iff :
      (client : w.RekorClient) (e : LogEntry)
      → (verify_tlog_entry w client e ≡ none) ↔ (
          (v : Verification) × (p : InclusionProof) × (e.verification ≡ some v)
          × (v.inclusion_proof ≡ some p)
          × Included e p
          × Timestamped client e v)
  unfolding verify_tlog_entry
  verify_tlog_entry_iff client e = (
    λ h. elim (Option-cases (proof_of w e.verification)) [
      | inl n ↦ absurd (ground arith)
      | inr ((v, p), n) ↦
          let (a, b) = (proof_of-some e.verification v p).0 n in
          let (i, t) = check_log_entry_sound client e v p (ground arith) in (v, p, a, b, i, t)
    ],
    λ (v, p, a, b, i, t).
        let n = (proof_of-some e.verification v p).1 (a, b) in
        let c = check_log_entry_complete client e v p i t in ground arith,
  )
