-- ===== src/Blob/Rekor/Ignored.antt =====
-- When the check of the transparency log passes: also where the log's entry is not valid.
use cosign.Base.{String, Option, none, some, true, false}
use cosign.Base.{◌≡◌, refl, ◌⊎◌, inl, inr, ◌↔◌, arith, Bool-cases}
use cosign.Base.{Error, Result, ok, err}
use cosign.Base.{
  ◌≢◌, ◌==◌, eq_iff, sym, Option-cases, >>=-eq-ok, >>-eq-ok, error_of-eq-none, wrap_result-eq-ok,
}
use cosign.Base.Int.{ℤ, ◌≤ℤ◌}
use cosign.Base.Maps.{Map, lookup}
use cosign.Verify.{RekorBundle}
use cosign.Verify.Cert.Accepts.{check_expiry_iff}
use cosign.Tlog.{RekorPubKey, get_rekor_pubs, key_for, find_tlog_entry}
use cosign.Tlog.Accepts.{Signs, verify_set_iff, key_for-ok, key_for-eq}
use cosign.Blob.Inputs.{fetch_local_signed_payload}
use cosign.World.{World}
use cosign.World.Models.{LogEntry}
use cosign.Tlog.{verify_tlog_entry, compute_leaf_hash}
use cosign.Blob.{KeyOpts, LocalSignedPayload, Services}
use cosign.Blob.Rekor.{
  some_bundle, search_key, verify_rekor_bundle, expiry_of, verified_offline, entry_of,
  leaf_and_expiry, after_log, check_online, with_client, verify_rekor_entry,
}

module _ (w : World) (v : Services w) where
  -- The time lies in the validity of the certificate, if there is one.
  abbrev pub InTime : Option w.Certificate → ℤ → Type 0
  InTime none time = Unit
  InTime (some cert) time = (w.not_before cert ≤ℤ time) × (time ≤ℤ w.not_after cert)

  expiry_of_iff :
      (cert : Option w.Certificate) (time : ℤ) → (expiry_of w v cert time ≡ none) ↔ InTime cert time
  unfolding expiry_of
  expiry_of_iff none time = (λ h. tt, λ h. refl)
  expiry_of_iff (some cert) time = check_expiry_iff w cert time

  -- The bundle in the file is signed by a trusted key of its log, within the certificate's time.
  -- Neither the blob nor the signature takes part.
  abbrev pub VerifiesOffline : KeyOpts → Option w.Certificate → Type 0
  VerifiesOffline ko cert =
      (ko.bundle_path ≢ "")
      × ((contents : String) × (local : LocalSignedPayload) × (b : RekorBundle) × (keys : Map
            (RekorPubKey w))
          × (key : RekorPubKey w) × (w.read_file ko.bundle_path ≡ ok contents)
          × (v.unmarshal_local_payload contents ≡ ok local)
          × (local.bundle ≡ some b)
          × (get_rekor_pubs w ≡ ok keys)
          × (lookup b.payload.log_id keys ≡ some key)
          × Signs w b.payload.body b.payload.integrated_time b.payload.log_index b.payload.log_id
              b.signed_entry_timestamp key.pub_key
          × InTime cert b.payload.integrated_time)

  some_bundle-ok :
      (o : Option RekorBundle) (b : RekorBundle) → some_bundle w v o ≡ ok b → o ≡ some b
  some_bundle-ok none b h = absurd (ground arith)
  some_bundle-ok (some c) b h = ground arith

  verified_offline_iff :
      (ko : KeyOpts) (cert : Option w.Certificate)
      → (verified_offline w v ko cert ≡ true) ↔ VerifiesOffline ko cert
  unfolding verified_offline verify_rekor_bundle fetch_local_signed_payload
  verified_offline_iff ko cert = (
    λ h.
        let given : ko.bundle_path ≢ "" = ground (arith, eq_iff ko.bundle_path "") in
        let none_of : verify_rekor_bundle w v ko.bundle_path cert ≡ none =
          elim (Option-cases (verify_rekor_bundle w v ko.bundle_path cert)) [
            | inl n ↦ n
            | inr (x, n) ↦ absurd (let k = simp n at h in ground arith)
          ] in
        let (u, q) = error_of-eq-none _ none_of in
        let (local, f, h₁) = >>=-eq-ok (fetch_local_signed_payload w v ko.bundle_path) _ q in
        let (contents, r, f₁) = >>=-eq-ok _ _ f in
        let (b, s, h₂) = >>=-eq-ok (some_bundle w v local.bundle) _ h₁ in
        let (keys, t, h₃) = >>=-eq-ok _ _ h₂ in
        let (key, k, h₄) = >>=-eq-ok (key_for w b.payload.log_id keys) _ h₃ in
        let (x, h₅) = >>-eq-ok _ _ h₄ in
        let (y, _) = >>-eq-ok (expiry_of w v cert b.payload.integrated_time) _ h₅ in
        (
          given,
          (
            contents,
            local,
            b,
            keys,
            key,
            wrap_result-eq-ok _ _ r,
            f₁,
            some_bundle-ok local.bundle b s,
            wrap_result-eq-ok _ _ t,
            key_for-ok w b.payload.log_id keys key k,
            (verify_set_iff w _ _ _ _ _ _).0 x,
            (expiry_of_iff cert _).0 y,
          ),
        ),
    λ (given, (contents, local, b, keys, key, r, f, s, t, k, x, y)).
        let here : (ko.bundle_path == "") ≡ false = ground (arith, eq_iff ko.bundle_path "") in
        simp (
          here,
          r,
          f,
          s,
          t,
          key_for-eq w b.payload.log_id keys key k,
          (verify_set_iff w _ _ _ _ _ _).1 x,
          (expiry_of_iff cert b.payload.integrated_time).1 y,
        ),
  )

  -- What becomes of an entry: it is not valid, or it is, and the certificate was valid when it was
  -- made.
  abbrev pub Logged : Option w.Certificate → w.RekorClient → LogEntry → Type 0
  Logged cert client e =
      ((x : Error) × (verify_tlog_entry w client e ≡ some x))
      ⊎ ((verify_tlog_entry w client e ≡ none)
          × ((uuid : String) × (compute_leaf_hash w e ≡ ok uuid))
          × InTime cert e.integrated_time)

  leaf_and_expiry_iff :
      (cert : Option w.Certificate) (e : LogEntry) (r : Result String)
      → (leaf_and_expiry w v cert e r ≡ none)
        ↔ (((uuid : String) × (r ≡ ok uuid)) × InTime cert e.integrated_time)
  unfolding leaf_and_expiry
  leaf_and_expiry_iff cert e (err x) = (λ h. cc, λ ((uuid, q), t). cc)
  leaf_and_expiry_iff cert e (ok uuid) =
      let (fwd, bwd) = expiry_of_iff cert e.integrated_time in
      (λ h. ((uuid, refl), fwd h), λ (u, t). bwd t)

  after_log_iff :
      (cert : Option w.Certificate) (client : w.RekorClient) (e : LogEntry) (o : Option Error)
      → verify_tlog_entry w client e ≡ o
      → (after_log w v cert e o ≡ none) ↔ Logged cert client e
  unfolding after_log
  after_log_iff cert client e (some x) q = (λ h. inl (x, q), λ h. refl)
  after_log_iff cert client e none q =
      let leaf = leaf_and_expiry_iff cert e (compute_leaf_hash w e) in
      (
        λ h. let (u, t) = leaf.0 h in inr (q, u, t),
        λ l. elim l [ inl (x, y) ↦ absurd (ground arith) | inr (n, u, t) ↦ leaf.1 (u, t) ],
      )

  -- What the log is searched with: the certificate, or else the public key.
  abbrev pub SearchedBy : Option w.Certificate → String → String → Type 0
  SearchedBy none pem key = key ≡ pem
  SearchedBy (some cert) pem key = w.marshal_certificate_to_pem (some cert) ≡ ok key

  -- The caller's entry, or else the one that the log has for the signature and the blob.
  abbrev pub IsFrom :
      w.RekorClient
      → Option LogEntry
      → w.Verifier
      → Option w.Certificate
      → String
      → String
      → LogEntry
      → Type 0
  IsFrom client (some e) pub_key cert b64sig blob entry = entry ≡ e
  IsFrom client none pub_key cert b64sig blob entry =
      (pem : String) × (key : String) × (v.public_key_pem pub_key ≡ ok pem)
      × SearchedBy cert pem key
      × (find_tlog_entry w client b64sig blob key ≡ ok entry)

  entry_of_iff :
      (client : w.RekorClient) (e : Option LogEntry) (pub_key : w.Verifier)
      (cert : Option w.Certificate) (b64sig blob : String) (entry : LogEntry)
      → (entry_of w v client e pub_key cert b64sig blob ≡ ok entry)
        ↔ IsFrom client e pub_key cert b64sig blob entry
  unfolding entry_of search_key
  entry_of_iff client (some e) pub_key cert b64sig blob entry = (λ h. ground arith, λ h. simp h)
  entry_of_iff client none pub_key none b64sig blob entry = (
    λ h. let (pem, p, h₁) = >>=-eq-ok (v.public_key_pem pub_key) _ h in (pem, pem, p, refl, h₁),
    λ (pem, key, p, s, f). simp (p, sym s, f),
  )
  entry_of_iff client none pub_key (some cert) b64sig blob entry = (
    λ h.
        let (key, s, h₁) = >>=-eq-ok _ _ h in
        let (pem, p, h₂) = >>=-eq-ok (v.public_key_pem pub_key) _ s in (pem, key, p, h₂, h₁),
    λ (pem, key, p, s, f). simp (p, s, f),
  )

  -- The entry is to be had, from the caller or from the log.
  abbrev pub Obtained :
      KeyOpts → Option LogEntry → w.Verifier → Option w.Certificate → String → String → Type 0
  Obtained ko e pub_key cert b64sig blob =
      (client : w.RekorClient) × (entry : LogEntry) × (v.new_client ko.rekor_url ≡ ok client)
      × IsFrom client e pub_key cert b64sig blob entry
      × Logged cert client entry

  check_online_iff :
      (cert : Option w.Certificate) (client : w.RekorClient) (r : Result LogEntry)
      → (check_online w v cert client r ≡ none)
        ↔ ((entry : LogEntry) × (r ≡ ok entry) × Logged cert client entry)
  unfolding check_online
  check_online_iff cert client (err x) = (λ h. cc, λ (entry, q, l). cc)
  check_online_iff cert client (ok entry) =
      let log = after_log_iff cert client entry (verify_tlog_entry w client entry) refl in
      (
        λ h. (entry, refl, log.0 h),
        λ (other, q, l). let same : other ≡ entry = ground arith in log.1 (rw same at l),
      )

  with_client_iff :
      (ko : KeyOpts) (e : Option LogEntry) (pub_key : w.Verifier) (cert : Option w.Certificate)
      (b64sig blob : String) (r : Result w.RekorClient)
      → v.new_client ko.rekor_url ≡ r
      → (with_client w v r e pub_key cert b64sig blob ≡ none)
        ↔ Obtained ko e pub_key cert b64sig blob
  unfolding with_client
  with_client_iff ko e pub_key cert b64sig blob (err x) q =
      (λ h. cc, λ (client, entry, c, n, l). absurd (ground arith))
  with_client_iff ko e pub_key cert b64sig blob (ok client) q =
      let entry = check_online_iff cert client (entry_of w v client e pub_key cert b64sig blob) in
      (
        λ h.
            let (x, n, l) = entry.0 h in
            (client, x, q, (entry_of_iff client e pub_key cert b64sig blob x).0 n, l),
        λ (other, x, c, n, l).
            let same : other ≡ client = ground arith in
            entry.1 (
              x,
              (entry_of_iff client e pub_key cert b64sig blob x).1 (rw same at n),
              rw same at l,
            ),
      )

  -- The check of the log's entry passes exactly where: a bundle is given, of which a trusted key of
  -- its log signs the payload, within the time of a certificate, whatever the blob and the signature
  -- are; or the experimental features are off, whatever the bundle is; or the log can be asked and
  -- an entry is had, from the caller or by a search, which either is not valid, or is valid with a
  -- leaf hash and, of a certificate, within its time.
  pub verify_rekor_entry_iff :
      (ko : KeyOpts) (e : Option LogEntry) (pub_key : w.Verifier) (cert : Option w.Certificate)
      (b64sig blob : String)
      → (verify_rekor_entry w v ko e pub_key cert b64sig blob ≡ none) ↔ (
          VerifiesOffline ko cert
          ⊎ (v.is_experimental ≡ false)
          ⊎ Obtained ko e pub_key cert b64sig blob)
  unfolding verify_rekor_entry
  verify_rekor_entry_iff ko e pub_key cert b64sig blob =
      let log = with_client_iff ko e pub_key cert b64sig blob _ refl in
      let offline = verified_offline_iff ko cert in
      elim (Bool-cases (verified_offline w v ko cert)) [
        | inl y ↦ (λ h. inl (offline.0 y), λ h. ground arith)
        | inr n ↦ elim (Bool-cases v.is_experimental) [
          | inr off ↦ (λ h. inr (inl off), λ h. ground arith)
          | inl on ↦
              simp (n, on)
                (
                  λ h. inr (inr (log.0 h)),
                  λ x. elim x [
                    | inl y ↦ absurd (let q = offline.1 y in ground arith)
                    | inr (inl off) ↦ absurd (ground arith)
                    | inr (inr o) ↦ log.1 o
                  ],
                )
        ]
      ]
