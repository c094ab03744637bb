-- ===== src/Blob/Command/Sound.antt =====
-- What success of `cosign verify-blob` guarantees.
use mathlib.Core.List.{Memᴰ}
use cosign.Base.{String, Option, none, some, true, List, [], ◌∷◌}
use cosign.Base.{◌≡◌, refl, ◌⊎◌, inl, inr, arith, Bool-cases, Result-cases}
use cosign.Base.{Result, ok, err, >>=-eq-ok, >>-eq-ok, error_of-eq-none}
use cosign.World.{World}
use cosign.World.Models.{LogEntry}
use cosign.Verify.Cert.{validate_and_unpack_cert}
use cosign.Tlog.{get_tlog_entry}
use cosign.Blob.{KeyOpts, Services}
use cosign.Blob.Inputs.{signatures, payload_bytes, extract_cert, find_tlog_entries_by_payload}
use cosign.Blob.Rekor.{verify_rekor_entry}
use cosign.Base.{false, ◌<>◌}
use cosign.Blob.Inputs.{is_intoto_dsse}
use cosign.Blob.Inputs.Reads.{SignatureOf, BlobOf, signatures-SignatureOf, payload_bytes-BlobOf}
use cosign.Blob.Command.Signers.{
  cert_options, SignerOf, NoSigner, chosen_signer-SignerOf, chosen_signer-none,
}
use cosign.Blob.Command.{
  CertArgs, check_opts, Signer, chosen_signer, verifier_for, verify_with, verify_uuid_entry, is_ok,
  valid_exists, verify_sig_by_uuid, found_some, verify_by_log, verify_chosen, has_source,
  verify_blob_cmd,
}

module _ (w : World) (v : Services w) (ko : KeyOpts) where
  -- The verifier itself, or a wrapped one for a blob that is an in-toto envelope.
  abbrev pub Wrapped : String → w.Verifier → w.Verifier → Type 0
  Wrapped blob verifier wrapped =
      ((is_intoto_dsse w v blob ≡ true) × (wrapped ≡ v.wrap_verifier verifier))
      ⊎ ((is_intoto_dsse w v blob ≡ false) × (wrapped ≡ verifier))

  verifier_for-Wrapped :
      (blob : String) (verifier : w.Verifier)
      → Wrapped blob verifier (verifier_for w v blob verifier)
  unfolding verifier_for
  verifier_for-Wrapped blob verifier = elim (Bool-cases (is_intoto_dsse w v blob)) [
    | inl y ↦ inl (y, ground arith)
    | inr n ↦ inr (n, ground arith)
  ]

  -- The signature is one of the blob, by the signer's verifier, and the check of the log passes.
  abbrev pub IsSigned : String → String → String → Signer w v → Option LogEntry → Type 0
  IsSigned sig b64sig blob (verifier, cert) e =
      (wrapped : w.Verifier) × Wrapped blob verifier wrapped
      × (w.verify_signature wrapped sig blob ≡ none)
      × (verify_rekor_entry w v ko e wrapped cert b64sig blob ≡ none)

  verify_with-IsSigned :
      (sig b64sig blob : String) (s : Signer w v) (e : Option LogEntry)
      → verify_with w v ko sig b64sig blob s e ≡ none
      → IsSigned sig b64sig blob s e
  unfolding verify_with
  verify_with-IsSigned sig b64sig blob (verifier, cert) e h =
      let wrapped = verifier_for w v blob verifier in
      let (u, q) = error_of-eq-none _ h in
      let (s, r) = >>-eq-ok (w.verify_signature wrapped sig blob) _ q in
      let (t, x) = >>-eq-ok (verify_rekor_entry w v ko e wrapped cert b64sig blob) _ r in
      (wrapped, verifier_for-Wrapped blob verifier, s, t)

  -- An entry of the log whose certificate is valid for the built-in roots, and whose key has
  -- signed the blob.
  abbrev pub IsLogged : CertArgs → w.RekorClient → String → String → String → String → Type 0
  IsLogged args client sig b64sig blob uuid =
      (e : LogEntry) × (cert : w.Certificate) × (verifier : w.Verifier) × (get_tlog_entry w client
          uuid
        ≡ ok e)
      × (extract_cert w v e.body ≡ ok cert)
      × (validate_and_unpack_cert w cert
            (cert_options w v args (some v.roots) (some v.intermediates))
          ≡ ok verifier)
      × IsSigned sig b64sig blob (verifier, some cert) (some e)

  verify_uuid_entry-IsLogged :
      (args : CertArgs) (client : w.RekorClient) (sig b64sig blob uuid : String)
      → is_ok w v (verify_uuid_entry w v ko args client sig b64sig blob uuid) ≡ true
      → IsLogged args client sig b64sig blob uuid
  unfolding verify_uuid_entry check_opts
  verify_uuid_entry-IsLogged args client sig b64sig blob uuid h =
      elim (Result-cases (verify_uuid_entry w v ko args client sig b64sig blob uuid)) [
        | inr (x, q) ↦ absurd (let k = rw q at h in ground arith)
        | inl (u, q) ↦
            let (e, g, h₁) = >>=-eq-ok (get_tlog_entry w client uuid) _ q in
            let (cert, c, h₂) = >>=-eq-ok (extract_cert w v e.body) _ h₁ in
            let (verifier, d, h₃) = >>=-eq-ok (validate_and_unpack_cert w cert _) _ h₂ in
            let (s, x) =
              >>-eq-ok (verify_with w v ko sig b64sig blob (verifier, some cert) (some e)) _ h₃ in
            (
              e,
              cert,
              verifier,
              g,
              c,
              d,
              verify_with-IsSigned sig b64sig blob (verifier, some cert) (some e) s,
            )
      ]

  valid_exists-IsLogged :
      (args : CertArgs) (client : w.RekorClient) (sig b64sig blob : String) (uuids : List String)
      → valid_exists w v ko args client sig b64sig blob uuids ≡ true
      → (uuid : String) × Memᴰ uuid uuids × IsLogged args client sig b64sig blob uuid
  unfolding valid_exists
  valid_exists-IsLogged args client sig b64sig blob [] h = cc
  valid_exists-IsLogged args client sig b64sig blob (u ∷ us) h =
      elim (Bool-cases (is_ok w v (verify_uuid_entry w v ko args client sig b64sig blob u))) [
        | inl y ↦ (u, Memᴰ.head refl, verify_uuid_entry-IsLogged args client sig b64sig blob u y)
        | inr n ↦
            let (x, i, l) = valid_exists-IsLogged args client sig b64sig blob us (ground arith) in
            (x, Memᴰ.tail i, l)
      ]

  -- The log has such an entry for the blob.
  abbrev pub IsInLog : CertArgs → String → String → String → Type 0
  IsInLog args sig b64sig blob =
      (client : w.RekorClient) × (uuids : List String) × (uuid : String) × (v.new_client
          ko.rekor_url
        ≡ ok client)
      × (v.search_index client ("sha256:" <> w.hex_encode (w.sha256 blob)) ≡ ok uuids)
      × Memᴰ uuid uuids
      × IsLogged args client sig b64sig blob uuid

  verify_by_log-IsInLog :
      (args : CertArgs) (sig b64sig blob : String)
      → verify_by_log w v ko args sig b64sig blob ≡ none
      → IsInLog args sig b64sig blob
  unfolding verify_by_log verify_sig_by_uuid find_tlog_entries_by_payload
  verify_by_log-IsInLog args sig b64sig blob h =
      let (u, q) = error_of-eq-none _ h in
      let (client, c, h₁) = >>=-eq-ok (v.new_client ko.rekor_url) _ q in
      let (uuids, f, h₂) = >>=-eq-ok (find_tlog_entries_by_payload w v client blob) _ h₁ in
      let (n, h₃) = >>-eq-ok (found_some w v uuids) _ h₂ in
      let (s, x) = >>-eq-ok (verify_sig_by_uuid w v ko args client sig b64sig blob uuids) _ h₃ in
      let yes_there : valid_exists w v ko args client sig b64sig blob uuids ≡ true =
        elim (Bool-cases (valid_exists w v ko args client sig b64sig blob uuids)) [
          | inl y ↦ y
          | inr n' ↦ absurd (ground arith)
        ] in
      let (uuid, i, l) = valid_exists-IsLogged args client sig b64sig blob uuids yes_there in
      (client, uuids, uuid, c, f, i, l)

  -- Success by the signer that the options choose, or by the log where they choose none.
  abbrev pub IsVerified : CertArgs → String → String → String → Type 0
  IsVerified args sig b64sig blob =
      ((signer : Signer w v) × SignerOf w v ko args signer × IsSigned sig b64sig blob signer none)
      ⊎ (NoSigner w v ko args × (v.is_experimental ≡ true) × IsInLog args sig b64sig blob)

  verify_chosen-IsVerified :
      (args : CertArgs) (sig b64sig blob : String) (chosen : Option (Result (Signer w v)))
      → chosen_signer w v ko args ≡ chosen
      → verify_chosen w v ko args sig b64sig blob chosen ≡ none
      → IsVerified args sig b64sig blob
  unfolding verify_chosen
  verify_chosen-IsVerified args sig b64sig blob (some (err e)) c h = cc
  verify_chosen-IsVerified args sig b64sig blob (some (ok signer)) c h = inl (
    signer,
    chosen_signer-SignerOf w v ko args signer c,
    verify_with-IsSigned sig b64sig blob signer none h,
  )
  verify_chosen-IsVerified args sig b64sig blob none c h = elim (Bool-cases v.is_experimental) [
    | inl y ↦ inr (
      chosen_signer-none w v ko args c,
      y,
      verify_by_log-IsInLog args sig b64sig blob (simp y at h),
    )
    | inr n ↦ absurd (ground arith)
  ]

  -- Where `cosign verify-blob` succeeds, the signature is read from the flag's file, the flag itself
  -- or the bundle, and the blob from its file or the standard input, and: either the signature is one of the blob by the first of these that is given, the key of the reference, that
  -- on the token, that of the certificate (checked with the chain where one is given) or that in the
  -- bundle; or none of them is given, the experimental features are on, and the log has an entry for
  -- the blob, with a certificate that is valid for the built-in roots and whose key has signed it.
  -- The check of the log's entry passes.
  pub verify_blob_cmd_sound :
      (args : CertArgs) (sig_ref blob_ref : String)
      → verify_blob_cmd w v ko args sig_ref blob_ref ≡ none
      → (sig : String) × (b64sig : String) × (blob : String) × SignatureOf w v sig_ref
          ko.bundle_path sig b64sig
        × BlobOf w v blob_ref blob
        × IsVerified args sig b64sig blob
  unfolding verify_blob_cmd
  verify_blob_cmd_sound args sig_ref blob_ref h = elim (Bool-cases (has_source w v ko args)) [
    | inr n ↦ absurd (ground arith)
    | inl y ↦
        let (u, q) = error_of-eq-none _ (rw y at h) in
        let (both, s, h₁) = >>=-eq-ok (signatures w v sig_ref ko.bundle_path) _ q in
        let (blob, b, h₂) = >>=-eq-ok (payload_bytes w v blob_ref) _ h₁ in
        let (c, x) =
          >>-eq-ok (verify_chosen w v ko args both.0 both.1 blob (chosen_signer w v ko args)) _
            h₂ in
        (
          both.0,
          both.1,
          blob,
          signatures-SignatureOf w v sig_ref ko.bundle_path both s,
          payload_bytes-BlobOf w v blob_ref blob b,
          verify_chosen-IsVerified args both.0 both.1 blob (chosen_signer w v ko args) refl c,
        )
  ]
