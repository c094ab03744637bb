-- ===== src/Blob/Command/Signers.antt =====
-- Whose key `cosign verify-blob` takes: the switch of VerifyBlobCmd, in
-- cmd/cosign/cli/verify/verify_blob.go.
use cosign.Base.{String, Option, none, some, true, false, ◌==◌, List}
use cosign.Base.{◌≡◌, ◌≢◌, refl, ◌⊎◌, inl, inr, arith, eq_iff, Bool-cases}
use cosign.Base.{wrap_result, Error, Result, ok, err, >>=-eq-ok, wrap_result-eq-ok}
use cosign.Base.{[]}
use cosign.World.{World}
use cosign.Verify.{CheckOpts}
use cosign.Verify.Cert.{validate_and_unpack_cert_with_chain}
use cosign.Blob.{KeyOpts, LocalSignedPayload, Services}
use cosign.Blob.Inputs.{
  decoded_or, load_cert_from_pem, load_cert_from_file_or_url, load_cert_chain_from_file_or_url,
  fetch_local_signed_payload,
}
use cosign.Blob.Command.{
  CertArgs, check_opts, Signer, key_signer, token_signer, cert_verifier, cert_signer, bundle_key,
  bundle_signer, chosen_signer,
}

module _ (w : World) (v : Services w) where
  -- The options that a certificate is checked by: those of the arguments, and these pools.
  abbrev pub cert_options :
      CertArgs → Option (List w.Certificate) → Option (List w.Certificate) → CheckOpts w
  cert_options args roots intermediates = record {
    annotations = none;
    claim_verifier = none;
    rekor_client = none;
    sig_verifier = none;
    root_certs = roots;
    intermediate_certs = intermediates;
    cert_email = args.cert_email;
    cert_oidc_issuer = args.cert_oidc_issuer;
    enforce_sct = args.enforce_sct;
    signature_ref = "";
    identities = [];
  }

  -- The key of the reference.
  abbrev pub ByKey : KeyOpts → Signer w v → Type 0
  ByKey ko (verifier, cert) = (v.public_key_from_key_ref ko.key_ref ≡ ok verifier) × (cert ≡ none)

  -- The key on the token in the slot.
  abbrev pub ByToken : KeyOpts → Signer w v → Type 0
  ByToken ko (verifier, cert) =
      (token : v.Token) × (v.get_key_with_slot ko.slot ≡ ok token)
      × (v.token_verifier token ≡ ok verifier)
      × (cert ≡ none)

  -- The key of the certificate in the file: as it is where no chain is given, and else by the
  -- checks of the certificate with the chain.
  abbrev pub ByCert : CertArgs → Signer w v → Type 0
  ByCert args (verifier, cert) =
      (c : w.Certificate) × (load_cert_from_file_or_url w v args.cert_ref ≡ ok c)
      × (cert ≡ some c)
      × (((args.cert_chain ≡ "") × (w.load_verifier (w.public_key c) ≡ ok verifier))
          ⊎ ((args.cert_chain ≢ "")
              × ((chain : List w.Certificate) × (load_cert_chain_from_file_or_url w v
                      args.cert_chain
                    ≡ ok chain)
                  × ((validate_and_unpack_cert_with_chain w c chain
                        (check_opts w v args none none)).0
                      ≡ ok verifier))))

  -- The key of the certificate in the bundle, or the key that is there in place of a certificate.
  abbrev pub ByBundle : KeyOpts → Signer w v → Type 0
  ByBundle ko (verifier, cert) =
      (contents : String) × (local : LocalSignedPayload) × (w.read_file ko.bundle_path
        ≡ ok contents)
      × (v.unmarshal_local_payload contents ≡ ok local)
      × (local.cert ≢ "")
      × (((c : w.Certificate) × (load_cert_from_pem w v
                (decoded_or local.cert (w.base64_decode local.cert))
              ≡ ok c)
            × (w.load_verifier (w.public_key c) ≡ ok verifier)
            × (cert ≡ some c))
          ⊎ ((x : Error) × (load_cert_from_pem w v
                  (decoded_or local.cert (w.base64_decode local.cert))
                ≡ err x)
              × (v.load_public_key_raw (decoded_or local.cert (w.base64_decode local.cert))
                  ≡ ok verifier)
              × (cert ≡ none)))

  -- The first of the four that is given decides.
  abbrev pub SignerOf : KeyOpts → CertArgs → Signer w v → Type 0
  SignerOf ko args s =
      ((ko.key_ref ≢ "") × ByKey ko s)
      ⊎ ((ko.key_ref ≡ "") × (ko.sk ≡ true) × ByToken ko s)
      ⊎ ((ko.key_ref ≡ "") × (ko.sk ≡ false) × (args.cert_ref ≢ "") × ByCert args s)
      ⊎ ((ko.key_ref ≡ "")
          × (ko.sk ≡ false)
          × (args.cert_ref ≡ "")
          × (ko.bundle_path ≢ "")
          × ByBundle ko s)

  -- None of the four is given.
  abbrev pub NoSigner : KeyOpts → CertArgs → Type 0
  NoSigner ko args =
      (ko.key_ref ≡ "") × (ko.sk ≡ false) × (args.cert_ref ≡ "") × (ko.bundle_path ≡ "")

  key_signer_sound : (ko : KeyOpts) (s : Signer w v) → key_signer w v ko.key_ref ≡ ok s → ByKey ko s
  unfolding key_signer
  key_signer_sound ko (verifier, cert) h =
      let (k, p, h₁) = >>=-eq-ok (wrap_result _ (v.public_key_from_key_ref ko.key_ref)) _ h in
      let q = wrap_result-eq-ok _ _ p in (ground arith, ground arith)

  token_signer_sound :
      (ko : KeyOpts) (s : Signer w v) → token_signer w v ko.slot ≡ ok s → ByToken ko s
  unfolding token_signer
  token_signer_sound ko (verifier, cert) h =
      let (token, p, h₁) = >>=-eq-ok (wrap_result _ (v.get_key_with_slot ko.slot)) _ h in
      let (k, q, h₂) = >>=-eq-ok (wrap_result _ (v.token_verifier token)) _ h₁ in
      let r = wrap_result-eq-ok _ _ q in
      (token, wrap_result-eq-ok _ _ p, ground arith, ground arith)

  cert_signer_sound :
      (args : CertArgs) (s : Signer w v) → cert_signer w v args ≡ ok s → ByCert args s
  unfolding cert_signer cert_verifier check_opts
  cert_signer_sound args (verifier, cert) h =
      let (c, p, h₁) = >>=-eq-ok (load_cert_from_file_or_url w v args.cert_ref) _ h in
      let (k, q, h₂) = >>=-eq-ok (cert_verifier w v args c) _ h₁ in
      let same : k ≡ verifier = ground arith in
      (
        c,
        p,
        ground arith,
        elim (Bool-cases (args.cert_chain == "")) [
          | inl y ↦ inl ((eq_iff args.cert_chain "").0 y, rw same at simp y at q)
          | inr n ↦
              let (chain, l, u) =
                >>=-eq-ok (load_cert_chain_from_file_or_url w v args.cert_chain) _ (simp n at q) in
              inr (ground (arith, eq_iff args.cert_chain ""), (chain, l, rw same at u))
        ],
      )

  -- What a text gives that is a certificate, or is not.
  abbrev KeyOf : String → Result w.Certificate → Signer w v → Type 0
  KeyOf text (ok c) (verifier, cert) =
      (w.load_verifier (w.public_key c) ≡ ok verifier) × (cert ≡ some c)
  KeyOf text (err x) (verifier, cert) = (v.load_public_key_raw text ≡ ok verifier) × (cert ≡ none)

  bundle_key_sound :
      (text : String) (r : Result w.Certificate) (s : Signer w v)
      → bundle_key w v text r ≡ ok s
      → KeyOf text r s
  unfolding bundle_key
  bundle_key_sound text (ok c) (verifier, cert) h =
      let (k, q, x) = >>=-eq-ok (w.load_verifier (w.public_key c)) _ h in
      (ground arith, ground arith)
  bundle_key_sound text (err e) (verifier, cert) h =
      let (k, q, x) = >>=-eq-ok (v.load_public_key_raw text) _ h in (ground arith, ground arith)

  KeyOf-ByBundle :
      (text : String) (r : Result w.Certificate) (verifier : w.Verifier)
      (cert : Option w.Certificate)
      → KeyOf text r (verifier, cert)
      → ((c : w.Certificate) × (r ≡ ok c)
          × (w.load_verifier (w.public_key c) ≡ ok verifier)
          × (cert ≡ some c))
        ⊎ ((x : Error) × (r ≡ err x) × (v.load_public_key_raw text ≡ ok verifier) × (cert ≡ none))
  KeyOf-ByBundle text (ok c) verifier cert (l, e) = inl (c, refl, l, e)
  KeyOf-ByBundle text (err x) verifier cert (l, e) = inr (x, refl, l, e)

  bundle_signer_sound :
      (ko : KeyOpts) (s : Signer w v) → bundle_signer w v ko.bundle_path ≡ ok s → ByBundle ko s
  unfolding bundle_signer fetch_local_signed_payload
  bundle_signer_sound ko (verifier, cert) h =
      let (local, p, h₁) = >>=-eq-ok (fetch_local_signed_payload w v ko.bundle_path) _ h in
      let (contents, r, u) = >>=-eq-ok (wrap_result _ (w.read_file ko.bundle_path)) _ p in
      elim (Bool-cases (local.cert == "")) [
        | inl y ↦ absurd (let k = simp y at h₁ in ground arith)
        | inr n ↦ (
          contents,
          local,
          wrap_result-eq-ok _ _ r,
          u,
          ground (arith, eq_iff local.cert ""),
          KeyOf-ByBundle _ _ verifier cert (
              bundle_key_sound (decoded_or local.cert (w.base64_decode local.cert)) _
                (verifier, cert) (simp n at h₁)),
        )
      ]

  pub chosen_signer-SignerOf :
      (ko : KeyOpts) (args : CertArgs) (s : Signer w v)
      → chosen_signer w v ko args ≡ some (ok s)
      → SignerOf ko args s
  unfolding chosen_signer
  chosen_signer-SignerOf ko args s h = elim (Bool-cases (ko.key_ref == "")) [
    | inr n ↦ inl (ground (arith, eq_iff ko.key_ref ""), key_signer_sound ko s (ground arith))
    | inl y ↦ elim (Bool-cases ko.sk) [
      | inl t ↦ inr (inl ((eq_iff ko.key_ref "").0 y, t, token_signer_sound ko s (ground arith)))
      | inr f ↦ elim (Bool-cases (args.cert_ref == "")) [
        | inr n ↦ inr (
            inr (
              inl (
                (eq_iff ko.key_ref "").0 y,
                f,
                ground (arith, eq_iff args.cert_ref ""),
                cert_signer_sound args s (ground arith),
              )))
        | inl z ↦ elim (Bool-cases (ko.bundle_path == "")) [
          | inl b ↦ absurd (ground arith)
          | inr n ↦ inr (
              inr (
                inr (
                  (eq_iff ko.key_ref "").0 y,
                  f,
                  (eq_iff args.cert_ref "").0 z,
                  ground (arith, eq_iff ko.bundle_path ""),
                  bundle_signer_sound ko s (ground arith),
                )))
        ]
      ]
    ]
  ]

  pub chosen_signer-none :
      (ko : KeyOpts) (args : CertArgs) → chosen_signer w v ko args ≡ none → NoSigner ko args
  unfolding chosen_signer
  chosen_signer-none ko args h = (
    ground (arith, eq_iff ko.key_ref ""),
    ground arith,
    ground (arith, eq_iff args.cert_ref ""),
    ground (arith, eq_iff ko.bundle_path ""),
  )
