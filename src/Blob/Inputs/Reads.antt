-- ===== src/Blob/Inputs/Reads.antt =====
-- Which signature and which blob `cosign verify-blob` reads: signatures and payloadBytes of
-- cmd/cosign/cli/verify/verify_blob.go.
use cosign.Base.{String, ◌==◌}
use cosign.Base.{◌≡◌, ◌≢◌, refl, ◌⊎◌, inl, inr, arith, eq_iff, Bool-cases, Result-cases}
use cosign.Base.{◌>>=◌, Error, ok, err, wrap_result, >>=-eq-ok, wrap_result-eq-ok}
use cosign.World.{World}
use cosign.Verify.Registry.{Loaded, bytes, not_exist, failed}
use cosign.Blob.{LocalSignedPayload, Services}
use cosign.Blob.Inputs.{
  loaded, loaded_or_text, fetch_local_signed_payload, target_signature, signatures, payload_bytes,
}

module _ (w : World) (v : Services w) where
  -- The blob is the standard input for "-", and else what the file or URL has.
  abbrev pub BlobOf : String → String → Type 0
  BlobOf blob_ref blob =
      ((blob_ref ≡ "-") × (v.read_stdin ≡ ok blob))
      ⊎ ((blob_ref ≢ "-") × (v.load_file_or_url blob_ref ≡ bytes blob))

  -- The text of the signature is that of the bundle where no signature is given, and else that in
  -- the file or URL, or the given text itself where there is no such file.
  abbrev pub TextOf : String → String → String → Type 0
  TextOf sig_ref bundle_path text =
      ((sig_ref ≡ "")
        × (bundle_path ≢ "")
        × ((contents : String) × (local : LocalSignedPayload) × (w.read_file bundle_path
              ≡ ok contents)
            × (v.unmarshal_local_payload contents ≡ ok local)
            × (text ≡ local.base64_signature)))
      ⊎ ((sig_ref ≢ "")
          × ((v.load_file_or_url sig_ref ≡ bytes text)
              ⊎ ((v.load_file_or_url sig_ref ≡ not_exist) × (text ≡ sig_ref))))

  -- The signature's bytes and its base64 form: the text is either the one or the other.
  abbrev pub SignatureOf : String → String → String → String → Type 0
  SignatureOf sig_ref bundle_path sig b64sig =
      (text : String) × TextOf sig_ref bundle_path text
      × (((w.base64_decode text ≡ ok sig) × (b64sig ≡ text))
          ⊎ ((x : Error) × (w.base64_decode text ≡ err x)
              × (sig ≡ text)
              × (b64sig ≡ w.base64_encode text)))

  loaded-bytes : (l : Loaded) (text : String) → loaded l ≡ ok text → l ≡ bytes text
  loaded-bytes (bytes b) text h = ground arith
  loaded-bytes not_exist text h = cc
  loaded-bytes (failed e) text h = cc

  pub payload_bytes-BlobOf :
      (blob_ref blob : String) → payload_bytes w v blob_ref ≡ ok blob → BlobOf blob_ref blob
  unfolding payload_bytes
  payload_bytes-BlobOf blob_ref blob h = elim (Bool-cases (blob_ref == "-")) [
    | inl y ↦ inl ((eq_iff blob_ref "-").0 y, ground arith)
    | inr n ↦ inr (ground (arith, eq_iff blob_ref "-"), loaded-bytes _ blob (simp n at h))
  ]

  loaded_or_text-bytes :
      (sig_ref : String) (l : Loaded) (text : String)
      → loaded_or_text sig_ref l ≡ ok text
      → (l ≡ bytes text) ⊎ ((l ≡ not_exist) × (text ≡ sig_ref))
  loaded_or_text-bytes sig_ref (bytes b) text h = inl (ground arith)
  loaded_or_text-bytes sig_ref not_exist text h = inr (refl, ground arith)
  loaded_or_text-bytes sig_ref (failed e) text h = cc

  bundle_text :
      (bundle_path text : String)
      → (fetch_local_signed_payload w v bundle_path >>= λ b. ok b.base64_signature) ≡ ok text
      → (contents : String) × (local : LocalSignedPayload) × (w.read_file bundle_path ≡ ok contents)
        × (v.unmarshal_local_payload contents ≡ ok local)
        × (text ≡ local.base64_signature)
  unfolding fetch_local_signed_payload
  bundle_text bundle_path text h =
      let (local, p, h₁) = >>=-eq-ok (fetch_local_signed_payload w v bundle_path) _ h in
      let (contents, r, u) = >>=-eq-ok (wrap_result _ (w.read_file bundle_path)) _ p in
      (contents, local, wrap_result-eq-ok _ _ r, u, ground arith)

  target_signature-TextOf :
      (sig_ref bundle_path text : String)
      → target_signature w v sig_ref bundle_path ≡ ok text
      → TextOf sig_ref bundle_path text
  unfolding target_signature
  target_signature-TextOf sig_ref bundle_path text h = elim (Bool-cases (sig_ref == "")) [
    | inr n ↦ inr (
      ground (arith, eq_iff sig_ref ""),
      loaded_or_text-bytes sig_ref (v.load_file_or_url sig_ref) text (simp n at h),
    )
    | inl y ↦ elim (Bool-cases (bundle_path == "")) [
      | inl z ↦ absurd (ground arith)
      | inr m ↦ inl (
        (eq_iff sig_ref "").0 y,
        ground (arith, eq_iff bundle_path ""),
        bundle_text bundle_path text (simp (y, m) at h),
      )
    ]
  ]

  pub signatures-SignatureOf :
      (sig_ref bundle_path : String) (both : String × String)
      → signatures w v sig_ref bundle_path ≡ ok both
      → SignatureOf sig_ref bundle_path both.0 both.1
  unfolding signatures
  signatures-SignatureOf sig_ref bundle_path (sig, b64sig) h =
      let (text, p, h₁) = >>=-eq-ok (target_signature w v sig_ref bundle_path) _ h in
      (
        text,
        target_signature-TextOf sig_ref bundle_path text p,
        elim (Result-cases (w.base64_decode text)) [
          | inl (d, e) ↦ inl (ground arith, ground arith)
          | inr (x, e) ↦ inr (x, e, ground arith, ground arith)
        ],
      )
