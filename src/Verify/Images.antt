-- ===== src/Verify/Images.antt =====
-- All signatures, or all attestations, of an image: verifySignatures, verifyImageAttestations and
-- their callers, of pkg/cosign/verify.go.
pub mod Loop
pub mod Sound
pub mod Others
use cosign.Base.{String, ◌<>◌, Option, none, some, Bool, true, false, List, [], ◌∷◌, ◌++◌, ◌==◌}
use cosign.Base.{◌||◌, ◌&&◌, Error, message, error_text, Result, ok, err, ◌>>=◌, ◌>>◌}
use cosign.Base.{is_none, if◌then◌else◌}
use cosign.World.{World}
use cosign.Verify.{Signature, CheckOpts}
use cosign.Verify.Registry.{Registry, SignedEntity, LocalIndex, Loaded, bytes, not_exist, failed}
use cosign.Verify.Entry.{Outcome, verify_image_signature, verify_image_attestation}

-- `strings.Join`
unfoldable pub join : String → List String → String
join sep [] = ""
join sep (s ∷ []) = s
join sep (s ∷ t ∷ ss) = s <> (sep <> join sep (t ∷ ss))

module _ (w : World) where
  -- The variables of the loop.
  pub record Tally : Type 0 where
    pub checked : List (Signature w)
    pub bundle_verified : Bool
    pub validation_errs : List String

  abbrev pub start : Tally
  start = record { checked = []; bundle_verified = false; validation_errs = [] }

  unfoldable pub tally : Signature w → Outcome → Tally → Tally
  tally sig (verified, some e) t = record t {
    bundle_verified = t.bundle_verified || verified;
    validation_errs = t.validation_errs ++ error_text e ∷ [];
  }
  tally sig (verified, none) t = record t {
    checked = t.checked ++ sig ∷ [];
    bundle_verified = t.bundle_verified || verified;
  }

  module _ (verify : Signature w → String → CheckOpts w → Outcome × CheckOpts w) where
    unfoldable pub verify_each :
        List (Signature w) → String → CheckOpts w → Tally → Tally × CheckOpts w
    verify_each [] digest co t = (t, co)
    verify_each (sig ∷ sigs) digest co t =
        let (o, co') = verify sig digest co in verify_each sigs digest co' (tally sig o t)

  unfoldable pub conclude : String → Tally → Result (List (Signature w) × Bool)
  conclude headline t = elim t.checked [
    | [] ↦ err (message (headline <> join "\n " t.validation_errs))
    | _ ∷ _ ↦ ok (t.checked, t.bundle_verified)
  ]

  -- The results, and what the options hold afterwards.
  unfoldable pub verify_signatures :
      Result (List (Signature w))
      → String
      → CheckOpts w
      → Result (List (Signature w) × Bool) × CheckOpts w
  verify_signatures (err e) digest co = (err e, co)
  verify_signatures (ok sl) digest co =
      let (t, co') = verify_each (verify_image_signature w) sl digest co start in
      (conclude "no matching signatures:\n" t, co')

  unfoldable pub verify_attestations :
      Result (List (Signature w))
      → String
      → CheckOpts w
      → Result (List (Signature w) × Bool) × CheckOpts w
  verify_attestations (err e) digest co = (err e, co)
  verify_attestations (ok sl) digest co =
      let (t, co') = verify_each (verify_image_attestation w) sl digest co start in
      (conclude "no matching attestations:\n" t, co')

  -- `co.RootCerts == nil && co.SigVerifier == nil`
  abbrev pub lacks_trust : CheckOpts w → Bool
  lacks_trust co = is_none co.root_certs && is_none co.sig_verifier

  unfoldable pub require_trust : CheckOpts w → Option Error
  require_trust co =
      if lacks_trust co then some (message "one of verifier or root certs is required") else none

  -- What is verified: the signatures and the digest.
  abbrev pub Fetched : Type 0
  Fetched = Result (List (Signature w)) × String

  module _ (r : Registry w) where
    unfoldable pub get_signed_entity : String → Result (SignedEntity w × String)
    get_signed_entity ref = do se ← r.signed_entity ref; digest ← se.digest; ok (se, digest)

    target_bytes : String → Loaded → Result String
    target_bytes ref (bytes b) = ok b
    target_bytes ref not_exist = ok ref
    target_bytes ref (failed e) = err e

    as_base64 : String → Result String → String
    as_base64 target (ok _) = target
    as_base64 target (err _) = w.base64_encode target

    -- The file or the text itself; base64 is taken as it is, anything else is encoded.
    unfoldable pub signature_text : String → Result String
    unfolding target_bytes as_base64
    signature_text sig_ref = do
      target ← target_bytes sig_ref (r.load_file_or_url sig_ref)
      ok (as_base64 target (w.base64_decode target))

    unfoldable pub load_signature_from_file : String → String → Result (List (Signature w))
    load_signature_from_file sig_ref ref = do
      b64sig ← signature_text sig_ref
      digest ← r.resolve_digest ref
      payload ← r.marshal_cosign_payload digest
      sig ← r.new_signature payload b64sig
      ok (sig ∷ [])

    unfoldable pub choose_signatures :
        SignedEntity w → String → CheckOpts w → Result (Result (List (Signature w)))
    choose_signatures se ref co =
        if co.signature_ref == ""
        then se.signatures
        else (load_signature_from_file co.signature_ref ref >>= λ l. ok (ok l))

    unfoldable pub fetch_signatures : String → CheckOpts w → Result Fetched
    fetch_signatures ref co = do
      require_trust co
      (se, digest) ← get_signed_entity ref
      sigs ← choose_signatures se ref co
      ok (sigs, digest)

    unfoldable pub fetch_attestations : String → CheckOpts w → Result Fetched
    fetch_attestations ref co = do
      require_trust co
      (se, digest) ← get_signed_entity ref
      atts ← se.attestations
      ok (atts, digest)

    unfoldable pub local_digest : Option (Result String) → Option (Result String) → Result String
    local_digest (some ii) i = ii
    local_digest none (some i) = i
    local_digest none none = err (message "must verify either an image index or image")

    unfoldable pub fetch_local :
        (LocalIndex w → Result (Result (List (Signature w))))
        → String
        → CheckOpts w
        → Result Fetched
    unfolding local_digest
    fetch_local choose path co = do
      require_trust co
      se ← r.local_index path
      ii ← se.signed_image_index
      i ← se.signed_image
      digest ← local_digest ii i
      sigs ← choose se
      ok (sigs, digest)

    unfoldable pub then_verify :
        (Result (List (Signature w))
          → String
          → CheckOpts w
          → Result (List (Signature w) × Bool) × CheckOpts w)
        → Result Fetched
        → CheckOpts w
        → Result (List (Signature w) × Bool) × CheckOpts w
    then_verify verify (err e) co = (err e, co)
    then_verify verify (ok (sigs, digest)) co = verify sigs digest co

    unfoldable pub verify_image_signatures :
        String → CheckOpts w → Result (List (Signature w) × Bool) × CheckOpts w
    verify_image_signatures ref co = then_verify verify_signatures (fetch_signatures ref co) co

    unfoldable pub verify_image_attestations :
        String → CheckOpts w → Result (List (Signature w) × Bool) × CheckOpts w
    verify_image_attestations ref co =
        then_verify verify_attestations (fetch_attestations ref co) co

    unfoldable pub verify_local_image_signatures :
        String → CheckOpts w → Result (List (Signature w) × Bool) × CheckOpts w
    verify_local_image_signatures path co =
        then_verify verify_signatures (fetch_local (λ se. se.signatures) path co) co

    unfoldable pub verify_local_image_attestations :
        String → CheckOpts w → Result (List (Signature w) × Bool) × CheckOpts w
    verify_local_image_attestations path co =
        then_verify verify_attestations (fetch_local (λ se. se.attestations) path co) co
