-- ===== src/Webhook.antt =====
-- The admission webhook: pkg/cosign/kubernetes/webhook. This file has validation.go; the modules
-- below have validator.go.
pub mod Authorities
pub mod Pods
pub mod Keys
use cosign.Base.{ℕ, zero, suc, String, ◌<>◌, Option, none, some, Bool, true, false, List, [], ◌∷◌}
use cosign.Base.{◌++◌, is_none, Error, message, error_text, Result, ok, err, ◌>>=◌, if◌then◌else◌}
use cosign.Base.Lists.{map}
use cosign.FieldError.{FieldErrors}
use cosign.World.{World}
use cosign.Verify.{Signature, CheckOpts, Identity}
use cosign.Verify.Claims.{simple_claim_verifier}
use cosign.Verify.Registry.{Registry}
use cosign.Verify.Images.{verify_image_signatures}

-- `ociremote.Option`: a keychain, by its name, or another repository for the signatures.
pub data RemoteOption : Type 0 where
  auth_from_keychain target_repository : String → RemoteOption

module _ (w : World) where
  -- What `CheckOpts{}` holds.
  abbrev pub zero_opts : CheckOpts w
  zero_opts = record {
    annotations = none;
    claim_verifier = none;
    rekor_client = none;
    sig_verifier = none;
    root_certs = none;
    intermediate_certs = none;
    cert_email = "";
    cert_oidc_issuer = "";
    enforce_sct = false;
    signature_ref = "";
    identities = [];
  }

  abbrev pub key_opts : w.Verifier → CheckOpts w
  key_opts verifier = record zero_opts {
    sig_verifier = some verifier;
    claim_verifier = some (simple_claim_verifier w);
  }

  abbrev pub fulcio_opts : List w.Certificate → Option w.RekorClient → List Identity → CheckOpts w
  fulcio_opts roots rekor identities = record zero_opts {
    root_certs = some roots;
    rekor_client = rekor;
    claim_verifier = some (simple_claim_verifier w);
    identities = identities;
  }

  -- The loop of parsePems, on fuel: one more than the length of the text.
  unfoldable pub parse_pems : ℕ → String → List String
  parse_pems zero s = []
  parse_pems (suc fuel) s = elim (w.pem_decode s) [
    | none ↦ []
    | some (block, rest) ↦ block ∷ parse_pems fuel rest
  ]

  -- `keys` is a slice, which is nil (`none`) or not; appending makes it not nil.
  abbrev Slice : Type 0
  Slice = Option (List w.PublicKey)

  abbrev push : Slice → w.PublicKey → Slice
  push none key = some (key ∷ [])
  push (some keys) key = some (keys ++ key ∷ [])

  unfoldable pub note_key : Result w.PublicKey → Slice × List Error → Slice × List Error
  note_key (ok key) (keys, errs) = (push keys key, errs)
  note_key (err e) (keys, errs) = (keys, errs ++ e ∷ [])

  unfoldable pub collect_keys : List String → Slice × List Error → Slice × List Error
  unfolding note_key
  collect_keys [] acc = acc
  collect_keys (p ∷ ps) acc = collect_keys ps (note_key (w.parse_pkix p) acc)

  module _ (f : FieldErrors) where
    unfoldable pub finish_keys : Slice × List Error → List w.PublicKey × f.FieldError
    finish_keys (none, errs) = ([], f.err_generic "malformed cosign.pub" "")
    finish_keys (some keys, errs) = (keys, f.nil)

    -- From the text under "cosign.pub". The error's text also prints the list of errors.
    unfoldable pub get_keys : ℕ → String → List w.PublicKey × f.FieldError
    unfolding finish_keys
    get_keys fuel cosign_pub = finish_keys (collect_keys (parse_pems fuel cosign_pub) (some [], []))

  module _ (registry : List RemoteOption → Registry w) where
    abbrev sigs_of : Result (List (Signature w) × Bool) → Result (List (Signature w))
    sigs_of (ok (sigs, bundled)) = ok sigs
    sigs_of (err e) = err e

    unfoldable pub valid_signatures :
        String → w.Verifier → List RemoteOption → Result (List (Signature w))
    valid_signatures ref verifier opts =
        sigs_of (verify_image_signatures w (registry opts) ref (key_opts verifier)).0

    unfoldable pub valid_signatures_with_fulcio :
        String
        → List w.Certificate
        → Option w.RekorClient
        → List Identity
        → List RemoteOption
        → Result (List (Signature w))
    valid_signatures_with_fulcio ref roots rekor identities opts =
        sigs_of
          (verify_image_signatures w (registry opts) ref (fulcio_opts roots rekor identities)).0

    or_last : Option Error → Result (List (Signature w))
    or_last none = ok []
    or_last (some e) = err e

    -- One key: its signatures, an error, or neither.
    unfoldable pub try_key : String → List RemoteOption → w.PublicKey → Result (List (Signature w))
    try_key ref opts key = do verifier ← w.load_verifier key; valid_signatures ref verifier opts

    -- The loop over the keys, with the last error. The result without signatures and without an
    -- error is `ok []`.
    unfoldable pub try_keys :
        String → List RemoteOption → List w.PublicKey → Option Error → Result (List (Signature w))
    unfolding or_last
    try_keys ref opts [] last = or_last last
    try_keys ref opts (k ∷ ks) last = elim (try_key ref opts k) [
      | err e ↦ try_keys ref opts ks (some e)
      | ok [] ↦ try_keys ref opts ks last
      | ok (s ∷ ss) ↦ ok (s ∷ ss)
    ]

    none_found : Result (List (Signature w)) → Result (List (Signature w))
    none_found (ok []) = err (message "no valid signatures were found")
    none_found r = r

    -- With no keys, the roots of `fulcioroots.Get()` are tried.
    unfoldable pub valid :
        List w.Certificate
        → String
        → List w.PublicKey
        → List RemoteOption
        → Result (List (Signature w))
    unfolding none_found
    valid fulcio_roots ref [] opts =
        none_found (valid_signatures_with_fulcio ref fulcio_roots none [] opts)
    valid fulcio_roots ref (k ∷ ks) opts = try_keys ref opts (k ∷ ks) none
