-- ===== src/Webhook/Authorities/Sound.antt =====
-- What a policy that an image passes has verified.
use mathlib.Core.List.{Memᴰ}
use mathlib.Core.List.Memᴰ
use cosign.Base.{String, Option, none, some, Bool, List, [], ◌∷◌}
use cosign.Base.{◌≡◌, ◌≢◌, refl, ◌⊎◌, inl, inr, arith, Result-cases}
use cosign.Base.{Error, Result, ok, err, >>=-eq-ok}
use cosign.World.{World}
use cosign.Verify.{Signature, CheckOpts}
use cosign.Verify.Images.{verify_image_signatures}
use cosign.Verify.Images.Sound.{verify_image_signatures_sound}
use cosign.Webhook.{
  RemoteOption, sigs_of, key_opts, fulcio_opts, valid_signatures, valid_signatures_with_fulcio,
  try_key, try_keys, valid, none_found,
}
use cosign.Verify.Registry.{Registry}

module _ (w : World) (registry : List RemoteOption → Registry w) where
  -- The signatures come from a verification of the image with these options.
  abbrev pub VerifiedBy : String → List RemoteOption → CheckOpts w → List (Signature w) → Type 0
  VerifiedBy ref opts co sigs =
      (bundled : Bool) × ((verify_image_signatures w (registry opts) ref co).0 ≡ ok (sigs, bundled))

  sigs_of-ok :
      (r : Result (List (Signature w) × Bool)) (sigs : List (Signature w))
      → sigs_of w registry r ≡ ok sigs
      → (b : Bool) × (r ≡ ok (sigs, b))
  sigs_of-ok (ok (l, b)) sigs h = (b, ground arith)
  sigs_of-ok (err e) sigs h = cc

  VerifiedBy-ne-nil :
      (ref : String) (opts : List RemoteOption) (co : CheckOpts w) (sigs : List (Signature w))
      → VerifiedBy ref opts co sigs
      → sigs ≢ []
  VerifiedBy-ne-nil ref opts co sigs (b, h) =
      (verify_image_signatures_sound w (registry opts) ref co sigs b h).some_accepted

  -- Some key of the list verified the image.
  abbrev pub SomeKey : String → List RemoteOption → List w.PublicKey → List (Signature w) → Type 0
  SomeKey ref opts keys sigs =
      (key : w.PublicKey) × Memᴰ key keys
      × ((verifier : w.Verifier) × (w.load_verifier key ≡ ok verifier)
          × VerifiedBy ref opts (key_opts w verifier) sigs)

  try_key_sound :
      (ref : String) (opts : List RemoteOption) (key : w.PublicKey) (sigs : List (Signature w))
      → try_key w registry ref opts key ≡ ok sigs
      → (verifier : w.Verifier) × (w.load_verifier key ≡ ok verifier)
        × VerifiedBy ref opts (key_opts w verifier) sigs
  unfolding try_key valid_signatures
  try_key_sound ref opts key sigs h =
      let (v, l, g) = >>=-eq-ok (w.load_verifier key) _ h in
      (v, l, sigs_of-ok (verify_image_signatures w (registry opts) ref (key_opts w v)).0 sigs g)

  try_key-ne-nil :
      (ref : String) (opts : List RemoteOption) (key : w.PublicKey)
      → try_key w registry ref opts key ≢ ok []
  try_key-ne-nil ref opts key h =
      let (v, l, b) = try_key_sound ref opts key [] h in
      VerifiedBy-ne-nil ref opts (key_opts w v) [] b refl

  try_keys_sound :
      (ref : String) (opts : List RemoteOption) (keys : List w.PublicKey) (last : Option Error)
      (sigs : List (Signature w))
      → try_keys w registry ref opts keys last ≡ ok sigs
      → SomeKey ref opts keys sigs ⊎ ((keys ≡ []) × (last ≡ none))
  unfolding try_keys
  try_keys_sound ref opts [] last sigs h = inr (refl, ground arith)
  try_keys_sound ref opts (k ∷ ks) last sigs h =
      elim (Result-cases (try_key w registry ref opts k)) [
        | inr (e, p) ↦ elim (try_keys_sound ref opts ks (some e) sigs (ground arith)) [
          | inl (key, m, v) ↦ inl (key, Memᴰ.tail m, v)
          | inr (_, q) ↦ absurd (ground arith)
        ]
        | inl ([], p) ↦ absurd (try_key-ne-nil ref opts k p)
        | inl (s ∷ ss, p) ↦ inl (k, Memᴰ.head refl, try_key_sound ref opts k sigs (ground arith))
      ]

  none_found-ok :
      (r : Result (List (Signature w))) (sigs : List (Signature w))
      → none_found w registry r ≡ ok sigs
      → r ≡ ok sigs
  unfolding none_found
  none_found-ok (err e) sigs h = cc
  none_found-ok (ok []) sigs h = cc
  none_found-ok (ok (s ∷ ss)) sigs h = h

  try_key_complete :
      (ref : String) (opts : List RemoteOption) (key : w.PublicKey) (v : w.Verifier)
      (sigs : List (Signature w))
      → w.load_verifier key ≡ ok v
      → VerifiedBy ref opts (key_opts w v) sigs
      → try_key w registry ref opts key ≡ ok sigs
  unfolding try_key valid_signatures
  try_key_complete ref opts key v sigs l (b, h) = rw (l, h) refl

  try_keys_complete :
      (ref : String) (opts : List RemoteOption) (keys : List w.PublicKey) (last : Option Error)
      (sigs : List (Signature w))
      → SomeKey ref opts keys sigs
      → (found : List (Signature w)) × (try_keys w registry ref opts keys last ≡ ok found)
  unfolding try_keys
  try_keys_complete ref opts [] last sigs (key, m, v) = elim m [ ]
  try_keys_complete ref opts (k ∷ ks) last sigs (key, m, (v, l, b)) =
      elim (Result-cases (try_key w registry ref opts k)) [
        | inl ([], p) ↦ absurd (try_key-ne-nil ref opts k p)
        | inl (s ∷ ss, p) ↦ (s ∷ ss, ground arith)
        | inr (e, p) ↦ elim (Memᴰ.cases_cons m) [
          | inl q ↦
              absurd (let t = try_key_complete ref opts k v sigs (rw q at l) b in ground arith)
          | inr n ↦
              let (found, g) = try_keys_complete ref opts ks (some e) sigs (key, n, (v, l, b)) in
              (found, ground arith)
        ]
      ]

  -- Signatures are found only if a key of the list verified the image with them, or, where there
  -- are no keys, the built-in roots did.
  pub valid_sound :
      (roots : List w.Certificate) (ref : String) (keys : List w.PublicKey)
      (opts : List RemoteOption) (sigs : List (Signature w))
      → valid w registry roots ref keys opts ≡ ok sigs
      → SomeKey ref opts keys sigs
        ⊎ ((keys ≡ []) × VerifiedBy ref opts (fulcio_opts w roots none []) sigs)
  unfolding valid valid_signatures_with_fulcio
  valid_sound roots ref [] opts sigs h =
      let r = (verify_image_signatures w (registry opts) ref (fulcio_opts w roots none [])).0 in
      inr (refl, sigs_of-ok r sigs (none_found-ok (sigs_of w registry r) sigs h))
  valid_sound roots ref (k ∷ ks) opts sigs h = elim (try_keys_sound ref opts (k ∷ ks) none sigs h) [
    | inl s ↦ inl s
    | inr (e, _) ↦ absurd (ground arith)
  ]

  -- If one of the keys verifies the image, signatures are found, whatever the other keys do.
  valid_complete :
      (roots : List w.Certificate) (ref : String) (keys : List w.PublicKey)
      (opts : List RemoteOption) (sigs : List (Signature w))
      → SomeKey ref opts keys sigs
      → (found : List (Signature w)) × (valid w registry roots ref keys opts ≡ ok found)
  unfolding valid
  valid_complete roots ref [] opts sigs (key, m, v) = elim m [ ]
  valid_complete roots ref (k ∷ ks) opts sigs s = try_keys_complete ref opts (k ∷ ks) none sigs s
