-- ===== src/Webhook/Authorities/Passes.antt =====
-- When ValidatePolicy passes, and what it passes with no signature at all.
use mathlib.Core.List.{Memᴰ}
use cosign.Base.{String, none, some, List, [], ◌∷◌, ◌++◌}
use cosign.Base.{◌≡◌, ◌≢◌, refl, ◌⊎◌, inl, inr, arith, ◌∙◌}
use cosign.Base.{Error}
use cosign.Base.Lists.{All}
use cosign.World.{World}
use cosign.Verify.{Signature}
use cosign.Policy.{WebhookAuthority, WebhookKeylessRef}
use cosign.Webhook.{RemoteOption, auth_from_keychain}
use cosign.Webhook.Authorities.{
  Services, Check, passed, failed, skipped, check_authority, check_authorities, validate_policy,
  check_keyless_case, check_keyless, check_keys, keys_of,
}

++-cons-ne-nil {ℓ} : {A : Type ℓ} (xs : List A) (y : A) → xs ++ y ∷ [] ≢ []
++-cons-ne-nil [] y h = cc
++-cons-ne-nil (x ∷ xs) y h = cc

module _ (w : World) (s : Services w) (ref : String) where
  check_cases :
      (c : Check w s)
      → ((sigs : List (Signature w)) × (c ≡ passed sigs))
        ⊎ (((e : Error) × (c ≡ failed e)) ⊎ (c ≡ skipped))
  check_cases (passed sigs) = inl (sigs, refl)
  check_cases (failed e) = inr (inl (e, refl))
  check_cases skipped = inr (inr refl)

  -- The first authority that passes, if any does.
  abbrev pub SomePasses :
      List RemoteOption → List (WebhookAuthority w) → List (Signature w) → Type 0
  SomePasses opts authorities sigs =
      (a : WebhookAuthority w) × Memᴰ a authorities × (check_authority w s ref opts a ≡ passed sigs)

  abbrev pub AllSkipped : List RemoteOption → List (WebhookAuthority w) → Type 0
  AllSkipped opts authorities = All (λ a. check_authority w s ref opts a ≡ skipped) authorities

  check_authorities-passes :
      (opts : List RemoteOption) (authorities : List (WebhookAuthority w)) (errs : List Error)
      (sigs : List (Signature w))
      → check_authorities w s ref opts authorities errs ≡ (sigs, [])
      → SomePasses opts authorities sigs ⊎ (AllSkipped opts authorities × (sigs ≡ []) × (errs ≡ []))
  unfolding check_authorities
  check_authorities-passes opts [] errs sigs h = inr (tt, ground arith, ground arith)
  check_authorities-passes opts (a ∷ as') errs sigs h =
      elim (check_cases (check_authority w s ref opts a)) [
        | inl (found, e) ↦ inl (a, Memᴰ.head refl, e ∙ ground arith)
        | inr (inl (x, e)) ↦
            elim (check_authorities-passes opts as' (errs ++ x ∷ []) sigs (ground arith)) [
              | inl (b, m, q) ↦ inl (b, Memᴰ.tail m, q)
              | inr (_, _, z) ↦ absurd (++-cons-ne-nil errs x z)
            ]
        | inr (inr e) ↦ elim (check_authorities-passes opts as' errs sigs (ground arith)) [
          | inl (b, m, q) ↦ inl (b, Memᴰ.tail m, q)
          | inr (all_skipped, n, z) ↦ inr ((e, all_skipped), n, z)
        ]
      ]

  check_authorities-skipped :
      (opts : List RemoteOption) (authorities : List (WebhookAuthority w)) (errs : List Error)
      → AllSkipped opts authorities
      → check_authorities w s ref opts authorities errs ≡ ([], errs)
  unfolding check_authorities
  check_authorities-skipped opts [] errs h = refl
  check_authorities-skipped opts (a ∷ as') errs (e, h) =
      let r = check_authorities-skipped opts as' errs h in ground arith

  -- If a policy has no errors, one of its authorities passes, with the signatures that are
  -- returned, or else every authority of it was passed over and there are no signatures.
  pub validate_policy_sound :
      (keychain : String) (authorities : List (WebhookAuthority w)) (opts : List RemoteOption)
      (sigs : List (Signature w))
      → validate_policy w s ref keychain authorities opts ≡ (sigs, [])
      → SomePasses (opts ++ auth_from_keychain keychain ∷ []) authorities sigs
        ⊎ (AllSkipped (opts ++ auth_from_keychain keychain ∷ []) authorities × (sigs ≡ []))
  unfolding validate_policy
  validate_policy_sound keychain authorities opts sigs h =
      elim (check_authorities-passes _ authorities [] sigs h) [
        | inl p ↦ inl p
        | inr (a, n, _) ↦ inr (a, n)
      ]

  -- An authority that asks for neither a key nor a keyless signature with a URL of fulcio.
  abbrev pub AsksNothing : WebhookAuthority w → Type 0
  AsksNothing a =
      (keys_of w s a.key ≡ [])
      × ((a.keyless ≡ none) ⊎ ((k : WebhookKeylessRef w) × (a.keyless ≡ some k) × (k.url ≡ none)))

  check_authority-skipped :
      (opts : List RemoteOption) (a : WebhookAuthority w)
      → AsksNothing a
      → check_authority w s ref opts a ≡ skipped
  unfolding check_authority check_keys check_keyless_case check_keyless
  check_authority-skipped opts a (k, inl n) = rw (k, n) refl
  check_authority-skipped opts a (k, inr (l, n, u)) = rw (k, n, u) refl

  -- A policy whose authorities each ask for nothing, by no public keys and no keyless part with a
  -- URL, passes every image, with no signature.
  pub validate_policy_vacuous :
      (keychain : String) (authorities : List (WebhookAuthority w)) (opts : List RemoteOption)
      → All AsksNothing authorities
      → validate_policy w s ref keychain authorities opts ≡ ([], [])
  unfolding validate_policy
  validate_policy_vacuous keychain authorities opts h =
      check_authorities-skipped _ authorities [] (skip authorities h)
    where
      skip :
          (l : List (WebhookAuthority w))
          → All AsksNothing l
          → AllSkipped (opts ++ auth_from_keychain keychain ∷ []) l
      skip [] x = tt
      skip (a ∷ l) (x, xs) = (check_authority-skipped _ a x, skip l xs)
