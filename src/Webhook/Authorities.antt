-- ===== src/Webhook/Authorities.antt =====
-- ValidatePolicy and validatePolicies of pkg/cosign/kubernetes/webhook/validator.go.
pub mod Sound
pub mod Passes
pub mod Each
use cosign.Base.{String, ◌<>◌, Option, none, some, Bool, true, false, List, [], ◌∷◌, ◌++◌}
use cosign.Base.{Error, message, wrapped, Result, ok, err, wrap_result, ◌>>=◌}
use cosign.Base.Lists.{map}
use cosign.Base.Maps.{Map}
use cosign.World.{World}
use cosign.Verify.{Signature, Identity}
use cosign.Verify.Registry.{Registry}
use cosign.Policy.{TLog, WebhookKeyRef, WebhookKeylessRef, WebhookAuthority}
use cosign.Policy.Matching.{append_at}
use cosign.Webhook.{
  RemoteOption, auth_from_keychain, target_repository, valid, valid_signatures_with_fulcio,
}

-- The services that the webhook reaches: fulcio's roots, built in or fetched from a URL
-- (getFulcioCert), and a client of the log at a URL.
pub record Services (w : World) : Type 0 where
  pub registry : List RemoteOption → Registry w
  pub fulcio_roots : List w.Certificate
  pub get_fulcio_cert : String → Result (List w.Certificate)
  pub get_rekor_client : String → Result w.RekorClient

module _ (w : World) (s : Services w) where
  -- What one authority does to the loop: it passes the policy, adds an error, or does nothing.
  pub data Check : Type 0 where
    passed : List (Signature w) → Check
    failed : Error → Check
    skipped : Check

  -- An error, no signatures or some.
  outcome : String → String → Result (List (Signature w)) → Check
  outcome context name (err e) = failed (wrapped context e)
  outcome context name (ok []) = failed (message ("no valid signatures found for " <> name))
  outcome context name (ok (sig ∷ sigs)) = passed (sig ∷ sigs)

  rekor_of : Option TLog → Result (Option w.RekorClient)
  rekor_of none = ok none
  rekor_of (some ctlog) = elim ctlog.url [
    | none ↦ ok none
    | some url ↦ wrap_result "creating Rekor client" (s.get_rekor_client url) >>= λ c. ok (some c)
  ]

  identities_of : Option (List Identity) → List Identity
  identities_of none = []
  identities_of (some l) = l

  -- The roots and the client of a keyless authority.
  unfoldable pub keyless_services :
      String → Option TLog → Result (List w.Certificate × Option w.RekorClient)
  unfolding rekor_of
  keyless_services url ctlog = do
    roots ← wrap_result "fetching FulcioRoot" (s.get_fulcio_cert url)
    rekor ← rekor_of ctlog
    ok (roots, rekor)

  unfoldable pub check_keyless :
      String → List RemoteOption → Option TLog → WebhookKeylessRef w → Check
  unfolding outcome identities_of
  check_keyless ref opts ctlog k = elim k.url [
    | none ↦ skipped
    | some url ↦ elim (keyless_services url ctlog) [
      | err e ↦ failed e
      | ok (roots, rekor) ↦ outcome "validate signatures with fulcio" ref (
          valid_signatures_with_fulcio w s.registry ref roots rekor (identities_of k.identities)
            opts)
    ]
  ]

  -- `case authority.Keyless != nil`
  unfoldable pub check_keyless_case :
      String → List RemoteOption → Option TLog → Option (WebhookKeylessRef w) → Check
  check_keyless_case ref opts ctlog none = skipped
  check_keyless_case ref opts ctlog (some k) = check_keyless ref opts ctlog k

  unfoldable pub keys_of : Option (WebhookKeyRef w) → List w.PublicKey
  keys_of none = []
  keys_of (some k) = k.public_keys

  -- `case authority.Key != nil && len(authority.Key.PublicKeys) > 0`
  unfoldable pub check_keys :
      String → List RemoteOption → WebhookAuthority w → List w.PublicKey → Check
  unfolding outcome
  check_keys ref opts a [] = check_keyless_case ref opts a.ctlog a.keyless
  check_keys ref opts a (key ∷ keys) =
      outcome "failed to validate keys" ref
        (valid w s.registry s.fulcio_roots ref (key ∷ keys) opts)

  unfoldable pub check_authority : String → List RemoteOption → WebhookAuthority w → Check
  unfolding check_keys keys_of
  check_authority ref opts a =
      check_keys ref (opts ++ map target_repository a.remote_opts) a (keys_of a.key)

  -- The loop: the signatures of the first authority that passes, or the errors of them all.
  unfoldable pub check_authorities :
      String
      → List RemoteOption
      → List (WebhookAuthority w)
      → List Error
      → List (Signature w) × List Error
  check_authorities ref opts [] errs = ([], errs)
  check_authorities ref opts (a ∷ as') errs = elim (check_authority ref opts a) [
    | passed sigs ↦ (sigs, [])
    | failed e ↦ check_authorities ref opts as' (errs ++ e ∷ [])
    | skipped ↦ check_authorities ref opts as' errs
  ]

  -- `keychain` stands for the authentication that is added to the options.
  unfoldable pub validate_policy :
      String
      → String
      → List (WebhookAuthority w)
      → List RemoteOption
      → List (Signature w) × List Error
  validate_policy ref keychain authorities opts =
      check_authorities ref (opts ++ auth_from_keychain keychain ∷ []) authorities []

  -- The signatures of the policies that pass, and the policies that do not, with no errors: the
  -- list that is appended there stays empty.
  abbrev pub Verdicts : Type 0
  Verdicts = Map (List (Signature w)) × Map (List Error)

  unfoldable pub note_policy : String → List (Signature w) × List Error → Verdicts → Verdicts
  note_policy p (sigs, []) (signatures, ret) = (append_at p sigs signatures, ret)
  note_policy p (sigs, e ∷ errs) (signatures, ret) = (signatures, append_at p [] ret)

  unfoldable pub validate_each :
      String → String → Map (List (WebhookAuthority w)) → Verdicts → Verdicts
  unfolding note_policy
  validate_each ref keychain [] verdicts = verdicts
  validate_each ref keychain ((p, authorities) ∷ policies) verdicts =
      validate_each ref keychain policies
        (note_policy p (validate_policy ref keychain authorities []) verdicts)

  unfoldable pub validate_policies : String → String → Map (List (WebhookAuthority w)) → Verdicts
  validate_policies ref keychain policies = validate_each ref keychain policies ([], [])
