-- ===== src/Webhook/Authorities/Each.antt =====
-- validatePolicies of pkg/cosign/kubernetes/webhook/validator.go: what its two results say of the
-- policies, by their number.
use cosign.Base.{suc, ◌+◌, ◌≤◌, String, List, [], ◌∷◌}
use cosign.Base.{◌≡◌, ◌≢◌, refl, ◌⊎◌, inl, inr, arith, ◌∙◌, sym, ap}
use cosign.Base.{Error}
use cosign.Base.Lists.{length, All}
use cosign.Base.Maps.{Map}
use cosign.World.{World}
use cosign.Verify.{Signature}
use cosign.Policy.{WebhookAuthority}
use cosign.Policy.Matching.{append_at}
use cosign.Webhook.Authorities.{
  Services, Verdicts, note_policy, validate_policy, validate_each, validate_policies,
}

length-append_at {ℓ} :
    {V : Type ℓ} (k : String) (xs : List V) (m : Map (List V))
    → length (append_at k xs m) ≤ suc (length m)
unfolding append_at
length-append_at k xs [] = omega arith
length-append_at k xs ((j, ys) ∷ m) = ground (arith, length-append_at k xs m)

append_at-ne-nil {ℓ} :
    {V : Type ℓ} (k : String) (xs : List V) (m : Map (List V)) → append_at k xs m ≢ []
unfolding append_at
append_at-ne-nil k xs [] h = cc
append_at-ne-nil k xs ((j, ys) ∷ m) h = ground arith

module _ (w : World) (s : Services w) (ref keychain : String) where
  -- The policy passes, with these signatures.
  abbrev pub PolicyPasses : String × List (WebhookAuthority w) → Type 0
  PolicyPasses (p, authorities) =
      (sigs : List (Signature w)) × (validate_policy w s ref keychain authorities [] ≡ (sigs, []))

  policy_cases :
      (p : String) (authorities : List (WebhookAuthority w)) (v : Verdicts w s)
      (r : List (Signature w) × List Error)
      → r ≡ validate_policy w s ref keychain authorities []
      → (PolicyPasses (p, authorities)
          × ((note_policy w s p r v).1 ≡ v.1)
          × (length (note_policy w s p r v).0 ≤ suc (length v.0)))
        ⊎ (((note_policy w s p r v).0 ≡ v.0) × ((note_policy w s p r v).1 ≢ []))
  unfolding note_policy
  policy_cases p authorities (signatures, ret) (sigs, []) e =
      inl ((sigs, sym e), refl, length-append_at p sigs signatures)
  policy_cases p authorities (signatures, ret) (sigs, x ∷ xs) e =
      inr (refl, append_at-ne-nil p [] ret)

  validate_each-length :
      (policies : Map (List (WebhookAuthority w))) (v : Verdicts w s)
      → length (validate_each w s ref keychain policies v).0 ≤ length v.0 + length policies
  unfolding validate_each
  validate_each-length [] v = omega arith
  validate_each-length ((p, a) ∷ policies) v =
      let r = validate_policy w s ref keychain a [] in
      let n = validate_each-length policies (note_policy w s p r v) in
      elim (policy_cases p a v r refl) [
        | inl (_, _, l) ↦ omega arith
        | inr (l, _) ↦ let q = ap length l in omega arith
      ]

  validate_each-counted :
      (policies : Map (List (WebhookAuthority w))) (v : Verdicts w s)
      → length (validate_each w s ref keychain policies v).0 ≡ length v.0 + length policies
      → All PolicyPasses policies
  unfolding validate_each
  validate_each-counted [] v h = tt
  validate_each-counted ((p, a) ∷ policies) v h =
      let r = validate_policy w s ref keychain a [] in
      let n = validate_each-length policies (note_policy w s p r v) in
      elim (policy_cases p a v r refl) [
        | inl (pass, _, l) ↦
            (pass, validate_each-counted policies (note_policy w s p r v) (omega arith))
        | inr (l, _) ↦ absurd (let q = ap length l in omega arith)
      ]

  validate_each-no_errors :
      (policies : Map (List (WebhookAuthority w))) (v : Verdicts w s)
      → (validate_each w s ref keychain policies v).1 ≡ []
      → (v.1 ≡ []) × All PolicyPasses policies
  unfolding validate_each
  validate_each-no_errors [] v h = (h, tt)
  validate_each-no_errors ((p, a) ∷ policies) v h =
      let r = validate_policy w s ref keychain a [] in
      let (n, rest) = validate_each-no_errors policies (note_policy w s p r v) h in
      elim (policy_cases p a v r refl) [
        | inl (pass, e, _) ↦ (sym e ∙ n, (pass, rest))
        | inr (_, e) ↦ absurd (e n)
      ]

  -- Every policy passes if the policies with signatures are as many as the policies, and also if
  -- no policy has errors.
  pub validate_policies_sound :
      (policies : Map (List (WebhookAuthority w)))
      → (length (validate_policies w s ref keychain policies).0 ≡ length policies)
        ⊎ ((validate_policies w s ref keychain policies).1 ≡ [])
      → All PolicyPasses policies
  unfolding validate_policies
  validate_policies_sound policies (inl h) = validate_each-counted policies ([], []) (omega arith)
  validate_policies_sound policies (inr h) = (validate_each-no_errors policies ([], []) h).1
