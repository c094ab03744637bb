-- ===== src/Webhook/Pods/Sound.antt =====
-- What a workload that the webhook admits has been checked for.
use cosign.Base.{String, ◌<>◌, Option, none, some, true, List, [], ◌∷◌}
use cosign.Base.{◌≡◌, ◌≢◌, refl, ◌⊎◌, inl, inr, arith, ◌∙◌, not}
use cosign.Base.{Error, error_text, Result, ok, err, Result-cases, Option-cases, Bool-cases}
use cosign.Base.Lists.{map, all, length, is_empty, All}
use cosign.Base.Maps.{Map}
use cosign.FieldError.{FieldErrors, IsLawful}
use cosign.World.{World}
use cosign.Verify.{Signature}
use cosign.Policy.{WebhookAuthority}
use cosign.Policy.Matching.{ImagePolicyConfig, get_matching_policies}
use cosign.Webhook.{auth_from_keychain, valid}
use cosign.Webhook.Authorities.{validate_policies}
use cosign.Webhook.Authorities.Each.{PolicyPasses, validate_policies_sound}
use cosign.Webhook.Pods.{
  Container, Reference, Cluster, PolicyCheck, unchecked, passed, rejected, weigh, check_config,
  by_keys, after_policies, image_errors, failed_policy,
}

module _ (w : World) (k : Cluster w) where
  -- There are policies for the image, and each of them passes.
  abbrev pub PoliciesPass : String → String → Type 0
  PoliciesPass name keychain =
      (c : Option (ImagePolicyConfig w)) × (k.config ≡ some c)
      × ((get_matching_policies w c name).0 ≢ [])
      × ((get_matching_policies w c name).1 ≡ none)
      × All (PolicyPasses w k.services name keychain) (get_matching_policies w c name).0

  -- There is no configuration, or no policy of it is for the image.
  abbrev pub NoPolicies : String → Type 0
  NoPolicies name =
      (k.config ≡ none)
      ⊎ ((c : Option (ImagePolicyConfig w)) × (k.config ≡ some c)
          × (get_matching_policies w c name ≡ ([], none)))

  -- The image is a digest, and all its policies pass, or it has none and the keys verify it.
  abbrev pub IsAdmitted : List w.PublicKey → String → Container → Type 0
  IsAdmitted keys keychain c =
      (ref : Reference) × (k.parse_reference c.image ≡ ok ref)
      × (ref.is_digest ≡ true)
      × (PoliciesPass ref.name keychain
          ⊎ (NoPolicies ref.name
              × ((sigs : List (Signature w)) × (valid w k.services.registry k.services.fulcio_roots
                      ref.name keys (auth_from_keychain keychain ∷ [])
                    ≡ ok sigs))))

module _ (w : World) (f : FieldErrors) (lawful : IsLawful f) (k : Cluster w) where
  map-nil {ℓ} : {A B : Type ℓ} (g : A → B) (l : List A) → map g l ≡ [] → l ≡ []
  map-nil g [] h = refl
  map-nil g (x ∷ xs) h = cc

  is_empty-length {ℓ} : {A : Type ℓ} (l : List A) → is_empty l ≡ true → length l ≡ 0
  is_empty-length [] h = refl
  is_empty-length (x ∷ xs) h = cc

  -- What the check of the policies says where it gives no error.
  weigh-unchecked :
      (name keychain : String) (m : Map (List (WebhookAuthority w)) × Option Error)
      → weigh w f k name keychain m ≡ unchecked
      → m ≡ ([], none)
  unfolding weigh
  weigh-unchecked name keychain (m, some e) h = cc
  weigh-unchecked name keychain ([], none) h = refl
  weigh-unchecked name keychain (p ∷ ps, none) h = absurd (
      let n = is_empty-length (validate_policies w k.services name keychain (p ∷ ps)).0 in
      ground arith)

  weigh-passes :
      (name keychain : String) (m : Map (List (WebhookAuthority w)) × Option Error)
      → (weigh w f k name keychain m ≡ passed) ⊎ (weigh w f k name keychain m ≡ rejected [])
      → (m.0 ≢ []) × (m.1 ≡ none) × All (PolicyPasses w k.services name keychain) m.0
  unfolding weigh
  weigh-passes name keychain (m, some e) (inl h) = cc
  weigh-passes name keychain (m, some e) (inr h) = absurd (ground arith)
  weigh-passes name keychain ([], none) (inl h) = cc
  weigh-passes name keychain ([], none) (inr h) = cc
  weigh-passes name keychain (p ∷ ps, none) (inl h) = (
    λ e. ground arith,
    refl,
    validate_policies_sound w k.services name keychain (p ∷ ps) (inl (ground arith)),
  )
  weigh-passes name keychain (p ∷ ps, none) (inr h) = (
    λ e. ground arith,
    refl,
    validate_policies_sound w k.services name keychain (p ∷ ps)
        (inr (map-nil (failed_policy w f k) _ (ground arith))),
  )

  check_config-unchecked :
      (name keychain : String)
      → check_config w f k name keychain k.config ≡ unchecked
      → NoPolicies w k name
  unfolding check_config
  check_config-unchecked name keychain h = elim (Option-cases k.config) [
    | inl n ↦ inl n
    | inr (c, e) ↦
        inr (c, e, weigh-unchecked name keychain (get_matching_policies w c name) (ground arith))
  ]

  check_config-passes :
      (name keychain : String) (o : Option (Option (ImagePolicyConfig w)))
      → k.config ≡ o
      → (check_config w f k name keychain o ≡ passed)
        ⊎ (check_config w f k name keychain o ≡ rejected [])
      → PoliciesPass w k name keychain
  unfolding check_config
  check_config-passes name keychain none e h = absurd (ground arith)
  check_config-passes name keychain (some c) e h =
      let (n, x, a) = weigh-passes name keychain (get_matching_policies w c name) h in
      (c, e, n, x, a)

  check_cases :
      (c : PolicyCheck w f k)
      → (c ≡ unchecked) ⊎ ((c ≡ passed) ⊎ ((l : List f.FieldError) × (c ≡ rejected l)))
  check_cases unchecked = inl refl
  check_cases passed = inr (inl refl)
  check_cases (rejected l) = inr (inr (l, refl))

  image_errors_sound :
      (keys : List w.PublicKey) (keychain : String) (c : Container)
      → (image_errors w f k keys keychain c.image (k.parse_reference c.image)).0 ≡ []
      → IsAdmitted w k keys keychain c
  unfolding image_errors by_keys after_policies
  image_errors_sound keys keychain c h = elim (Result-cases (k.parse_reference c.image)) [
    | inr (x, e) ↦ absurd (ground arith)
    | inl (ref, e) ↦ elim (Bool-cases ref.is_digest) [
      | inr n ↦ absurd (ground arith)
      | inl d ↦ (
        ref,
        e,
        d,
        elim (check_cases (check_config w f k ref.name keychain k.config)) [
          | inr (inl p) ↦ inl (check_config-passes ref.name keychain k.config refl (inl p))
          | inr (inr (l, p)) ↦
              inl (check_config-passes ref.name keychain k.config refl (inr (p ∙ ground arith)))
          | inl u ↦ inr (
            check_config-unchecked ref.name keychain u,
            elim (Result-cases (
                valid w k.services.registry k.services.fulcio_roots ref.name keys
                  (auth_from_keychain keychain ∷ []))) [
                    | inl (sigs, v) ↦ (sigs, v)
                    | inr (x, v) ↦ absurd (ground arith)
                  ],
          )
        ],
      )
    ]
  ]

  -- None of these errors is nil.
  abbrev Solid : List f.FieldError → Type 0
  Solid l = all (λ e. not (f.is_nil e)) l ≡ true

  Solid-nil : (l : List f.FieldError) → Solid l → all f.is_nil l ≡ true → l ≡ []
  Solid-nil [] h g = refl
  Solid-nil (e ∷ es) h g = absurd (ground arith)

  map-failed_policy-Solid : (l : Map (List Error)) → Solid (map (failed_policy w f k) l)
  map-failed_policy-Solid [] = refl
  map-failed_policy-Solid ((p, errs) ∷ l) =
      ground
        (arith, map-failed_policy-Solid l, lawful.is_nil-generic ("failed policy: " <> p) "image")

  weigh-Solid :
      (name keychain : String) (m : Map (List (WebhookAuthority w)) × Option Error)
      (l : List f.FieldError)
      → weigh w f k name keychain m ≡ rejected l
      → Solid l
  unfolding weigh
  weigh-Solid name keychain (m, some e) l h =
      let s = lawful.is_nil-generic (error_text e) "image" in ground arith
  weigh-Solid name keychain ([], none) l h = cc
  weigh-Solid name keychain (p ∷ ps, none) l h =
      let s = map-failed_policy-Solid (validate_policies w k.services name keychain (p ∷ ps)).1 in
      ground arith

  check_config-Solid :
      (name keychain : String) (o : Option (Option (ImagePolicyConfig w))) (l : List f.FieldError)
      → check_config w f k name keychain o ≡ rejected l
      → Solid l
  unfolding check_config
  check_config-Solid name keychain none l h = absurd (ground arith)
  check_config-Solid name keychain (some c) l h =
      weigh-Solid name keychain (get_matching_policies w c name) l h

  after_policies-Solid :
      (keys : List w.PublicKey) (name keychain : String) (c : PolicyCheck w f k)
      → ((l : List f.FieldError) → c ≡ rejected l → Solid l)
      → Solid (after_policies w f k keys name keychain c)
  unfolding after_policies by_keys
  after_policies-Solid keys name keychain passed h = refl
  after_policies-Solid keys name keychain (rejected l) h = h l refl
  after_policies-Solid keys name keychain unchecked h =
      elim (Result-cases (
        valid w k.services.registry k.services.fulcio_roots name keys
          (auth_from_keychain keychain ∷ []))) [
            | inl (sigs, v) ↦ ground arith
            | inr (e, v) ↦ ground (arith, lawful.is_nil-generic (error_text e) "image")
          ]

  image_errors-Solid :
      (keys : List w.PublicKey) (keychain image : String) (r : Result Reference)
      → Solid (image_errors w f k keys keychain image r).0
  unfolding image_errors
  image_errors-Solid keys keychain image (err e) =
      ground (arith, lawful.is_nil-generic (error_text e) "image")
  image_errors-Solid keys keychain image (ok ref) =
      let n = lawful.is_nil-invalid_value (image <> " must be an image digest") "image" [] in
      let s =
        after_policies-Solid keys ref.name keychain (check_config w f k ref.name keychain k.config)
          (check_config-Solid ref.name keychain k.config) in
      ground arith

  -- An image whose errors are all nil is admitted.
  pub image_errors-IsAdmitted :
      (keys : List w.PublicKey) (keychain : String) (c : Container)
      → all f.is_nil (image_errors w f k keys keychain c.image (k.parse_reference c.image)).0 ≡ true
      → IsAdmitted w k keys keychain c
  image_errors-IsAdmitted keys keychain c h =
      image_errors_sound keys keychain c
        (Solid-nil _ (image_errors-Solid keys keychain c.image (k.parse_reference c.image)) h)
