-- ===== src/Webhook/Pods/Admission.antt =====
-- What a workload that the webhook admits has been checked for.
use mathlib.Core.Bool.{and_assoc}
use cosign.Base.{ℕ, suc, String, none, Bool, true, false, List, [], ◌∷◌}
use cosign.Base.{◌≡◌, inl, inr, arith, ◌∙◌, sym, ◌&&◌}
use cosign.Base.{error_text, ok, Result-cases, Bool-cases}
use cosign.Base.Lists.{all, All}
use cosign.FieldError.{FieldErrors, IsLawful}
use cosign.World.{World}
use cosign.Webhook.{get_keys}
use cosign.Webhook.Pods.{
  Container, PodSpec, Workload, KeychainOptions, Cluster, image_errors, place, also_each,
  check_containers, check_pod, validate_pod_spec, validate, path_of, keychain_options,
}
use cosign.Webhook.Pods.Sound.{IsAdmitted, image_errors-IsAdmitted}

module _ (w : World) (f : FieldErrors) (lawful : IsLawful f) (k : Cluster w) where
  place-nil :
      (image field : String) (i : ℕ) (details : Bool) (e : f.FieldError)
      → f.is_nil (place w f k image field i details e) ≡ f.is_nil e
  unfolding place
  place-nil image field i true e =
      lawful.is_nil-with_details _ image ∙ lawful.is_nil-via_field_index e field i
  place-nil image field i false e = lawful.is_nil-via_field_index e field i

  also_each-nil :
      (image field : String) (i : ℕ) (details : Bool) (es : List f.FieldError) (errs : f.FieldError)
      → f.is_nil (also_each w f k image field i details es errs)
        ≡ (f.is_nil errs && all f.is_nil es)
  unfolding also_each place
  also_each-nil image field i details [] errs = ground arith
  also_each-nil image field i details (e ∷ es) errs =
      also_each-nil image field i details es _
      ∙ simp (lawful.is_nil-also, place-nil image field i details e, and_assoc)

  check_containers-nil :
      (keys : List w.PublicKey) (keychain field : String) (i : ℕ) (cs : List Container)
      (errs : f.FieldError)
      → f.is_nil (check_containers w f k keys keychain field i cs errs) ≡ true
      → (f.is_nil errs ≡ true)
        × All
            (λ c.
              all f.is_nil (image_errors w f k keys keychain c.image (k.parse_reference c.image)).0
              ≡ true)
            cs
  unfolding check_containers
  check_containers-nil keys keychain field i [] errs h = (h, tt)
  check_containers-nil keys keychain field i (c ∷ cs) errs h =
      let (es, details) = image_errors w f k keys keychain c.image (k.parse_reference c.image) in
      let (n, rest) =
        check_containers-nil keys keychain field (suc i) cs
          (also_each w f k c.image field i details es errs) h in
      let q = sym (also_each-nil c.image field i details es errs) ∙ n in
      (ground arith, (ground arith, rest))

  admit_all :
      (keys : List w.PublicKey) (keychain : String) (cs : List Container)
      → All
          (λ c.
            all f.is_nil (image_errors w f k keys keychain c.image (k.parse_reference c.image)).0
            ≡ true)
          cs
      → All (IsAdmitted w k keys keychain) cs
  admit_all keys keychain [] h = tt
  admit_all keys keychain (c ∷ cs) (e, h) =
      (image_errors-IsAdmitted w f lawful k keys keychain c e, admit_all keys keychain cs h)

  -- Each container is admitted, by the secret's keys and the keychain of the workload.
  abbrev pub SpecAdmitted : PodSpec → KeychainOptions → Type 0
  SpecAdmitted spec opt =
      (keychain : String) × (cosign_pub : String) × (k.new_keychain opt ≡ ok keychain)
      × (k.secret ≡ ok cosign_pub)
      × All (IsAdmitted w k (get_keys w f k.pem_fuel cosign_pub).0 keychain) spec.init_containers
      × All (IsAdmitted w k (get_keys w f k.pem_fuel cosign_pub).0 keychain) spec.containers

  check_pod_sound :
      (spec : PodSpec) (keychain : String) (keys : List w.PublicKey) (kerr : f.FieldError)
      → f.is_nil (check_pod w f k spec keychain (keys, kerr)) ≡ true
      → All (IsAdmitted w k keys keychain) spec.init_containers
        × All (IsAdmitted w k keys keychain) spec.containers
  unfolding check_pod
  check_pod_sound spec keychain keys kerr h = elim (Bool-cases (f.is_nil kerr)) [
    | inr n ↦ absurd (ground arith)
    | inl y ↦
        let (n, cs) =
          check_containers-nil keys keychain "containers" 0 spec.containers _ (rw y at h) in
        let (_, is) =
          check_containers-nil keys keychain "initContainers" 0 spec.init_containers f.nil n in
        (
          admit_all keys keychain spec.init_containers is,
          admit_all keys keychain spec.containers cs,
        )
  ]

  validate_pod_spec_sound :
      (spec : PodSpec) (opt : KeychainOptions)
      → f.is_nil (validate_pod_spec w f k spec opt) ≡ true
      → SpecAdmitted spec opt
  unfolding validate_pod_spec
  validate_pod_spec_sound spec opt h = elim (Result-cases (k.new_keychain opt)) [
    | inr (e, x) ↦ absurd (ground (arith, lawful.is_nil-generic (error_text e) ""))
    | inl (keychain, x) ↦ elim (Result-cases k.secret) [
      | inr (e, y) ↦ absurd (ground (arith, lawful.is_nil-generic (error_text e) ""))
      | inl (cosign_pub, y) ↦
          let g = get_keys w f k.pem_fuel cosign_pub in
          let (is, cs) = check_pod_sound spec keychain g.0 g.1 (ground arith) in
          (keychain, cosign_pub, x, y, is, cs)
    ]
  ]

  -- A workload that is not being deleted and gets no error has only containers, the initial ones
  -- and the others, that are admitted: the image is a digest, and all the policies for it pass, or
  -- there are none and the keys of the secret, or the built-in roots, verify it.
  pub validate_sound :
      (p : Workload)
      → p.deletion_timestamp ≡ none
      → f.is_nil (validate w f k p) ≡ true
      → SpecAdmitted p.spec (keychain_options p)
  unfolding validate
  validate_sound p d h =
      validate_pod_spec_sound p.spec (keychain_options p)
        (sym (lawful.is_nil-via_field _ (path_of p.kind)) ∙ ground arith)
