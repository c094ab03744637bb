-- ===== src/Webhook/Pods/Resolve.antt =====
-- What resolving does to a workload: resolvePodSpec and its callers of validator.go in
-- pkg/cosign/kubernetes/webhook.
use cosign.Base.{String, none, some, true, false, List, [], ◌∷◌}
use cosign.Base.{◌≡◌, ◌⊎◌, inl, inr, arith, Result-cases, Option-cases, Bool-cases}
use cosign.Base.{Error, ok, err}
use cosign.Base.Lists.{map}
use cosign.World.{World}
use cosign.Webhook.Pods.{
  Reference, Container, Workload, Cluster, resolve_container, resolve_pod_spec, resolve,
  keychain_options,
}

module _ (w : World) (k : Cluster w) where
  -- The image is not to be resolved, does not parse, or has no digest to be found.
  abbrev pub StaysAsItIs : String → Container → Type 0
  StaysAsItIs keychain c =
      (k.in_create_or_update ≡ false)
      ⊎ ((x : Error) × (k.parse_reference c.image ≡ err x))
      ⊎ ((ref : Reference) × (x : Error) × (k.parse_reference c.image ≡ ok ref)
          × (k.resolve_digest keychain ref ≡ err x))

  -- A container and what becomes of it: its image is replaced by the digest, and by nothing else.
  abbrev pub BecomesOne : String → Container → Container → Type 0
  BecomesOne keychain c d =
      ((ref : Reference) × (digest : String) × (k.in_create_or_update ≡ true)
        × (k.parse_reference c.image ≡ ok ref)
        × (k.resolve_digest keychain ref ≡ ok digest)
        × (d ≡ record c { image = digest }))
      ⊎ (StaysAsItIs keychain c × (d ≡ c))

  -- The same of containers in order.
  abbrev pub Becomes : String → List Container → List Container → Type 0
  Becomes keychain [] [] = Unit
  Becomes keychain (c ∷ cs) (d ∷ ds) = BecomesOne keychain c d × Becomes keychain cs ds
  Becomes keychain _ _ = ⊥

  resolve_container-BecomesOne :
      (keychain : String) (c : Container) → BecomesOne keychain c (resolve_container w k keychain c)
  unfolding resolve_container
  resolve_container-BecomesOne keychain c = elim (Result-cases (k.parse_reference c.image)) [
    | inr (x, e) ↦ inr (inr (inl (x, e)), ground arith)
    | inl (ref, e) ↦ elim (Bool-cases k.in_create_or_update) [
      | inr off ↦ inr (inl off, ground arith)
      | inl on ↦ elim (Result-cases (k.resolve_digest keychain ref)) [
        | inr (x, d) ↦ inr (inr (inr (ref, x, e, d)), ground arith)
        | inl (digest, d) ↦ inl (ref, digest, on, e, d, ground arith)
      ]
    ]
  ]

  map-Becomes :
      (keychain : String) (cs : List Container)
      → Becomes keychain cs (map (resolve_container w k keychain) cs)
  map-Becomes keychain [] = tt
  map-Becomes keychain (c ∷ cs) = (resolve_container-BecomesOne keychain c, map-Becomes keychain cs)

  -- The workload with its containers resolved by the keychain, and all else as it is.
  abbrev pub Resolved : String → Workload → Workload → Type 0
  Resolved keychain p q =
      (inits : List Container) × (containers : List Container) × Becomes keychain
        p.spec.init_containers inits
      × Becomes keychain p.spec.containers containers
      × (q ≡ record p { spec = record p.spec { init_containers = inits; containers = containers } })

  -- A workload that is being deleted, or for which no keychain is had, stays as it is; of any other,
  -- the image of each container and init container becomes the digest that is found for it on a
  -- creation or an update, and stays as it is otherwise, where it does not parse, or where none is
  -- found; nothing else changes.
  pub resolve_lem :
      (p : Workload)
      → ((time : String) × (p.deletion_timestamp ≡ some time) × (resolve w k p ≡ p))
        ⊎ ((x : Error) × (p.deletion_timestamp ≡ none)
            × (k.new_keychain (keychain_options p) ≡ err x)
            × (resolve w k p ≡ p))
        ⊎ ((keychain : String) × (p.deletion_timestamp ≡ none)
            × (k.new_keychain (keychain_options p) ≡ ok keychain)
            × Resolved keychain p (resolve w k p))
  unfolding resolve resolve_pod_spec
  resolve_lem p = elim (Option-cases p.deletion_timestamp) [
    | inr (time, d) ↦ inl (time, d, ground arith)
    | inl d ↦ elim (Result-cases (k.new_keychain (keychain_options p))) [
      | inr (x, e) ↦ inr (inl (x, d, e, ground arith))
      | inl (keychain, e) ↦ inr (
          inr (
            keychain,
            d,
            e,
            (
              map (resolve_container w k keychain) p.spec.init_containers,
              map (resolve_container w k keychain) p.spec.containers,
              map-Becomes keychain p.spec.init_containers,
              map-Becomes keychain p.spec.containers,
              ground arith,
            ),
          ))
    ]
  ]
