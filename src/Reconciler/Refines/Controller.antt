-- ===== src/Reconciler/Refines/Controller.antt =====
-- Each operation of the controller, against the specification.
use cosign.Base.{String, Option, none, some, [], ◌∷◌}
use cosign.Base.{◌≡◌, refl, ap, ◌⊎◌, inl, inr, arith, Result-cases}
use cosign.Base.{Error, ok, err}
use cosign.Base.Maps.{Map, lookup, insert, remove, IsMap}
use cosign.World.{World}
use cosign.Policy.{ClusterImagePolicySpec, ClusterImagePolicy}
use cosign.Policy.Convert.{convert_policy}
use cosign.Reconciler.{
  Kube, NamedPolicy, State, inline_public_keys, new_config_map, create_patch, create_remove_patch,
  apply_patch, create_config_map, store_policy, remove_policy, handle_cip_error, reconcile_kind,
  finalize_kind,
}
use cosign.Reconciler.Refines.{
  IsKube, Alike, listing, IsSynced, Policies, update, Holds, Represents, Reads-insert, Reads-remove,
  Applied, stored_or-Applied, apply_patch-Applied,
}

module _ (w : World) (k : Kube w) where
  module _ (laws : IsKube w k) where
    -- Where the cache is up to date, storing a policy ends in one of two ways: with no error, and
    -- then the policy is there; or with an error, and then nothing has changed.
    abbrev Stores :
        String → ClusterImagePolicy w → Policies w k → State → State × Option Error → Type 0
    Stores name policy policies s r =
        ((r.1 ≡ none) × Represents w k r.0.stored (update w k name (some policy) policies))
        ⊎ ((e : Error) × (r ≡ (s, some e)))

    Applied-Represents :
        (P : Map String → Type 0) (policies : Policies w k) (s : State) (r : State × Option Error)
        → ((n : Map String) → P n → Holds w k n policies)
        → Applied w k P s r
        → ((r.1 ≡ none) × Represents w k r.0.stored policies) ⊎ ((e : Error) × (r ≡ (s, some e)))
    Applied-Represents P policies s r f (inr x) = inr x
    Applied-Represents P policies s r f (inl (e, (n, st, p))) = inl (e, rw st (f n p))

    create-Stores :
        (s : State) (name : String) (policy : ClusterImagePolicy w) (policies : Policies w k)
        → s.stored ≡ none
        → ((key : String) → policies key ≡ none)
        → Stores name policy policies s (create_config_map w k s (new_config_map w k name policy))
    unfolding create_config_map new_config_map lookup
    create-Stores s name policy policies st h = elim (Result-cases (k.marshal_policy policy)) [
      | inr (e, m) ↦ rw m (inr (e, refl))
      | inl (entry, m) ↦ rw m (
          Applied-Represents (λ n. n ≡ (name, entry) ∷ []) (update w k name (some policy) policies)
            s _
            (λ n e. rw e (
              (refl, tt),
              Reads-insert w k [] ((name, entry) ∷ []) name entry policy policies (λ key. h key) m
                  (λ key. unfold insert in refl),
            ))
            (stored_or-Applied w k laws (λ n. n ≡ (name, entry) ∷ []) s
              (k.create ((name, entry) ∷ []) s.stored) (λ n e. laws.create_lem _ n (rw st at e))))
    ]

    patch-Stores :
        (s : State) (a : Map String) (name : String) (policy : ClusterImagePolicy w)
        (policies : Policies w k)
        → s.stored ≡ some a
        → Holds w k a policies
        → Stores name policy policies s (apply_patch w k s (create_patch w k name a policy))
    unfolding create_patch
    patch-Stores s a name policy policies st h = elim (Result-cases (k.marshal_policy policy)) [
      | inr (e, m) ↦ rw m (inr (e, unfold apply_patch in refl))
      | inl (entry, m) ↦ rw m (
          Applied-Represents (λ n. Alike n (insert name entry a) × IsMap n)
            (update w k name (some policy) policies) s _
            (λ n x. (x.1, Reads-insert w k a n name entry policy policies h.1 m x.0))
            (apply_patch-Applied w k laws s a (insert name entry a) st h.0))
    ]

    store_policy-Stores :
        (s : State) (name : String) (policy : ClusterImagePolicy w) (policies : Policies w k)
        (o : Option (Map String))
        → s.stored ≡ o
        → s.listed ≡ listing o
        → Represents w k o policies
        → Stores name policy policies s (store_policy w k name policy s)
    unfolding store_policy
    store_policy-Stores s name policy policies none st l h =
        let e : store_policy w k name policy s
            ≡ create_config_map w k s (new_config_map w k name policy) =
          ground arith in
        rw e (create-Stores s name policy policies st h)
    store_policy-Stores s name policy policies (some a) st l h =
        let e : store_policy w k name policy s
            ≡ apply_patch w k s (create_patch w k name a policy) =
          ground arith in
        rw e (patch-Stores s a name policy policies st h)

    -- So is removing one.
    abbrev Removes : String → Policies w k → State → State × Option Error → Type 0
    Removes name policies s r =
        ((r.1 ≡ none) × Represents w k r.0.stored (update w k name none policies))
        ⊎ ((e : Error) × (r ≡ (s, some e)))

    remove_policy-Removes :
        (s : State) (a : Map String) (name : String) (policies : Policies w k)
        → s.stored ≡ some a
        → Holds w k a policies
        → Removes name policies s (remove_policy w k a name s)
    unfolding remove_policy create_remove_patch
    remove_policy-Removes s a name policies st h =
        Applied-Represents (λ n. Alike n (remove name a) × IsMap n) (update w k name none policies)
          s _ (λ n x. (x.1, Reads-remove w k a n name policies h.1 x.0))
          (apply_patch-Applied w k laws s a (remove name a) st h.0)

    update-none :
        (name : String) (policies : Policies w k)
        → ((key : String) → policies key ≡ none)
        → (key : String) → update w k name none policies key ≡ none
    update-none name policies h key = ground (arith, h key)

    finalize_on :
        (s : State) (name : String) (policies : Policies w k) (o : Option (Map String))
        → s.stored ≡ o
        → s.listed ≡ listing o
        → Represents w k o policies
        → Removes name policies s (finalize_kind w k name s)
    unfolding finalize_kind
    finalize_on s name policies none st l h =
        let e : finalize_kind w k name s ≡ (s, none) = ground arith in
        rw e (inl (refl, rw st (update-none name policies h)))
    finalize_on s name policies (some a) st l h =
        let e : finalize_kind w k name s ≡ remove_policy w k a name s = ground arith in
        rw e (remove_policy-Removes s a name policies st h)

    -- Where the cache is up to date, finalizing a policy that is deleted removes it from the
    -- policies that the config map holds, or else ends with an error and changes nothing.
    finalize_kind_refines :
        (s : State) (name : String) (policies : Policies w k)
        → IsSynced s
        → Represents w k s.stored policies
        → ((((finalize_kind w k name s).1 ≡ none)
              × Represents w k (finalize_kind w k name s).0.stored (update w k name none policies))
            ⊎ ((e : Error) × (finalize_kind w k name s ≡ (s, some e))))
    finalize_kind_refines s name policies sync h = finalize_on s name policies s.stored refl sync h

    handle_on :
        (s : State) (name : String) (policies : Policies w k) (o : Option (Map String))
        → s.stored ≡ o
        → s.listed ≡ listing o
        → Represents w k o policies
        → Represents w k (handle_cip_error w k name s).stored (update w k name none policies)
          ⊎ (handle_cip_error w k name s ≡ s)
    unfolding handle_cip_error
    handle_on s name policies none st l h = inr (ground arith)
    handle_on s name policies (some a) st l h =
        let q : handle_cip_error w k name s ≡ (remove_policy w k a name s).0 = ground arith in
        rw q (elim (remove_policy-Removes s a name policies st h) [
          | inl (e, r) ↦ inl r
          | inr (e, r) ↦ inr (ap (λ (x : State × Option Error). x.0) r)
        ])

    -- What reconciling a policy may come to: its keys are inlined, and it is in place of what had
    -- its name; its keys cannot be inlined, and what had its name is removed; or there is an error,
    -- and nothing is changed.
    pub data Reconciled (cip : NamedPolicy) (policies : Policies w k) (s : State)
        (r : State × Option Error) : Type 0 where
      applied :
          (spec : ClusterImagePolicySpec)
          → inline_public_keys w k cip.spec ≡ ok spec
          → r.1 ≡ none
          → Represents w k r.0.stored (update w k cip.name (some (convert_policy w spec)) policies)
          → Reconciled cip policies s r
      removed :
          (e : Error)
          → inline_public_keys w k cip.spec ≡ err e
          → r.1 ≡ some e
          → Represents w k r.0.stored (update w k cip.name none policies)
          → Reconciled cip policies s r
      unchanged : (e : Error) → r ≡ (s, some e) → Reconciled cip policies s r

    -- Where the cache is up to date and the config map holds some policies, reconciling a policy
    -- has one of three ends: with no error, its keys inlined, it is put in place of what had its
    -- name; with the error of its keys, what had its name is removed; or with an error nothing is
    -- changed.
    reconcile_kind_refines :
        (cip : NamedPolicy) (s : State) (policies : Policies w k)
        → IsSynced s
        → Represents w k s.stored policies
        → Reconciled cip policies s (reconcile_kind w k cip s)
    unfolding reconcile_kind
    reconcile_kind_refines cip s policies sync h =
        elim (Result-cases (inline_public_keys w k cip.spec)) [
          | inr (e, i) ↦
              let q : reconcile_kind w k cip s ≡ (handle_cip_error w k cip.name s, some e) =
                ground arith in
              rw q (elim (handle_on s cip.name policies s.stored refl sync h) [
                | inl r ↦ removed e i refl r
                | inr r ↦ unchanged e (ap (λ t. (t, some e)) r)
              ])
          | inl (spec, i) ↦
              let p = convert_policy w spec in
              let q : reconcile_kind w k cip s ≡ store_policy w k cip.name p s = ground arith in
              rw q (elim (store_policy-Stores s cip.name p policies s.stored refl sync h) [
                | inl (e, r) ↦ applied spec i e r
                | inr (e, r) ↦ unchanged e r
              ])
        ]

    -- What deleting a policy may come to: it is removed, or there is an error and no change.
    abbrev pub Finalized : String → Policies w k → State → State × Option Error → Type 0
    Finalized name policies s r =
        ((r.1 ≡ none) × Represents w k r.0.stored (update w k name none policies))
        ⊎ ((e : Error) × (r ≡ (s, some e)))

    -- Where the cache is up to date and the config map holds some policies: reconciling a policy
    -- either, with no error and its keys inlined, puts it in place of what had its name, or, with
    -- the error of its keys, removes what had its name, or, with an error, changes nothing; and
    -- deleting a name removes its policy, or, with an error, changes nothing.
    pub controller_refines :
        (cip : NamedPolicy) (name : String) (s : State) (policies : Policies w k)
        → IsSynced s
        → Represents w k s.stored policies
        → Reconciled cip policies s (reconcile_kind w k cip s)
          × Finalized name policies s (finalize_kind w k name s)
    controller_refines cip name s policies sync h =
        (reconcile_kind_refines cip s policies sync h, finalize_kind_refines s name policies sync h)
