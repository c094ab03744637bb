-- ===== src/Reconciler/Refines.antt =====
-- The controller against its specification: the config map holds the text of each policy that is
-- applied and not deleted.
pub mod Controller
use cosign.Base.{String, Option, none, some, true, [], ◌∷◌, ◌==◌}
use cosign.Base.{◌≡◌, refl, sym, ap, ◌∙◌, ◌⊎◌, inl, inr, arith, Bool-cases, Result-cases}
use cosign.Base.{Error, Result, ok, err, if◌then◌else◌}
use cosign.Base.Maps.{Map, lookup, insert, remove, IsMap, lookup-insert, lookup-remove}
use cosign.World.{World}
use cosign.Policy.{ClusterImagePolicySpec, ClusterImagePolicy}
use cosign.Policy.Convert.{convert_policy}
use cosign.Reconciler.{
  Kube, NamedPolicy, State, Listed, found, not_found, inline_public_keys, new_config_map,
  patch_bytes, create_patch, create_remove_patch, stored_or, apply_patch, create_config_map,
  store_policy, remove_policy, handle_cip_error, reconcile_kind, finalize_kind,
}

-- Two maps that read alike.
abbrev pub Alike : Map String → Map String → Type 0
Alike m n = (key : String) → lookup key m ≡ lookup key n

-- What the controller relies on: the server stores a config map that it creates; a patch between
-- two maps is empty only if they read alike; the server's map reads like the second one once the
-- patch is applied to the first, and is a map.
pub record IsKube (w : World) (k : Kube w) : Type 0 where
  pub create_lem : (m n : Map String) → k.create m none ≡ ok n → n ≡ m
  pub empty_lem :
      (a b : Map String) (p : k.Patch)
      → k.create_patch a b ≡ ok p
      → k.is_empty_patch p ≡ true
      → Alike a b
  pub patch_lem :
      (a b n : Map String) (p : k.Patch) (bytes : String)
      → k.create_patch a b ≡ ok p
      → k.marshal_patch p ≡ ok bytes
      → k.patch bytes (some a) ≡ ok n
      → Alike n b × IsMap n

-- What the lister's cache says when it is up to date.
abbrev pub listing : Option (Map String) → Listed
listing none = not_found
listing (some m) = found m

abbrev pub IsSynced : State → Type 0
IsSynced s = s.listed ≡ listing s.stored

module _ (w : World) (k : Kube w) where
  -- The specification: the policies by name.
  abbrev pub Policies : Type 0
  Policies = String → Option (ClusterImagePolicy w)

  abbrev pub update : String → Option (ClusterImagePolicy w) → Policies → Policies
  update name o policies key = if name == key then o else policies key

  -- An entry is the text of the policy, and there is one exactly if there is a policy.
  abbrev pub Reads : Option String → Option (ClusterImagePolicy w) → Type 0
  Reads none o = o ≡ none
  Reads (some entry) o =
      (policy : ClusterImagePolicy w) × (o ≡ some policy) × (k.marshal_policy policy ≡ ok entry)

  abbrev pub Holds : Map String → Policies → Type 0
  Holds m policies = IsMap m × ((key : String) → Reads (lookup key m) (policies key))

  -- A config map that is not there holds no policy.
  abbrev pub Represents : Option (Map String) → Policies → Type 0
  Represents none policies = (key : String) → policies key ≡ none
  Represents (some m) policies = Holds m policies

  -- Reads depends on the entry only by its value.
  Reads-eq :
      {a b : Option String} {o p : Option (ClusterImagePolicy w)}
      → a ≡ b
      → o ≡ p
      → Reads a o
      → Reads b p
  Reads-eq {a} {b} {o} {p} e f h = rw (e, f) at h

  Reads-insert :
      (m n : Map String) (name entry : String) (policy : ClusterImagePolicy w) (policies : Policies)
      → ((key : String) → Reads (lookup key m) (policies key))
      → k.marshal_policy policy ≡ ok entry
      → Alike n (insert name entry m)
      → (key : String) → Reads (lookup key n) (update name (some policy) policies key)
  Reads-insert m n name entry policy policies h t l key =
      let e = l key ∙ lookup-insert name key entry m in
      elim (Bool-cases (name == key)) [
        | inl y ↦
            Reads-eq {a = some entry} {o = some policy} (sym (e ∙ rw y refl)) (rw y refl)
              (policy, refl, t)
        | inr x ↦ Reads-eq (sym (e ∙ rw x refl)) (rw x refl) (h key)
      ]

  Reads-remove :
      (m n : Map String) (name : String) (policies : Policies)
      → ((key : String) → Reads (lookup key m) (policies key))
      → Alike n (remove name m)
      → (key : String) → Reads (lookup key n) (update name none policies key)
  Reads-remove m n name policies h l key =
      let e = l key ∙ lookup-remove name key m in
      elim (Bool-cases (name == key)) [
        | inl y ↦ Reads-eq {a = none} {o = none} (sym (e ∙ rw y refl)) (rw y refl) refl
        | inr x ↦ Reads-eq (sym (e ∙ rw x refl)) (rw x refl) (h key)
      ]

  -- What a call of the server comes to: an error and no change, or no error and data of which P
  -- holds in the server's config map.
  abbrev Applied : (Map String → Type 0) → State → State × Option Error → Type 0
  Applied P s r =
      ((r.1 ≡ none) × ((n : Map String) × (r.0.stored ≡ some n) × P n))
      ⊎ ((e : Error) × (r ≡ (s, some e)))

  module _ (laws : IsKube w k) where
    stored_or-Applied :
        (P : Map String → Type 0) (s : State) (r : Result (Map String))
        → ((n : Map String) → r ≡ ok n → P n)
        → Applied P s (stored_or w k s r)
    unfolding stored_or
    stored_or-Applied P s (ok n) h = inl (refl, (n, refl, h n refl))
    stored_or-Applied P s (err e) h = inr (e, refl)

    -- The stored data, by its own name, so that it can be rewritten.
    patch-Applied :
        (s : State) (a b : Map String) (o : Option (Map String)) (p : k.Patch) (bytes : String)
        → o ≡ some a
        → k.create_patch a b ≡ ok p
        → k.marshal_patch p ≡ ok bytes
        → Applied (λ n. Alike n b × IsMap n) s (stored_or w k s (k.patch bytes o))
    patch-Applied s a b o p bytes st c q =
        stored_or-Applied (λ n. Alike n b × IsMap n) s (k.patch bytes o)
          (λ n e. laws.patch_lem a b n p bytes c q (rw st at e))

    apply_patch-Applied :
        (s : State) (a b : Map String)
        → s.stored ≡ some a
        → IsMap a
        → Applied (λ n. Alike n b × IsMap n) s (apply_patch w k s (patch_bytes w k a b))
    unfolding apply_patch patch_bytes
    apply_patch-Applied s a b st m = elim (Result-cases (k.create_patch a b)) [
      | inr (e, c) ↦ rw c (inr (_, refl))
      | inl (p, c) ↦ elim (Bool-cases (k.is_empty_patch p)) [
        | inl y ↦ rw (c, y) (inl (refl, (a, st, (laws.empty_lem a b p c y, m))))
        | inr n ↦ elim (Result-cases (k.marshal_patch p)) [
          | inr (e, q) ↦ rw (c, n, q) (inr (_, refl))
          | inl (bytes, q) ↦ rw (c, n, q) (patch-Applied s a b s.stored p bytes st c q)
        ]
      ]
    ]
