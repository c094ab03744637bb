-- ===== src/Reconciler/Webhook.antt =====
-- What the webhook reads of the config map that the controller keeps: NewImagePoliciesConfigFromMap
-- of pkg/apis/config/image_policies.go, on what pkg/reconciler/clusterimagepolicy has stored.
use cosign.Base.{String, Option, none, some, [], ◌∷◌, ◌==◌, eq_iff}
use cosign.Base.{◌≡◌, ◌≢◌, refl, sym, ap, ◌∙◌, inl, inr, arith, Bool-cases}
use cosign.Base.{◌<>◌, wrapped, ◌⊎◌, Error, Result-cases, err, Result, ok, if◌then◌else◌}
use cosign.Base.Maps.{Map, lookup, insert, IsMap, lookup-insert}
use cosign.World.{World}
use cosign.Policy.{ClusterImagePolicy}
use cosign.Policy.Entries.{EntryCodec, read_policy, parse_entry}
use cosign.Policy.Entries.Laws.{AsJson, PolicyRead, read_policy-PolicyRead}
use cosign.Policy.Matching.{ImagePolicyConfig, add_entries, new_image_policies_config_from_map}
use cosign.Reconciler.{Kube}
use cosign.Reconciler.Refines.{Policies, Holds, Reads}

module _ (w : World) (k : Kube w) (c : EntryCodec w) where
  -- The libraries read the text that they write for a policy: it is not empty, and its JSON gives
  -- `json_of` of the policy, which is the policy but for what is not in JSON.
  abbrev pub Decodes : (ClusterImagePolicy w → ClusterImagePolicy w) → Type 0
  Decodes json_of =
      (p : ClusterImagePolicy w) (text : String)
      → k.marshal_policy p ≡ ok text
      → (text ≢ "")
        × ((json : String) × (c.yaml_to_json text ≡ ok json)
            × (c.unmarshal_policy json ≡ ok (json_of p))
            × AsJson w c p (json_of p))

  module _ (json_of : ClusterImagePolicy w → ClusterImagePolicy w) (decodes : Decodes json_of) where
    parse_entry-json_of :
        (p : ClusterImagePolicy w) (text : String)
        → k.marshal_policy p ≡ ok text
        → parse_entry w c text ≡ read_policy w c (json_of p)
    unfolding parse_entry
    parse_entry-json_of p text h = let (ne, (json, y, u, _)) = decodes p text h in simp (y, u)

    json_of-same :
        (p q : ClusterImagePolicy w) (text : String)
        → k.marshal_policy p ≡ ok text
        → k.marshal_policy q ≡ ok text
        → json_of p ≡ json_of q
    json_of-same p q text h h' =
        let (ne, (json, y, u, _)) = decodes p text h in
        let (ne', (json', y', u', _)) = decodes q text h' in
        let same : json ≡ json' = ground arith in
        let e : Result.ok (json_of p) ≡ ok (json_of q) =
          sym u ∙ (ap c.unmarshal_policy same ∙ u') in
        ground arith

    -- Each entry is the text of a policy, and none is the example.
    Readable : Map String → Type 0
    Readable entries =
        (key text : String)
        → lookup key entries ≡ some text
        → (key ≢ "_example") × ((p : ClusterImagePolicy w) × (k.marshal_policy p ≡ ok text))

    Readable-tail :
        (name text : String) (rest : Map String)
        → IsMap ((name, text) ∷ rest)
        → Readable ((name, text) ∷ rest)
        → Readable rest
    unfolding Readable lookup
    Readable-tail name text rest m h key t e = h key t (ground (arith, eq_iff name key, m.0))

    Readable-head :
        (name text : String) (rest : Map String)
        → Readable ((name, text) ∷ rest)
        → (name ≢ "_example") × ((p : ClusterImagePolicy w) × (k.marshal_policy p ≡ ok text))
    unfolding Readable lookup
    Readable-head name text rest h = h name text (ground (arith, eq_iff name name))

    -- What the configuration has at a key: the policy of the entry, or what it had before.
    Shown : Option String → Option (ClusterImagePolicy w) → Option (ClusterImagePolicy w) → Type 0
    Shown none before after = after ≡ before
    Shown (some text) before after =
        (p : ClusterImagePolicy w) × (q : ClusterImagePolicy w) × (k.marshal_policy p ≡ ok text)
        × (read_policy w c (json_of p) ≡ ok q)
        × (after ≡ some q)

    Shown-cons :
        (name key text : String) (rest : Map String) (ret : ImagePolicyConfig w)
        (after : Option (ClusterImagePolicy w)) (p q : ClusterImagePolicy w)
        {inserted : Option (ClusterImagePolicy w)}
        → IsMap ((name, text) ∷ rest)
        → k.marshal_policy p ≡ ok text
        → read_policy w c (json_of p) ≡ ok q
        → inserted ≡ (if name == key then some q else lookup key ret)
        → Shown (lookup key rest) inserted after
        → Shown (lookup key ((name, text) ∷ rest)) (lookup key ret) after
    unfolding Shown lookup
    Shown-cons name key text rest ret after p q {inserted} m t r i h =
        elim (Bool-cases (name == key)) [
          | inl y ↦
              let e : lookup key rest ≡ none =
                ap (λ x. lookup x rest) (sym ((eq_iff name key).0 y)) ∙ m.0 in
              let x : after ≡ inserted = rw e at h in rw y (p, q, t, r, x ∙ (i ∙ rw y refl))
          | inr x ↦ let e : inserted ≡ lookup key ret = i ∙ rw x refl in rw (x, ← e) h
        ]

    -- Some entry is the text of a policy whose JSON is not read.
    Unread : Map String → Type 0
    Unread entries =
        (name : String) × (text : String) × (p : ClusterImagePolicy w) × (x : Error) × (lookup name
            entries
          ≡ some text)
        × (k.marshal_policy p ≡ ok text)
        × (read_policy w c (json_of p) ≡ err x)

    AllShown : Map String → ImagePolicyConfig w → Type 0
    AllShown entries ret =
        (cfg : ImagePolicyConfig w) × (add_entries w c entries ret ≡ ok cfg)
        × ((key : String) → Shown (lookup key entries) (lookup key ret) (lookup key cfg))

    Unread-cons :
        (name text : String) (rest : Map String)
        → IsMap ((name, text) ∷ rest)
        → Unread rest
        → Unread ((name, text) ∷ rest)
    unfolding Unread lookup
    Unread-cons name text rest m (n, t, p, x, l, q, r) =
        (n, t, p, x, ground (arith, eq_iff name n, m.0), q, r)

    add_entries-Shown :
        (entries : Map String) (ret : ImagePolicyConfig w)
        → IsMap entries
        → Readable entries
        → AllShown entries ret
          ⊎ (Unread entries × ((e : Error) × (add_entries w c entries ret ≡ err e)))
    unfolding add_entries AllShown Shown Unread lookup
    add_entries-Shown [] ret m h = inl (ret, refl, λ key. refl)
    add_entries-Shown ((name, text) ∷ rest) ret m h =
        let (n, (p, t)) = Readable-head name text rest h in
        let ne = (decodes p text t).0 in
        let parsed = parse_entry-json_of p text t in
        elim (Result-cases (read_policy w c (json_of p))) [
          | inr (x, r) ↦ inr (
            (name, text, p, x, ground (arith, eq_iff name name), t, r),
            (
              wrapped ("failed to parse the entry " <> (name <> (" : " <> text))) x,
              ground (arith, eq_iff name "_example", eq_iff text ""),
            ),
          )
          | inl (q, r) ↦
              elim (add_entries-Shown rest (insert name q ret) m.1
                (Readable-tail name text rest m h)) [
                  | inl (cfg, e, shown) ↦ inl (
                    cfg,
                    ground (arith, eq_iff name "_example", eq_iff text ""),
                    λ key.
                        Shown-cons name key text rest ret (lookup key cfg) p q m t r
                          (lookup-insert name key q ret) (shown key),
                  )
                  | inr (u, (e, f)) ↦ inr (
                    Unread-cons name text rest m u,
                    (e, ground (arith, eq_iff name "_example", eq_iff text "")),
                  )
                ]
        ]

    -- The webhook has the policy, as its text has it, with the keys and repositories that this gives,
    -- or none.
    abbrev pub ReadFor : Option (ClusterImagePolicy w) → Option (ClusterImagePolicy w) → Type 0
    ReadFor none after = after ≡ none
    ReadFor (some p) after =
        (json : ClusterImagePolicy w) × (q : ClusterImagePolicy w) × AsJson w c p json
        × PolicyRead w c json q
        × (after ≡ some q)

    Readable-Holds :
        (m : Map String) (policies : Policies w k)
        → Holds w k m policies
        → policies "_example" ≡ none
        → Readable m
    unfolding Readable
    Readable-Holds m policies h n key text e =
        let (p, q, t) = rw e at (h.1 key) in
        (λ x. absurd (let r = ap policies x in ground arith), (p, t))

    Shown-ReadFor :
        (a : Option String) (o after : Option (ClusterImagePolicy w))
        → Reads w k a o
        → Shown a none after
        → ReadFor o after
    unfolding Shown
    Shown-ReadFor none o after r s = rw r s
    Shown-ReadFor (some text) o after (p, e, t) (p', q, t', r, x) =
        let same = json_of-same p p' text t t' in
        let (_, (_, _, _, as_json)) = decodes p text t in
        rw e (json_of p, q, as_json, read_policy-PolicyRead w c (json_of p) q (rw same r), x)

    -- Where the libraries read the texts that they write, but for the keys and the client's options,
    -- which JSON leaves out: if the config map holds some policies, none of them named _example, then
    -- either the webhook reads all of it, and finds under each name the policy of that name with the
    -- keys of its texts and the repositories of its sources, or none if there is none; or it has an
    -- error, and there is a policy whose JSON it does not read.
    pub new_image_policies_config_from_map-Holds :
        (m : Map String) (policies : Policies w k)
        → Holds w k m policies
        → policies "_example" ≡ none
        → ((cfg : ImagePolicyConfig w) × (new_image_policies_config_from_map w c m ≡ ok cfg)
            × ((key : String) → ReadFor (policies key) (lookup key cfg)))
          ⊎ ((name : String) × (p : ClusterImagePolicy w) × (json : ClusterImagePolicy w)
              × (x : Error) × (e : Error) × (policies name ≡ some p)
              × AsJson w c p json
              × (read_policy w c json ≡ err x)
              × (new_image_policies_config_from_map w c m ≡ err e))
    unfolding new_image_policies_config_from_map AllShown Unread
    new_image_policies_config_from_map-Holds m policies h n =
        elim (add_entries-Shown m [] h.0 (Readable-Holds m policies h n)) [
          | inl (cfg, e, shown) ↦ inl (
            cfg,
            e,
            λ key.
                Shown-ReadFor (lookup key m) (policies key) (lookup key cfg) (h.1 key)
                  (unfold lookup in shown key),
          )
          | inr ((name, text, p, x, l, t, r), (e, f)) ↦
              let (p', q, t') = rw l at (h.1 name) in
              let (_, (_, _, _, as_json)) = decodes p' text t' in
              inr (name, p', json_of p', x, e, q, as_json, rw (json_of-same p' p text t' t) r, f)
        ]
