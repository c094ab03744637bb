-- ===== src/Policy/Entries/Laws.antt =====
-- What the webhook's policy has beside the JSON of its entry: the keys of the texts, and the
-- repositories of the sources.
use cosign.Base.{String, Option, none, some, List, [], ◌∷◌, ◌++◌}
use cosign.Base.{◌≡◌, refl, sym, ap, ◌∙◌, ◌⊎◌, inl, inr, arith, Option-cases}
use cosign.Base.{ok, wrap_result, >>=-eq-ok, wrap_result-eq-ok}
use mathlib.Core.List.{append_assoc, append-nil}
use cosign.World.{World}
use cosign.Policy.{Source, WebhookKeyRef, WebhookKeylessRef, WebhookAuthority, ClusterImagePolicy}
use cosign.Policy.Convert.{unmarshal_key_ref, unmarshal_authority, add_target, target_repositories}
use cosign.Policy.Entries.{
  EntryCodec, read_key, read_keyless, read_authority, read_authorities, read_policy,
}

module _ (w : World) (c : EntryCodec w) where
  -- What JSON keeps of a key reference: its text. The keys are not in it.
  abbrev pub KeyAsJson : Option (WebhookKeyRef w) → Option (WebhookKeyRef w) → Type 0
  KeyAsJson none none = Unit
  KeyAsJson (some a) (some b) = b.key_data ≡ a.key_data
  KeyAsJson _ _ = ⊥

  -- An empty list of identities is left out of the text.
  abbrev pub KeylessAsJson : Option (WebhookKeylessRef w) → Option (WebhookKeylessRef w) → Type 0
  KeylessAsJson none none = Unit
  KeylessAsJson (some a) (some b) =
      (b.url ≡ a.url)
      × ((b.identities ≡ a.identities) ⊎ ((a.identities ≡ some []) × (b.identities ≡ none)))
      × KeyAsJson a.ca_cert b.ca_cert
  KeylessAsJson _ _ = ⊥

  abbrev pub AuthoritiesAsJson : List (WebhookAuthority w) → List (WebhookAuthority w) → Type 0
  AuthoritiesAsJson [] [] = Unit
  AuthoritiesAsJson (a ∷ xs) (b ∷ ys) =
      (KeyAsJson a.key b.key
        × KeylessAsJson a.keyless b.keyless
        × (b.sources ≡ a.sources)
        × (b.ctlog ≡ a.ctlog)
        × (b.remote_opts ≡ []))
      × AuthoritiesAsJson xs ys
  AuthoritiesAsJson _ _ = ⊥

  -- A policy, and what its text has of it: the keys and the options of the client are left out.
  abbrev pub AsJson : ClusterImagePolicy w → ClusterImagePolicy w → Type 0
  AsJson p q = (q.images ≡ p.images) × AuthoritiesAsJson p.authorities q.authorities

  -- A key reference, and what is read of it: the keys of its text.
  abbrev pub KeyRead : Option (WebhookKeyRef w) → Option (WebhookKeyRef w) → Type 0
  KeyRead none none = Unit
  KeyRead (some a) (some b) = unmarshal_key_ref w a.key_data ≡ ok b
  KeyRead _ _ = ⊥

  abbrev pub KeylessRead : Option (WebhookKeylessRef w) → Option (WebhookKeylessRef w) → Type 0
  KeylessRead none none = Unit
  KeylessRead (some a) (some b) =
      (b.url ≡ a.url) × (b.identities ≡ a.identities) × KeyRead a.ca_cert b.ca_cert
  KeylessRead _ _ = ⊥

  -- The repositories that the sources name, in order; a source may name none.
  abbrev pub TargetsOf : List Source → List String → Type 0
  TargetsOf [] repositories = repositories ≡ []
  TargetsOf (s ∷ ss) repositories =
      ((c.new_repository s.oci ≡ ok none) × TargetsOf ss repositories)
      ⊎ ((r : String) × (rest : List String) × (c.new_repository s.oci ≡ ok (some r))
          × (repositories ≡ r ∷ rest)
          × TargetsOf ss rest)

  abbrev pub AuthorityRead : WebhookAuthority w → WebhookAuthority w → Type 0
  AuthorityRead a b =
      KeyRead a.key b.key
      × KeylessRead a.keyless b.keyless
      × (b.sources ≡ a.sources)
      × (b.ctlog ≡ a.ctlog)
      × ((repositories : List String) × TargetsOf a.sources repositories
          × (b.remote_opts ≡ a.remote_opts ++ repositories))

  abbrev pub AuthoritiesRead : List (WebhookAuthority w) → List (WebhookAuthority w) → Type 0
  AuthoritiesRead [] [] = Unit
  AuthoritiesRead (a ∷ xs) (b ∷ bs) = AuthorityRead a b × AuthoritiesRead xs bs
  AuthoritiesRead _ _ = ⊥

  -- A policy of the JSON, and what the webhook has of it.
  abbrev pub PolicyRead : ClusterImagePolicy w → ClusterImagePolicy w → Type 0
  PolicyRead p q = (q.images ≡ p.images) × AuthoritiesRead p.authorities q.authorities

  read_key-KeyRead : (a b : Option (WebhookKeyRef w)) → read_key w c a ≡ ok b → KeyRead a b
  unfolding read_key
  read_key-KeyRead none none h = tt
  read_key-KeyRead none (some b) h = cc
  read_key-KeyRead (some a) none h =
      let (k, p, x) = >>=-eq-ok (unmarshal_key_ref w a.key_data) _ h in absurd (ground arith)
  read_key-KeyRead (some a) (some b) h =
      let (k, p, x) = >>=-eq-ok (unmarshal_key_ref w a.key_data) _ h in ground arith

  read_keyless-KeylessRead :
      (a b : Option (WebhookKeylessRef w)) → read_keyless w c a ≡ ok b → KeylessRead a b
  unfolding read_keyless
  read_keyless-KeylessRead none none h = tt
  read_keyless-KeylessRead none (some b) h = cc
  read_keyless-KeylessRead (some a) none h =
      let (k, p, x) = >>=-eq-ok (read_key w c a.ca_cert) _ h in absurd (ground arith)
  read_keyless-KeylessRead (some a) (some b) h =
      let (k, p, x) = >>=-eq-ok (read_key w c a.ca_cert) _ h in
      let e : record a { ca_cert = k } ≡ b = ground arith in
      (
        sym (ap (λ r. r.url) e),
        sym (ap (λ r. r.identities) e),
        read_key-KeyRead a.ca_cert b.ca_cert (p ∙ ap (λ r. ok r.ca_cert) e),
      )

  target_repositories-TargetsOf :
      (ss : List Source) (opts out : List String)
      → target_repositories w c.new_repository ss opts ≡ ok out
      → (repositories : List String) × TargetsOf ss repositories × (out ≡ opts ++ repositories)
  unfolding target_repositories add_target
  target_repositories-TargetsOf [] opts out h =
      let e : opts ≡ out = ground arith in ([], refl, sym e ∙ sym (append-nil opts))
  target_repositories-TargetsOf (s ∷ ss) opts out h =
      let (target, p, h₁) = >>=-eq-ok (wrap_result _ (c.new_repository s.oci)) _ h in
      let q = wrap_result-eq-ok _ _ p in
      elim (Option-cases target) [
        | inl n ↦
            let (rs, t, e) = target_repositories-TargetsOf ss opts out (rw n at h₁) in
            (rs, inl (q ∙ ap ok n, t), e)
        | inr (r, n) ↦
            let (rs, t, e) = target_repositories-TargetsOf ss (opts ++ r ∷ []) out (rw n at h₁) in
            (r ∷ rs, inr (r, rs, q ∙ ap ok n, refl, t), e ∙ append_assoc opts (r ∷ []) rs)
      ]

  read_authority-AuthorityRead :
      (a b : WebhookAuthority w) → read_authority w c a ≡ ok b → AuthorityRead a b
  unfolding read_authority unmarshal_authority
  read_authority-AuthorityRead a b h =
      let (key, p, h₁) = >>=-eq-ok (read_key w c a.key) _ h in
      let (keyless, q, h₂) = >>=-eq-ok (read_keyless w c a.keyless) _ h₁ in
      let (opts, t, h₃) =
        >>=-eq-ok (target_repositories w c.new_repository a.sources a.remote_opts) _ h₂ in
      let e : record a { key = key; keyless = keyless; remote_opts = opts } ≡ b = ground arith in
      let (rs, l, o) = target_repositories-TargetsOf a.sources a.remote_opts opts t in
      (
        read_key-KeyRead a.key b.key (p ∙ ap (λ r. ok r.key) e),
        read_keyless-KeylessRead a.keyless b.keyless (q ∙ ap (λ r. ok r.keyless) e),
        sym (ap (λ r. r.sources) e),
        sym (ap (λ r. r.ctlog) e),
        (rs, l, sym (ap (λ r. r.remote_opts) e) ∙ o),
      )

  read_authorities-AuthoritiesRead :
      (xs bs : List (WebhookAuthority w)) → read_authorities w c xs ≡ ok bs → AuthoritiesRead xs bs
  unfolding read_authorities
  read_authorities-AuthoritiesRead [] [] h = tt
  read_authorities-AuthoritiesRead [] (b ∷ bs) h = cc
  read_authorities-AuthoritiesRead (a ∷ xs) [] h =
      let (x, p, h₁) = >>=-eq-ok (read_authority w c a) _ h in
      let (ys, q, h₂) = >>=-eq-ok (read_authorities w c xs) _ h₁ in absurd (ground arith)
  read_authorities-AuthoritiesRead (a ∷ xs) (b ∷ bs) h =
      let (x, p, h₁) = >>=-eq-ok (read_authority w c a) _ h in
      let (ys, q, h₂) = >>=-eq-ok (read_authorities w c xs) _ h₁ in
      (
        read_authority-AuthorityRead a b (ground arith),
        read_authorities-AuthoritiesRead xs bs (ground arith),
      )

  pub read_policy-PolicyRead :
      (p q : ClusterImagePolicy w) → read_policy w c p ≡ ok q → PolicyRead p q
  unfolding read_policy
  read_policy-PolicyRead p q h =
      let (xs, r, h₁) = >>=-eq-ok (read_authorities w c p.authorities) _ h in
      let e : record p { authorities = xs } ≡ q = ground arith in
      (
        sym (ap (λ r. r.images) e),
        read_authorities-AuthoritiesRead p.authorities q.authorities
            (r ∙ ap (λ r. ok r.authorities) e),
      )
