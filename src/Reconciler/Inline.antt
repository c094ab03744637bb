-- ===== src/Reconciler/Inline.antt =====
-- What inlinePublicKeys leaves of a policy: no reference to a secret, and no KMS URI.
use cosign.Base.{String, Option, none, some, true, false, List, [], ◌∷◌}
use cosign.Base.{◌≡◌, refl, ap, ◌∙◌, ◌⊎◌, inl, inr, arith, Bool-cases, Result-cases}
use cosign.Base.{ok, >>=-eq-ok}
use cosign.Base.Maps.{Map}
use cosign.World.{World}
use cosign.Policy.{SecretReference, KeyRef, KeylessRef, Authority, ClusterImagePolicySpec}
use cosign.Reconciler.{
  Kube, contains_text, get_kms_public_key, single_key, inline_and_track_secret, inline_ref,
  inline_secret, inline_ca_cert, inline_kms, inline_authority, inline_authorities,
  inline_public_keys, tracked,
}

module _ (w : World) (k : Kube w) where
  -- A key reference before and after its secret is inlined: as it was, if it names no secret; or
  -- else with the one entry of the secret, which is a valid key, in place of the secret.
  abbrev pub SecretInlined : KeyRef → KeyRef → Type 0
  SecretInlined before after =
      ((before.secret_ref ≡ none) × (after ≡ before))
      ⊎ ((ref : SecretReference) × (name : String) × (v : String) × (before.secret_ref ≡ some ref)
          × (k.secrets ref.name ≡ ok ((name, v) ∷ []))
          × (k.is_valid_key v ≡ true)
          × (after ≡ record before { key_data = v; secret_ref = none }))

  single_key-ok :
      (ref : String) (secret : Map String) (v : String)
      → single_key w k ref secret ≡ ok v
      → (name : String) × (secret ≡ ((name, v) ∷ [])) × (k.is_valid_key v ≡ true)
  unfolding single_key
  single_key-ok ref [] v h = cc
  single_key-ok ref ((name, u) ∷ []) v h = elim (Bool-cases (k.is_valid_key u)) [
    | inl y ↦ let e : u ≡ v = ground arith in (name, ap (λ x. (name, x) ∷ []) e, rw e at y)
    | inr n ↦ absurd (ground arith)
  ]
  single_key-ok ref (x ∷ y ∷ rest) v h = cc

  inline_ref-SecretInlined :
      (o : Option SecretReference) (before after : KeyRef)
      → before.secret_ref ≡ o
      → inline_ref w k o before ≡ ok after
      → SecretInlined before after
  unfolding inline_ref inline_and_track_secret
  inline_ref-SecretInlined none before after e h = inl (e, ground arith)
  inline_ref-SecretInlined (some ref) before after e h =
      let (u, t, h₁) = >>=-eq-ok (tracked w k ref.name (k.track_reference ref.name)) _ h in
      let (secret, s, h₂) = >>=-eq-ok (k.secrets ref.name) _ h₁ in
      let (v, p, h₃) = >>=-eq-ok (single_key w k ref.name secret) _ h₂ in
      let (name, q, valid) = single_key-ok ref.name secret v p in
      inr (ref, name, v, e, s ∙ ap ok q, valid, ground arith)

  abbrev pub SecretsInlined : Option KeyRef → Option KeyRef → Type 0
  SecretsInlined none after = after ≡ none
  SecretsInlined (some key) after = (key' : KeyRef) × (after ≡ some key') × SecretInlined key key'

  inline_secret-SecretsInlined :
      (before after : Option KeyRef)
      → inline_secret w k before ≡ ok after
      → SecretsInlined before after
  unfolding inline_secret
  inline_secret-SecretsInlined none after h = ground arith
  inline_secret-SecretsInlined (some key) after h =
      let (key', p, h₁) = >>=-eq-ok (inline_ref w k key.secret_ref key) _ h in
      (key', ground arith, inline_ref-SecretInlined key.secret_ref key key' refl p)

  -- No reference to a secret is left.
  abbrev pub NoSecret : Option KeyRef → Type 0
  NoSecret none = Unit
  NoSecret (some key) = key.secret_ref ≡ none

  SecretInlined-NoSecret :
      (before after : KeyRef) → SecretInlined before after → NoSecret (some after)
  SecretInlined-NoSecret before after (inl (n, e)) = rw e n
  SecretInlined-NoSecret before after (inr (ref, name, v, n, s, valid, e)) = rw e refl

  SecretsInlined-NoSecret :
      (before after : Option KeyRef) → SecretsInlined before after → NoSecret after
  SecretsInlined-NoSecret none after h = rw h tt
  SecretsInlined-NoSecret (some key) after (key', e, s) = rw e (SecretInlined-NoSecret key key' s)

  -- A key of a KMS, by a URI, is in place; or there was none, and nothing changes.
  abbrev pub KmsInlined : Option KeyRef → Option KeyRef → Type 0
  KmsInlined none after = after ≡ none
  KmsInlined (some key) after =
      ((contains_text key.kms "://" ≡ false) × (after ≡ some key))
      ⊎ ((contains_text key.kms "://" ≡ true)
          × ((pem : String) × (get_kms_public_key w k key.kms ≡ ok pem)
              × (after ≡ some (record key { key_data = pem; kms = "" }))))

  inline_kms-KmsInlined :
      (before after : Option KeyRef) → inline_kms w k before ≡ ok after → KmsInlined before after
  unfolding inline_kms
  inline_kms-KmsInlined none after h = ground arith
  inline_kms-KmsInlined (some key) after h = elim (Bool-cases (contains_text key.kms "://")) [
    | inr n ↦ inl (n, ground arith)
    | inl y ↦ elim (Result-cases (get_kms_public_key w k key.kms)) [
      | inl (pem, e) ↦ inr (y, (pem, e, ground arith))
      | inr (x, e) ↦ absurd (ground arith)
    ]
  ]

  KmsInlined-NoSecret :
      (before after : Option KeyRef) → NoSecret before → KmsInlined before after → NoSecret after
  KmsInlined-NoSecret none after n h = rw h tt
  KmsInlined-NoSecret (some key) after n (inl (c, e)) = rw e n
  KmsInlined-NoSecret (some key) after n (inr (c, (pem, g, e))) = rw e n

  abbrev pub CaCertInlined : Option KeylessRef → Option KeylessRef → Type 0
  CaCertInlined none after = after ≡ none
  CaCertInlined (some keyless) after =
      (ca_cert : Option KeyRef) × SecretsInlined keyless.ca_cert ca_cert
      × (after ≡ some (record keyless { ca_cert = ca_cert }))

  inline_ca_cert-CaCertInlined :
      (before after : Option KeylessRef)
      → inline_ca_cert w k before ≡ ok after
      → CaCertInlined before after
  unfolding inline_ca_cert
  inline_ca_cert-CaCertInlined none after h = ground arith
  inline_ca_cert-CaCertInlined (some keyless) after h =
      let (c, p, h₁) = >>=-eq-ok (inline_secret w k keyless.ca_cert) _ h in
      (c, inline_secret-SecretsInlined keyless.ca_cert c p, ground arith)

  -- An authority before and after: its key's secret and then its KMS key are inlined, and the
  -- secret of its CA certificate; nothing else changes.
  pub record AuthorityInlined (before after : Authority) : Type 0 where
    pub with_secret : Option KeyRef
    pub secret_inlined : SecretsInlined before.key with_secret
    pub kms_inlined : KmsInlined with_secret after.key
    pub ca_cert_inlined : CaCertInlined before.keyless after.keyless
    pub no_secret : NoSecret after.key
    pub same_sources : after.sources ≡ before.sources
    pub same_ctlog : after.ctlog ≡ before.ctlog

  inline_authority-AuthorityInlined :
      (before after : Authority)
      → inline_authority w k before ≡ ok after
      → AuthorityInlined before after
  unfolding inline_authority
  inline_authority-AuthorityInlined before after h =
      let (key, p, h₁) = >>=-eq-ok (inline_secret w k before.key) _ h in
      let (keyless, q, h₂) = >>=-eq-ok (inline_ca_cert w k before.keyless) _ h₁ in
      let (key', r, h₃) = >>=-eq-ok (inline_kms w k key) _ h₂ in
      let s = inline_secret-SecretsInlined before.key key p in
      let m = inline_kms-KmsInlined key key' r in
      let e : record before { key = key'; keyless = keyless } ≡ after = ground arith in
      rw (← e) (record {
        with_secret = key;
        secret_inlined = s;
        kms_inlined = m;
        ca_cert_inlined = inline_ca_cert-CaCertInlined before.keyless keyless q;
        no_secret = KmsInlined-NoSecret key key' (SecretsInlined-NoSecret before.key key s) m;
        same_sources = refl;
        same_ctlog = refl;
      })

  -- Each authority is inlined, in order.
  abbrev pub AllInlined : List Authority → List Authority → Type 0
  AllInlined [] after = after ≡ []
  AllInlined (a ∷ as') after =
      (b : Authority) × (bs : List Authority) × (after ≡ b ∷ bs)
      × AuthorityInlined a b
      × AllInlined as' bs

  inline_authorities-AllInlined :
      (before after : List Authority)
      → inline_authorities w k before ≡ ok after
      → AllInlined before after
  unfolding inline_authorities
  inline_authorities-AllInlined [] after h = ground arith
  inline_authorities-AllInlined (a ∷ as') after h =
      let (b, p, h₁) = >>=-eq-ok (inline_authority w k a) _ h in
      let (bs, q, h₂) = >>=-eq-ok (inline_authorities w k as') _ h₁ in
      (
        b,
        bs,
        ground arith,
        inline_authority-AuthorityInlined a b p,
        inline_authorities-AllInlined as' bs q,
      )

  -- Where the keys of a policy can be inlined, the images stay, and each authority stays but for
  -- its keys: a secret is replaced by its one entry, which is a valid key, and after that a KMS key
  -- by URI by the key that the KMS gives; no key of an authority refers to a secret any more.
  pub inline_public_keys-AllInlined :
      (spec after : ClusterImagePolicySpec)
      → inline_public_keys w k spec ≡ ok after
      → (after.images ≡ spec.images) × AllInlined spec.authorities after.authorities
  unfolding inline_public_keys
  inline_public_keys-AllInlined spec after h =
      let (l, p, h₁) = >>=-eq-ok (inline_authorities w k spec.authorities) _ h in
      let e : record spec { authorities = l } ≡ after = ground arith in
      rw (← e) (refl, inline_authorities-AllInlined spec.authorities l p)
