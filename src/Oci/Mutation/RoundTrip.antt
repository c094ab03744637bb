-- ===== src/Oci/Mutation/RoundTrip.antt =====
-- A changed signature, published and read back from its layer.
use cosign.Base.{String, Option, none, some, List, [], ◌==◌, eq_iff}
use cosign.Base.{◌≡◌, ◌≢◌, refl, sym, ap, ◌∙◌, arith, inl, inr, Bool-cases}
use cosign.Base.{Result, ok, >>=-eq-ok, if◌then◌else◌}
use cosign.Base.Maps.{Map, lookup, insert, remove, lookup-insert, lookup-remove}
use cosign.World.{World}
use cosign.Verify.{RekorBundle}
use cosign.Oci.{sigkey, certkey, chainkey, bundlekey, Layer, Descriptor, OciSignature, Codec}
use cosign.Oci.Mutation.{
  SignatureOpts, text_at, first_cert, layer_cert, layer_chain, layer_bundle, layer_base64,
  layer_signature, kept, kept, or_empty, base_annotations, with_bundle, Certified, with_chain,
  with_cert, or_wrapped, or_wrapped_option, wrapper, mutate_signature,
}

module _ (w : World) (c : Codec w) where
  -- What the codecs promise: a bundle's JSON is not empty and is read back, and there is no
  -- certificate in an empty text.
  pub record IsCodec : Type 0 where
    pub bundle_lem :
        (b : RekorBundle) (t : String)
        → c.marshal_bundle b ≡ ok t
        → (t ≢ "") × (c.unmarshal_bundle t ≡ ok b)
    pub empty_lem : c.load_certificates "" ≡ ok []

  lookup-kept :
      (o : Option String) (key other : String) (ann : Map String)
      → lookup other (kept o key ann) ≡ (if key == other then o else lookup other ann)
  lookup-kept none key other ann = lookup-remove key other ann
  lookup-kept (some v) key other ann = lookup-insert key other v ann

  module _ (old : Map String) where
    -- The annotations that a signature is read from are the old ones.
    abbrev IsLike : Map String → Type 0
    IsLike ann =
        (lookup sigkey ann ≡ lookup sigkey old)
        × (lookup bundlekey ann ≡ lookup bundlekey old)
        × (lookup certkey ann ≡ lookup certkey old)
        × (lookup chainkey ann ≡ lookup chainkey old)

    base_annotations-IsLike :
        (o : Option (Map String)) (s : String)
        → lookup sigkey old ≡ some s
        → IsLike (base_annotations w c o old)
    unfolding base_annotations text_at
    base_annotations-IsLike none s e = (refl, refl, refl, refl)
    base_annotations-IsLike (some ann) s e = (
      simp (lookup-kept, lookup-insert, e) refl,
      simp lookup-kept refl,
      simp lookup-kept refl,
      simp lookup-kept refl,
    )

  -- The chain that the annotations have: none where a certificate is given without a chain.
  abbrev pub published_chain :
      Option String → Option String → Result (List w.Certificate) → Result (List w.Certificate)
  published_chain none chain r = r
  published_chain (some cert) none r = ok []
  published_chain (some cert) (some chain) r = r

  -- What is read of the annotations once the certificate is in them.
  abbrev Certifies : Option String → Option String → Map String → Certified w c → Type 0
  Certifies cert chain ann (new, x, y) =
      (lookup sigkey new ≡ lookup sigkey ann)
      × (lookup bundlekey new ≡ lookup bundlekey ann)
      × (layer_cert w c (text_at certkey new)
          ≡ or_wrapped_option w c x (layer_cert w c (text_at certkey ann)))
      × (layer_chain w c (text_at chainkey new)
          ≡ published_chain cert chain (or_wrapped w c y (layer_chain w c (text_at chainkey ann))))

  module _ (laws : IsCodec) where
    layer_cert-first :
        (pem : String) (certs : List w.Certificate) (cert : w.Certificate)
        → c.load_certificates pem ≡ ok certs
        → first_cert w c certs ≡ ok cert
        → layer_cert w c pem ≡ ok (some cert)
    unfolding layer_cert first_cert
    layer_cert-first pem certs cert p q = elim (Bool-cases (pem == "")) [
      | inl y ↦
          let none_there : ok [] ≡ ok certs =
            sym laws.empty_lem ∙ ap c.load_certificates (sym ((eq_iff pem "").0 y)) ∙ p in
          let e : [] ≡ certs = ground arith in absurd (ground (arith, rw (sym e) at q))
      | inr n ↦ rw (n, p, q) refl
    ]

    layer_chain-load : (pem : String) → layer_chain w c pem ≡ c.load_certificates pem
    unfolding layer_chain
    layer_chain-load pem = elim (Bool-cases (pem == "")) [
      | inl y ↦ rw y (sym laws.empty_lem ∙ ap c.load_certificates (sym ((eq_iff pem "").0 y)))
      | inr n ↦ rw n refl
    ]

    with_cert-Certifies :
        (cert chain : Option String) (ann : Map String) (r : Certified w c)
        → with_cert w c cert chain ann ≡ ok r
        → Certifies cert chain ann r
    unfolding with_cert with_chain or_wrapped or_wrapped_option text_at
    with_cert-Certifies none chain ann r h =
        let e : (ann, none, none) ≡ r = ground arith in rw (sym e) (refl, refl, refl, refl)
    with_cert-Certifies (some pem) none ann r h =
        let (certs, p, h₁) = >>=-eq-ok (c.load_certificates pem) _ h in
        let (cert, q, h₂) = >>=-eq-ok (first_cert w c certs) _ h₁ in
        let e : (remove chainkey (insert certkey pem ann), some cert, none) ≡ r = ground arith in
        rw (sym e) (
          simp (lookup-remove, lookup-insert) refl,
          simp (lookup-remove, lookup-insert) refl,
          simp (lookup-remove, lookup-insert) (layer_cert-first pem certs cert p q),
          simp lookup-remove (layer_chain-load "" ∙ laws.empty_lem),
        )
    with_cert-Certifies (some pem) (some more) ann r h =
        let (certs, p, h₁) = >>=-eq-ok (c.load_certificates pem) _ h in
        let (cert, q, h₂) = >>=-eq-ok (first_cert w c certs) _ h₁ in
        let (chain, l, h₃) = >>=-eq-ok (c.load_certificates more) _ h₂ in
        let e : (
          insert chainkey more (remove chainkey (insert certkey pem ann)),
          some cert,
          some chain,
        )
            ≡ r =
          ground arith in
        rw (sym e) (
          simp (lookup-remove, lookup-insert) refl,
          simp (lookup-remove, lookup-insert) refl,
          simp (lookup-remove, lookup-insert) (layer_cert-first pem certs cert p q),
          simp lookup-insert (layer_chain-load more ∙ l),
        )

    -- What is read of the annotations once the bundle is in them.
    abbrev Bundles : Option RekorBundle → Map String → Map String → Type 0
    Bundles b ann new =
        (lookup sigkey new ≡ lookup sigkey ann)
        × (lookup certkey new ≡ lookup certkey ann)
        × (lookup chainkey new ≡ lookup chainkey ann)
        × (layer_bundle w c (text_at bundlekey new)
            ≡ or_wrapped_option w c b (layer_bundle w c (text_at bundlekey ann)))

    layer_bundle-unmarshal :
        (b : RekorBundle) (t : String)
        → c.marshal_bundle b ≡ ok t
        → layer_bundle w c t ≡ ok (some b)
    unfolding layer_bundle
    layer_bundle-unmarshal b t m =
        let (n, back) = laws.bundle_lem b t m in
        elim (Bool-cases (t == "")) [
          | inl y ↦ absurd (n ((eq_iff t "").0 y))
          | inr x ↦ rw (x, back) refl
        ]

    with_bundle-Bundles :
        (b : Option RekorBundle) (ann new : Map String)
        → with_bundle w c b ann ≡ ok new
        → Bundles b ann new
    unfolding with_bundle or_wrapped_option text_at
    with_bundle-Bundles none ann new h =
        let e : ann ≡ new = ground arith in rw (sym e) (refl, refl, refl, refl)
    with_bundle-Bundles (some b) ann new h =
        let (t, m, h₁) = >>=-eq-ok (c.marshal_bundle b) _ h in
        let e : insert bundlekey t ann ≡ new = ground arith in
        rw (sym e) (
          simp lookup-insert refl,
          simp lookup-insert refl,
          simp lookup-insert refl,
          simp lookup-insert (layer_bundle-unmarshal b t m),
        )

    -- The signature of annotations that hold a bundle and a certificate, against the wrapper.
    annotations-wrapper :
        (l : Layer) (d : Descriptor) (so : SignatureOpts w) (s : String) (one : Map String)
        (two : Certified w c)
        → lookup sigkey d.annotations ≡ some s
        → with_bundle w c so.bundle (base_annotations w c so.annotations d.annotations) ≡ ok one
        → with_cert w c so.cert so.chain one ≡ ok two
        → let m = wrapper w c (layer_signature w c l d) so.bundle so.media_type two in
          (layer_signature w c l (record d { annotations = two.0 })).signature
          ≡ record m.signature { chain = published_chain so.cert so.chain m.signature.chain }
    unfolding layer_signature wrapper text_at
    annotations-wrapper l d so s one two e b t =
        let old = d.annotations in
        let (s₀, b₀, c₀, n₀) = base_annotations-IsLike old so.annotations s e in
        let (s₁, c₁, n₁, b₁) = with_bundle-Bundles so.bundle _ one b in
        let (s₂, b₂, c₂, n₂) = with_cert-Certifies so.cert so.chain one two t in
        let base = s₂ ∙ s₁ ∙ s₀ in
        let bundle =
          ap (λ o. layer_bundle w c (or_empty o)) b₂
          ∙ b₁
          ∙ ap (λ o. or_wrapped_option w c so.bundle (layer_bundle w c (or_empty o))) b₀ in
        let cert =
          c₂ ∙ ap (λ o. or_wrapped_option w c two.1 (layer_cert w c (or_empty o))) (c₁ ∙ c₀) in
        let chain =
          n₂
          ∙ ap
              (λ o.
                published_chain so.cert so.chain
                  (or_wrapped w c two.2 (layer_chain w c (or_empty o))))
              (n₁ ∙ n₀) in
        rw (base, bundle, cert, chain) refl

    -- A signature that `mutate.Signature` makes of one that is read from a layer, and that is
    -- published with its annotations, is read back: its text, payload, certificate and bundle are
    -- the ones that it had, and so is its chain, but that there is none where the options give a
    -- certificate without a chain. The layer has the annotation of the signature.
    pub mutate_signature-roundtrip :
        (l : Layer) (d : Descriptor) (so : SignatureOpts w) (s : String) (m : OciSignature w)
        (ann : Map String)
        → lookup sigkey d.annotations ≡ some s
        → mutate_signature w c (layer_signature w c l d) so ≡ ok m
        → m.annotations ≡ ok ann
        → (layer_signature w c l (record d { annotations = ann })).signature
          ≡ record m.signature { chain = published_chain so.cert so.chain m.signature.chain }
    unfolding mutate_signature layer_signature wrapper layer_base64
    mutate_signature-roundtrip l d so s m ann e h a =
        let (one, b, h₁) =
          >>=-eq-ok (with_bundle w c so.bundle (base_annotations w c so.annotations d.annotations))
            _ h in
        let (two, t, h₂) = >>=-eq-ok (with_cert w c so.cert so.chain one) _ h₁ in
        let same : wrapper w c (layer_signature w c l d) so.bundle so.media_type two ≡ m =
          ground arith in
        let new : ok two.0 ≡ ok ann = ap OciSignature.annotations same ∙ a in
        let ann_eq : two.0 ≡ ann = ground arith in
        rw (sym same, sym ann_eq) (annotations-wrapper l d so s one two e b t)
