-- ===== src/Policy/Convert/Inline.antt =====
-- Which keys an inlined text gives: KeyRef.UnmarshalJSON and ConvertKeyDataToPublicKeys of
-- pkg/cosign/kubernetes/webhook/clusterimagepolicy/clusterimagepolicy_types.go.
use cosign.Base.{
  ℕ, zero, suc, ◌<◌, some, Option-cases, sym, ◌∙◌, String, true, false, List, [], ◌∷◌, ◌==◌, ◌≡◌,
  ◌≢◌, refl, ◌↔◌, ◌⊎◌, inl, inr,
}
use cosign.Base.{arith, eq_iff, ok, >>=-eq-ok, Bool-cases, Result-cases}
use cosign.Base.{Bool}
use cosign.Base.Lists.{map}
use cosign.Policy.Convert.Laws.{DecodeShrinks}
use cosign.World.{World}
use cosign.Policy.Convert.{
  text_length, parse_pem_key, parse_keys, keys_of_blocks, convert_key_data_to_public_keys,
  unmarshal_key_ref,
}

module _ (w : World) where
  -- Each block parses, to these keys.
  abbrev pub AllParse : List String → List w.PublicKey → Type 0
  AllParse blocks keys = map w.parse_pkix blocks ≡ map ok keys

  parse_keys-AllParse :
      (blocks : List String) (keys : List w.PublicKey)
      → parse_keys w blocks ≡ ok keys
      → AllParse blocks keys
  unfolding parse_keys
  parse_keys-AllParse [] keys h = let e : [] ≡ keys = ground arith in rw (← e) refl
  parse_keys-AllParse (b ∷ bs) keys h =
      let (k, p, h₁) = >>=-eq-ok (w.parse_pkix b) _ h in
      let (ks, q, h₂) = >>=-eq-ok (parse_keys w bs) _ h₁ in
      let e : k ∷ ks ≡ keys = ground arith in rw (← e) (cc (p, parse_keys-AllParse bs ks q))

  AllParse-parse_keys :
      (blocks : List String) (keys : List w.PublicKey)
      → AllParse blocks keys
      → parse_keys w blocks ≡ ok keys
  unfolding parse_keys
  AllParse-parse_keys [] [] h = refl
  AllParse-parse_keys [] (k ∷ ks) h = cc
  AllParse-parse_keys (b ∷ bs) [] h = cc
  AllParse-parse_keys (b ∷ bs) (k ∷ ks) h =
      let p : w.parse_pkix b ≡ ok k = cc in let q = AllParse-parse_keys bs ks cc in rw (p, q) refl

  -- The text is these PEM blocks and nothing else: decoding yields one after the other, and leaves
  -- nothing.
  abbrev pub IsPem : List String → String → Type 0
  IsPem [] s = s ≡ ""
  IsPem (b ∷ bs) s = (rest : String) × (w.pem_decode s ≡ some (b, rest)) × IsPem bs rest

  parse_pem_key-last :
      (n : ℕ) (s block rest : String)
      → w.pem_decode s ≡ some (block, rest)
      → (rest == "") ≡ true
      → parse_pem_key w (suc n) s ≡ (block ∷ [], true)
  unfolding parse_pem_key
  parse_pem_key-last n s block rest e y = ground arith

  parse_pem_key-more :
      (n : ℕ) (s block rest : String)
      → w.pem_decode s ≡ some (block, rest)
      → (rest == "") ≡ false
      → parse_pem_key w (suc n) s ≡ (block ∷ (parse_pem_key w n rest).0, (parse_pem_key w n rest).1)
  unfolding parse_pem_key
  parse_pem_key-more n s block rest e m = ground arith

  more_blocks :
      (block : String) (r : List String × Bool) (blocks : List String)
      → ◌≡◌ {A = List String × Bool} (block ∷ r.0, r.1) (blocks, true)
      → (bs : List String) × (blocks ≡ block ∷ bs) × (r ≡ (bs, true))
  more_blocks block (bs, v) blocks h = (bs, ground arith, ground arith)

  parse_pem_key-IsPem :
      (n : ℕ) (s : String) (blocks : List String)
      → parse_pem_key w n s ≡ (blocks, true)
      → IsPem blocks s
  unfolding parse_pem_key
  parse_pem_key-IsPem zero s blocks h = absurd (ground arith)
  parse_pem_key-IsPem (suc n) s blocks h = elim (Option-cases (w.pem_decode s)) [
    | inl e ↦ absurd (ground arith)
    | inr ((block, rest), e) ↦ elim (Bool-cases (rest == "")) [
      | inl y ↦ let q : blocks ≡ block ∷ [] = ground arith in rw q (rest, e, (eq_iff rest "").0 y)
      | inr m ↦
          let (bs, q, r) =
            more_blocks block (parse_pem_key w n rest) blocks
              (sym (parse_pem_key-more n s block rest e m) ∙ h) in
          rw q (rest, e, parse_pem_key-IsPem n rest bs r)
    ]
  ]

  IsPem-empty : (shrinks : DecodeShrinks w) (blocks : List String) → IsPem blocks "" → blocks ≡ []
  IsPem-empty shrinks [] h = refl
  IsPem-empty shrinks (b ∷ bs) (rest, e, l) = let d = shrinks "" b rest e in absurd (omega arith)

  IsPem-parse_pem_key :
      (shrinks : DecodeShrinks w) (n : ℕ) (s : String) (blocks : List String)
      → text_length s < n
      → s ≢ ""
      → IsPem blocks s
      → parse_pem_key w n s ≡ (blocks, true)
  unfolding parse_pem_key
  IsPem-parse_pem_key shrinks zero s blocks h ne l = elim h [ ]
  IsPem-parse_pem_key shrinks (suc n) s [] h ne l = absurd (ne l)
  IsPem-parse_pem_key shrinks (suc n) s (b ∷ bs) h ne (rest, e, l) =
      let d = shrinks s b rest e in
      elim (Bool-cases (rest == "")) [
        | inl y ↦
            let q = IsPem-empty shrinks bs (rw ((eq_iff rest "").0 y) at l) in
            rw q (parse_pem_key-last n s b rest e y)
        | inr m ↦
            let ih =
              IsPem-parse_pem_key shrinks n rest bs (omega arith) (ground (arith, eq_iff rest ""))
                l in
            parse_pem_key-more n s b rest e m ∙ simp ih
      ]

  -- The keys of what the blocks come to: none if they are not the whole text, and else theirs.
  abbrev KeysOf : List String × Bool → List w.PublicKey → Type 0
  KeysOf (blocks, false) keys = keys ≡ []
  KeysOf (blocks, true) keys = AllParse blocks keys

  keys_of_blocks_iff :
      (r : List String × Bool) (keys : List w.PublicKey)
      → (keys_of_blocks w r ≡ ok keys) ↔ KeysOf r keys
  unfolding keys_of_blocks
  keys_of_blocks_iff (blocks, false) keys = (λ h. ground arith, λ h. ground arith)
  keys_of_blocks_iff (blocks, true) keys =
      (parse_keys-AllParse blocks keys, AllParse-parse_keys blocks keys)

  -- The text is PEM blocks and nothing else, with these keys; or it is not that, and no keys.
  abbrev pub Described : String → List w.PublicKey → Type 0
  Described key_data keys =
      ((blocks : List String) × IsPem blocks key_data × AllParse blocks keys)
      ⊎ (((blocks : List String) → ¬ IsPem blocks key_data) × (keys ≡ []))

  KeysOf-Described :
      (shrinks : DecodeShrinks w) (n : ℕ) (s : String) (keys : List w.PublicKey)
      (r : List String × Bool)
      → parse_pem_key w n s ≡ r
      → text_length s < n
      → s ≢ ""
      → KeysOf r keys ↔ Described s keys
  KeysOf-Described shrinks n s keys (blocks, true) e h ne = (
    λ a. inl (blocks, parse_pem_key-IsPem n s blocks e, a),
    λ d. elim d [
      | inl (bs, l, a) ↦
          let q = IsPem-parse_pem_key shrinks n s bs h ne l in
          let same : bs ≡ blocks = ground arith in rw same at a
      | inr (none_fits, _) ↦ absurd (none_fits blocks (parse_pem_key-IsPem n s blocks e))
    ],
  )
  KeysOf-Described shrinks n s keys (blocks, false) e h ne = (
    λ a. inr (λ bs l. let q = IsPem-parse_pem_key shrinks n s bs h ne l in ground arith, a),
    λ d. elim d [
      | inl (bs, l, a) ↦ let q = IsPem-parse_pem_key shrinks n s bs h ne l in absurd (ground arith)
      | inr (none_fits, e) ↦ e
    ],
  )

  AllParse-empty : (keys : List w.PublicKey) → AllParse [] keys → keys ≡ []
  AllParse-empty [] a = refl
  AllParse-empty (k ∷ ks) a = cc

  Described-empty :
      (shrinks : DecodeShrinks w) (keys : List w.PublicKey) → (keys ≡ []) ↔ Described "" keys
  Described-empty shrinks keys = (
    λ e. inl ([], refl, rw e refl),
    λ d. elim d [
      | inl (blocks, l, a) ↦ AllParse-empty keys (rw (IsPem-empty shrinks blocks l) at a)
      | inr (none_fits, e) ↦ e
    ],
  )

  -- Where decoding a block shortens the text: a key reference is read, with these keys, exactly if
  -- the text is PEM blocks and nothing else, of which each is the key in its place (the empty text
  -- has no blocks and no keys), or the text is not that and there are no keys.
  pub unmarshal_key_ref_iff :
      (shrinks : DecodeShrinks w) (key_data : String) (keys : List w.PublicKey)
      → (unmarshal_key_ref w key_data ≡ ok (record { key_data = key_data; public_keys = keys }))
        ↔ Described key_data keys
  unfolding unmarshal_key_ref convert_key_data_to_public_keys
  unmarshal_key_ref_iff shrinks key_data keys = elim (Bool-cases (key_data == "")) [
    | inl y ↦
        let q = (eq_iff key_data "").0 y in
        let d = Described-empty shrinks keys in
        (λ h. rw q (d.0 (ground arith)), λ x. let e = d.1 (rw q at x) in ground arith)
    | inr n ↦
        let r = parse_pem_key w (suc (text_length key_data)) key_data in
        let k = keys_of_blocks_iff r keys in
        let d =
          KeysOf-Described shrinks (suc (text_length key_data)) key_data keys r refl (omega arith)
            (ground (arith, eq_iff key_data "")) in
        (
          λ h. d.0 (
              k.0 (elim (Result-cases (keys_of_blocks w r)) [
                | inl (l, e) ↦ ground arith
                | inr (x, e) ↦ absurd (ground arith)
              ])),
          λ x. let q = k.1 (d.1 x) in ground (arith, n),
        )
  ]
