-- ===== src/Webhook/Keys.antt =====
-- getKeys of pkg/cosign/kubernetes/webhook/validation.go: which keys it reads from a secret.
use mathlib.Core.List.{append_assoc, append-nil}
use cosign.Base.{
  ℕ, zero, suc, ◌<◌, Option-cases, String, none, some, List, [], ◌∷◌, ◌++◌, ◌≡◌, arith, ◌∙◌, ap,
  sym,
}
use cosign.Base.{Error, Result, ok, err, Result-cases, inl, inr}
use cosign.FieldError.{FieldErrors}
use cosign.World.{World}
use cosign.Policy.Convert.{text_length}
use cosign.Policy.Convert.Laws.{DecodeShrinks}
use cosign.Webhook.{parse_pems, collect_keys, note_key, finish_keys, get_keys}

module _ (w : World) where
  abbrev with_key : Result w.PublicKey → List w.PublicKey → List w.PublicKey
  with_key (ok key) keys = key ∷ keys
  with_key (err e) keys = keys

  -- The blocks that are public keys, in order.
  abbrev pub public_keys_of : List String → List w.PublicKey
  public_keys_of [] = []
  public_keys_of (p ∷ ps) = with_key (w.parse_pkix p) (public_keys_of ps)

  collect_keys_lem :
      (ps : List String) (keys : List w.PublicKey) (errs : List Error)
      → (more : List Error) × (collect_keys w ps (some keys, errs)
          ≡ (some (keys ++ public_keys_of ps), more))
  unfolding collect_keys note_key
  collect_keys_lem [] keys errs = (errs, ap (λ l. (some l, errs)) (sym (append-nil keys)))
  collect_keys_lem (p ∷ ps) keys errs = elim (Result-cases (w.parse_pkix p)) [
    | inl (key, e) ↦
        let (more, h) = collect_keys_lem ps (keys ++ key ∷ []) errs in
        (
          more,
          rw e (h ∙ ap (λ l. (some l, more)) (append_assoc keys (key ∷ []) (public_keys_of ps))),
        )
    | inr (x, e) ↦ let (more, h) = collect_keys_lem ps keys (errs ++ x ∷ []) in (more, rw e h)
  ]

  -- The PEM blocks of a text: what decoding yields, one after the other, until it yields none.
  abbrev pub PemBlocks : List String → String → Type 0
  PemBlocks [] s = w.pem_decode s ≡ none
  PemBlocks (b ∷ bs) s = (rest : String) × (w.pem_decode s ≡ some (b, rest)) × PemBlocks bs rest

  parse_pems-PemBlocks :
      (shrinks : DecodeShrinks w) (s : String) (n : ℕ)
      → text_length s < n
      → (blocks : List String) × (parse_pems w n s ≡ blocks) × PemBlocks blocks s
  unfolding parse_pems
  parse_pems-PemBlocks shrinks s zero h = elim h [ ]
  parse_pems-PemBlocks shrinks s (suc n) h = elim (Option-cases (w.pem_decode s)) [
    | inl e ↦ ([], ground arith, e)
    | inr ((block, rest), e) ↦
        let d = shrinks s block rest e in
        let (blocks, p, l) = parse_pems-PemBlocks shrinks rest n (omega arith) in
        (block ∷ blocks, ground arith, (rest, e, l))
  ]

  -- Where decoding a block shortens the text, and the fuel exceeds its length: the keys of a secret
  -- are those of its PEM blocks, all of them, that parse, in order, whatever the fuel, and there is
  -- never an error, so that a secret in which no block parses has no keys.
  pub get_keys_lem :
      (shrinks : DecodeShrinks w) (f : FieldErrors) (fuel : ℕ) (cosign_pub : String)
      → text_length cosign_pub < fuel
      → (blocks : List String) × PemBlocks blocks cosign_pub
        × (get_keys w f fuel cosign_pub ≡ (public_keys_of blocks, f.nil))
  unfolding get_keys finish_keys
  get_keys_lem shrinks f fuel cosign_pub enough =
      let (blocks, p, l) = parse_pems-PemBlocks shrinks cosign_pub fuel enough in
      let (more, h) = collect_keys_lem blocks [] [] in (blocks, l, simp (p, h))
