-- ===== src/Tests/Keys.antt =====
-- The results on the loops around PEM blocks, at concrete inputs.
use cosign.Policy.Convert.{unmarshal_key_ref}
use cosign.Policy.Convert.Inline.{Described, unmarshal_key_ref_iff}
use cosign.Base.{String, List, [], ◌∷◌, ◌↔◌, ok}
use cosign.Base.{true, ◌≡◌, inl, inr, arith}
use cosign.Base.{eq_iff, Bool-cases, ◌==◌}
use cosign.Policy.Convert.{parse_pem_key}
use cosign.Policy.Convert.Laws.{DecodeShrinks, parse_pem_key-fuel}
use cosign.Webhook.{get_keys}
use cosign.Webhook.Keys.{get_keys_lem, public_keys_of, PemBlocks}
use cosign.Tests.Toy.{toy, errors}

-- The decoder of the small world shortens what it decodes.
toy-DecodeShrinks : DecodeShrinks toy
toy-DecodeShrinks s block rest h = elim (Bool-cases (s == "k")) [
  | inr n ↦ absurd (ground arith)
  | inl y ↦
      let e : s ≡ "k" = (eq_iff s "k").0 y in
      let r : rest ≡ "" = ground arith in rw (e, r) (omega arith)
]

parse_pem_key-fuel_example : parse_pem_key toy 2 "k" ≡ parse_pem_key toy 9 "k"
parse_pem_key-fuel_example =
    parse_pem_key-fuel toy toy-DecodeShrinks "k" 2 9 (omega arith) (omega arith)

get_keys_lem_example :
    (blocks : List String) × PemBlocks toy blocks "k"
    × (get_keys toy errors 9 "k" ≡ (public_keys_of toy blocks, true))
get_keys_lem_example = get_keys_lem toy toy-DecodeShrinks errors 9 "k" (omega arith)

abbrev one_key : String
one_key = "k"

abbrev one_key_list : List String
one_key_list = one_key ∷ []

unmarshal_key_ref_iff_example :
    (unmarshal_key_ref toy one_key ≡ ok (record { key_data = one_key; public_keys = one_key_list }))
    ↔ Described toy one_key one_key_list
unmarshal_key_ref_iff_example = unmarshal_key_ref_iff toy toy-DecodeShrinks one_key one_key_list
