-- ===== src/Policy/Entries.antt =====
-- How the webhook reads one policy of the config map: parseEntry of pkg/apis/config/image_policies.go
-- and the decoding that its types add in clusterimagepolicy_types.go of
-- pkg/cosign/kubernetes/webhook/clusterimagepolicy.
pub mod Laws
use cosign.Base.{String, Option, none, some, List, [], ◌∷◌}
use cosign.Base.{Result, ok, err, wrap_result, ◌>>=◌}
use cosign.World.{World}
use cosign.Policy.{WebhookKeyRef, WebhookKeylessRef, WebhookAuthority, ClusterImagePolicy}
use cosign.Policy.Convert.{unmarshal_key_ref, unmarshal_authority}

-- The libraries: YAML to JSON; JSON to a policy whose keys are texts only, with no options of the
-- registry client; and `name.NewRepository`, with none for the zero value.
pub record EntryCodec (w : World) : Type 0 where
  pub yaml_to_json : String → Result String
  pub unmarshal_policy : String → Result (ClusterImagePolicy w)
  pub new_repository : String → Result (Option String)

module _ (w : World) (c : EntryCodec w) where
  unfoldable pub read_key : Option (WebhookKeyRef w) → Result (Option (WebhookKeyRef w))
  read_key none = ok none
  read_key (some k) = do read ← unmarshal_key_ref w k.key_data; ok (some read)

  unfoldable pub read_keyless : Option (WebhookKeylessRef w) → Result (Option (WebhookKeylessRef w))
  read_keyless none = ok none
  read_keyless (some k) = do cert ← read_key k.ca_cert; ok (some (record k { ca_cert = cert }))

  -- The values of an authority decode themselves, and then the authority.
  unfoldable pub read_authority : WebhookAuthority w → Result (WebhookAuthority w)
  read_authority raw = do
    key ← read_key raw.key
    keyless ← read_keyless raw.keyless
    unmarshal_authority w c.new_repository (record raw { key = key; keyless = keyless })

  unfoldable pub read_authorities : List (WebhookAuthority w) → Result (List (WebhookAuthority w))
  read_authorities [] = ok []
  read_authorities (a ∷ xs) = do
    read ← read_authority a
    rest ← read_authorities xs
    ok (read ∷ rest)

  -- `json.Unmarshal` into the webhook's policy
  unfoldable pub read_policy : ClusterImagePolicy w → Result (ClusterImagePolicy w)
  read_policy raw = do
    authorities ← read_authorities raw.authorities
    ok (record raw { authorities = authorities })

  -- The error of the conversion ends with the entry, which is left out.
  unfoldable pub parse_entry : String → Result (ClusterImagePolicy w)
  parse_entry entry = do
    json ← wrap_result "config's value could not be converted to JSON" (c.yaml_to_json entry)
    raw ← c.unmarshal_policy json
    read_policy raw
