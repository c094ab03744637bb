-- ===== src/Policy/Convert.antt =====
-- From the user's policy to the webhook's: clusterimagepolicy_types.go of
-- pkg/cosign/kubernetes/webhook/clusterimagepolicy. The recursion of parsePEMKey on the rest of its
-- input takes fuel: one more than the length of the text.
pub mod Laws
pub mod Inline
use cosign.Base.{ℕ, zero, suc, String, Option, none, some, Bool, true, false, List, [], ◌∷◌, ◌==◌}
use cosign.Base.{Error, message, Result, ok, err, wrap_result, ◌>>=◌, if◌then◌else◌, ◌++◌}
use cosign.Base.Lists.{map}
use cosign.World.{World}
use cosign.Policy.{
  KeyRef, KeylessRef, Authority, Source, TLog, ClusterImagePolicySpec, WebhookKeyRef,
  WebhookKeylessRef, WebhookAuthority, ClusterImagePolicy,
}
use cosign.Verify.{Identity}

abbrev pub text_length : String → ℕ
text_length String.[] = 0
text_length (String.◌∷◌ c s) = suc (text_length s)

module _ (w : World) where
  unfoldable pub convert_key_ref : Option KeyRef → Option (WebhookKeyRef w)
  convert_key_ref none = none
  convert_key_ref (some k) = some (record { key_data = k.key_data; public_keys = [] })

  unfoldable pub convert_keyless_ref : Option KeylessRef → Option (WebhookKeylessRef w)
  convert_keyless_ref none = none
  convert_keyless_ref (some k) =
      some (record { url = k.url; identities = k.identities; ca_cert = convert_key_ref k.ca_cert })

  unfoldable pub convert_authority : Authority → WebhookAuthority w
  convert_authority a = record {
    key = convert_key_ref a.key;
    keyless = convert_keyless_ref a.keyless;
    sources = a.sources;
    ctlog = a.ctlog;
    remote_opts = [];
  }

  unfoldable pub convert_policy : ClusterImagePolicySpec → ClusterImagePolicy w
  convert_policy spec = record {
    images = spec.images;
    authorities = map convert_authority spec.authorities;
  }

  -- The bytes of the blocks, and whether the text is blocks to its end.
  unfoldable pub parse_pem_key : ℕ → String → List String × Bool
  parse_pem_key zero s = ([], false)
  parse_pem_key (suc fuel) s = elim (w.pem_decode s) [
    | none ↦ ([], false)
    | some (block, rest) ↦
        let (blocks, valid) = parse_pem_key fuel rest in
        if rest == "" then (block ∷ [], true) else (block ∷ blocks, valid)
  ]

  -- `x509.ParsePKIXPublicKey` of each block: the first error ends the loop.
  unfoldable pub parse_keys : List String → Result (List w.PublicKey)
  parse_keys [] = ok []
  parse_keys (p ∷ ps) = do key ← w.parse_pkix p; keys ← parse_keys ps; ok (key ∷ keys)

  -- A text that is not PEM to its end gives no keys, and no error.
  unfoldable pub keys_of_blocks : List String × Bool → Result (List w.PublicKey)
  keys_of_blocks (blocks, true) = parse_keys blocks
  keys_of_blocks (blocks, false) = ok []

  unfoldable pub convert_key_data_to_public_keys : String → Result (List w.PublicKey)
  unfolding keys_of_blocks
  convert_key_data_to_public_keys key_data =
      keys_of_blocks (parse_pem_key (suc (text_length key_data)) key_data)

  -- `(*KeyRef).UnmarshalJSON`, from the value of "data" in the object (empty if it is not there).
  unfoldable pub unmarshal_key_ref : String → Result (WebhookKeyRef w)
  unmarshal_key_ref key_data =
      if key_data == ""
      then ok (record { key_data = key_data; public_keys = [] })
      else (convert_key_data_to_public_keys key_data >>= λ keys.
          ok (record { key_data = key_data; public_keys = keys }))

  module _
      -- `name.NewRepository`: the repository, or none for the zero value
      (new_repository : String → Result (Option String)) where
    unfoldable pub add_target : Option String → List String → List String
    add_target none opts = opts
    add_target (some repository) opts = opts ++ repository ∷ []

    unfoldable pub target_repositories : List Source → List String → Result (List String)
    unfolding add_target
    target_repositories [] opts = ok opts
    target_repositories (s ∷ ss) opts = do
      target ← wrap_result "failed to determine source" (new_repository s.oci)
      target_repositories ss (add_target target opts)

    -- `(*Authority).UnmarshalJSON`, from the value that the raw type reads.
    unfoldable pub unmarshal_authority : WebhookAuthority w → Result (WebhookAuthority w)
    unmarshal_authority raw = do
      opts ← target_repositories raw.sources raw.remote_opts
      ok (record raw { remote_opts = opts })
