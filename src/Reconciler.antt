-- ===== src/Reconciler.antt =====
-- The controller that keeps the webhook's config map: pkg/reconciler/clusterimagepolicy, and the
-- config map's entries of its resources/configmap.go. The modules below have its theorems.
pub mod Inline
pub mod Refines
pub mod Webhook
use cosign.Base.{String, ◌<>◌, Option, none, some, Bool, true, false, List, [], ◌∷◌, ◌==◌, ◌&&◌}
use cosign.Base.{Error, message, wrapped, Result, ok, err, wrap_result, ◌>>=◌, ◌>>◌, if◌then◌else◌}
use cosign.Base.Maps.{Map, insert, remove}
use cosign.World.{World}
use cosign.Policy.{
  SecretReference, KeyRef, KeylessRef, Authority, ClusterImagePolicySpec, ClusterImagePolicy,
}
use cosign.Policy.Convert.{convert_policy}
use package.text.Mathlib.Text.{starts_with}

-- `v1alpha1.ClusterImagePolicy`
pub record NamedPolicy : Type 0 where
  pub name : String
  pub spec : ClusterImagePolicySpec

-- `strings.Contains(s, sub)`
unfoldable pub contains_text : String → String → Bool
contains_text String.[] sub = sub == ""
contains_text (String.◌∷◌ c s) sub =
    let rest = contains_text s sub in if starts_with (String.◌∷◌ c s) sub then true else rest

-- What a lister gives: the data of the config map, that there is none, or another error.
pub data Listed : Type 0 where
  found : Map String → Listed
  not_found : Listed
  failed : Error → Listed

-- The API server's config map, if there is one, beside what the lister's cache says of it. No data
-- is empty data.
pub record State : Type 0 where
  pub listed : Listed
  pub stored : Option (Map String)

-- What the controller calls: the secrets, the KMS packages, the JSON codec and the API server.
pub record Kube (w : World) : Type 1 where
  pub track_reference : String → Option Error
  pub secrets : String → Result (Map String)
  pub is_valid_key : String → Bool
  pub Signer : Type 0
  pub get_kms : String → Result Signer
  pub public_key_pem : Signer → Result String
  pub marshal_policy : ClusterImagePolicy w → Result String
  -- `duck.CreatePatch`, on the data, and `MarshalJSON` of the patch
  pub Patch : Type 0
  pub create_patch : Map String → Map String → Result Patch
  pub is_empty_patch : Patch → Bool
  pub marshal_patch : Patch → Result String
  -- the server's `Create` and `Patch`, on the config map that it has
  pub create : Map String → Option (Map String) → Result (Map String)
  pub patch : String → Option (Map String) → Result (Map String)

module _ (w : World) (k : Kube w) where
  unfoldable pub get_kms_public_key : String → Result String
  get_kms_public_key id = do signer ← k.get_kms id; k.public_key_pem signer

  -- The one entry of a secret.
  single_key : String → Map String → Result String
  single_key name [] = err (message ("secret " <> (name <> " contains no data")))
  single_key name ((_, v) ∷ []) =
      if k.is_valid_key v
      then ok v
      else err (message ("secret " <> (name <> " contains an invalid public key")))
  single_key name (_ ∷ _ ∷ _) =
      err
        (message ("secret " <> (name <> " contains multiple data entries, only one is supported")))

  -- The error of a call that may be nil, as a result.
  tracked : String → Option Error → Result (Unit {0})
  tracked name none = ok tt
  tracked name (some e) = err (wrapped ("failed to track changes to secret " <> name) e)

  unfoldable pub inline_and_track_secret : SecretReference → KeyRef → Result KeyRef
  unfolding single_key tracked
  inline_and_track_secret ref key = do
    _ ← tracked ref.name (k.track_reference ref.name)
    secret ← k.secrets ref.name
    v ← single_key ref.name secret
    ok (record key { key_data = v; secret_ref = none })

  inline_ref : Option SecretReference → KeyRef → Result KeyRef
  inline_ref none key = ok key
  inline_ref (some ref) key = inline_and_track_secret ref key

  -- `if ref != nil && ref.SecretRef != nil`
  inline_secret : Option KeyRef → Result (Option KeyRef)
  inline_secret none = ok none
  inline_secret (some key) = do key' ← inline_ref key.secret_ref key; ok (some key')

  inline_ca_cert : Option KeylessRef → Result (Option KeylessRef)
  inline_ca_cert none = ok none
  inline_ca_cert (some keyless) = do
    ca_cert ← inline_secret keyless.ca_cert
    ok (some (record keyless { ca_cert = ca_cert }))

  inline_kms : Option KeyRef → Result (Option KeyRef)
  inline_kms none = ok none
  inline_kms (some key) =
      if contains_text key.kms "://"
      then (get_kms_public_key key.kms >>= λ pem.
          ok (some (record key { key_data = pem; kms = "" })))
      else ok (some key)

  -- A round of the loop of inlinePublicKeys. An empty KMS reference has no "://".
  unfoldable pub inline_authority : Authority → Result Authority
  unfolding inline_ref inline_secret inline_ca_cert inline_kms
  inline_authority a = do
    key ← inline_secret a.key
    keyless ← inline_ca_cert a.keyless
    key' ← inline_kms key
    ok (record a { key = key'; keyless = keyless })

  unfoldable pub inline_authorities : List Authority → Result (List Authority)
  inline_authorities [] = ok []
  inline_authorities (a ∷ as') = do b ← inline_authority a; bs ← inline_authorities as'; ok (b ∷ bs)

  unfoldable pub inline_public_keys : ClusterImagePolicySpec → Result ClusterImagePolicySpec
  inline_public_keys spec = do
    authorities ← inline_authorities spec.authorities
    ok (record spec { authorities = authorities })

  -- `NewConfigMap`, by its data
  unfoldable pub new_config_map : String → ClusterImagePolicy w → Result (Map String)
  new_config_map name policy = do entry ← k.marshal_policy policy; ok ((name, entry) ∷ [])

  -- The bytes of the patch; none if it is empty.
  patch_bytes : Map String → Map String → Result (Option String)
  patch_bytes before after = do
    p ← wrap_result "creating JSON patch" (k.create_patch before after)
    if k.is_empty_patch p then ok none else (k.marshal_patch p >>= λ bytes. ok (some bytes))

  unfoldable pub create_patch : String → Map String → ClusterImagePolicy w → Result (Option String)
  unfolding patch_bytes
  create_patch name cm policy = do
    entry ← k.marshal_policy policy
    patch_bytes cm (insert name entry cm)

  unfoldable pub create_remove_patch : Map String → String → Result (Option String)
  unfolding patch_bytes
  create_remove_patch cm name = patch_bytes cm (remove name cm)

  -- A call of the API server: what it stores, or its error.
  stored_or : State → Result (Map String) → State × Option Error
  stored_or s (ok m) = (record s { stored = some m }, none)
  stored_or s (err e) = (s, some e)

  -- `len(patchBytes) > 0`
  unfoldable pub apply_patch : State → Result (Option String) → State × Option Error
  unfolding stored_or
  apply_patch s (err e) = (s, some e)
  apply_patch s (ok none) = (s, none)
  apply_patch s (ok (some bytes)) = stored_or s (k.patch bytes s.stored)

  create_config_map : State → Result (Map String) → State × Option Error
  create_config_map s (err e) = (s, some e)
  create_config_map s (ok cm) = stored_or s (k.create cm s.stored)

  -- The entry of a policy that was inlined.
  unfoldable pub store_policy : String → ClusterImagePolicy w → State → State × Option Error
  unfolding stored_or create_config_map
  store_policy name policy s = elim s.listed [
    | failed e ↦ (s, some e)
    | not_found ↦ create_config_map s (new_config_map name policy)
    | found cm ↦ apply_patch s (create_patch name cm policy)
  ]

  unfoldable pub remove_policy : Map String → String → State → State × Option Error
  remove_policy cm name s = apply_patch s (create_remove_patch cm name)

  -- The errors are logged only.
  unfoldable pub handle_cip_error : String → State → State
  handle_cip_error name s = elim s.listed [
    | failed e ↦ s
    | not_found ↦ s
    | found cm ↦ (remove_policy cm name s).0
  ]

  unfoldable pub reconcile_kind : NamedPolicy → State → State × Option Error
  reconcile_kind cip s = elim (inline_public_keys cip.spec) [
    | err e ↦ (handle_cip_error cip.name s, some e)
    | ok spec ↦ store_policy cip.name (convert_policy w spec) s
  ]

  unfoldable pub finalize_kind : String → State → State × Option Error
  finalize_kind name s = elim s.listed [
    | failed e ↦ (s, some e)
    | not_found ↦ (s, none)
    | found cm ↦ remove_policy cm name s
  ]
