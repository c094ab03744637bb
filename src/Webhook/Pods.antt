-- ===== src/Webhook/Pods.antt =====
-- Pods: ValidatePodSpecable, ValidatePod, ValidateCronJob and their Resolve counterparts, of
-- pkg/cosign/kubernetes/webhook/validator.go. The three kinds differ in where the pod's
-- specification stands, which is the path of the error.
pub mod Sound
pub mod Admission
pub mod Resolve
use cosign.Base.{ℕ, zero, suc, String, ◌<>◌, Option, none, some, Bool, true, false, List, [], ◌∷◌}
use cosign.Base.{Error, message, error_text, Result, ok, err, if◌then◌else◌, is_some, not, nat_eq}
use cosign.Base.Lists.{map, length, is_empty}
use cosign.Base.Maps.{Map}
use cosign.FieldError.{FieldErrors}
use cosign.World.{World}
use cosign.Policy.{WebhookAuthority}
use cosign.Policy.Matching.{ImagePolicyConfig, get_matching_policies}
use cosign.Webhook.{RemoteOption, auth_from_keychain, valid, get_keys}
use cosign.Webhook.Authorities.{Services, validate_policies}

pub record Container : Type 0 where
  pub name : String
  pub image : String

pub record PodSpec : Type 0 where
  pub init_containers : List Container
  pub containers : List Container
  pub service_account_name : String
  pub image_pull_secrets : List String

-- A pod, a cron job, or a workload with a pod template.
pub data Kind : Type 0 where
  pod_specable pod cron_job : Kind

pub record Workload : Type 0 where
  pub kind : Kind
  pub deletion_timestamp : Option String
  pub namespace : String
  pub spec : PodSpec

-- `k8schain.Options`
pub record KeychainOptions : Type 0 where
  pub namespace : String
  pub service_account_name : String
  pub image_pull_secrets : List String

-- `name.Reference`: `Name()`, and whether it is a `name.Digest`
pub record Reference : Type 0 where
  pub name : String
  pub is_digest : Bool

-- The cluster and the registry, as the webhook sees them in one request.
pub record Cluster (w : World) : Type 0 where
  pub services : Services w
  pub new_keychain : KeychainOptions → Result String
  -- the secret's text under "cosign.pub"
  pub secret : Result String
  pub pem_fuel : ℕ
  -- `config.FromContext(ctx)`, and its `ImagePolicyConfig`
  pub config : Option (Option (ImagePolicyConfig w))
  pub parse_reference : String → Result Reference
  -- `digest.String()`, by keychain and reference
  pub resolve_digest : String → Reference → Result String
  pub in_create_or_update : Bool

abbrev pub path_of : Kind → String
path_of pod_specable = "spec.template.spec"
path_of pod = "spec"
path_of cron_job = "spec.jobTemplate.spec.template.spec"

abbrev pub keychain_options : Workload → KeychainOptions
keychain_options p = record {
  namespace = p.namespace;
  service_account_name = p.spec.service_account_name;
  image_pull_secrets = p.spec.image_pull_secrets;
}

module _ (w : World) (f : FieldErrors) (k : Cluster w) where
  -- What the policies say of an image: nothing, that it passes, or the errors.
  pub data PolicyCheck : Type 0 where
    unchecked passed : PolicyCheck
    rejected : List f.FieldError → PolicyCheck

  abbrev failed_policy : String × List Error → f.FieldError
  failed_policy (p, errs) = f.err_generic ("failed policy: " <> p) "image"

  unfoldable pub weigh :
      String → String → Map (List (WebhookAuthority w)) × Option Error → PolicyCheck
  weigh name keychain (policies, some e) = rejected (f.err_generic (error_text e) "image" ∷ [])
  weigh name keychain ([], none) = unchecked
  weigh name keychain (p ∷ ps, none) =
      let (signatures, errors) = validate_policies w k.services name keychain (p ∷ ps) in
      if not (nat_eq (length signatures) (length (p ∷ ps)))
      then rejected (map failed_policy errors)
      else (if is_empty signatures then unchecked else passed)

  unfoldable pub check_config :
      String → String → Option (Option (ImagePolicyConfig w)) → PolicyCheck
  check_config name keychain none = unchecked
  check_config name keychain (some policies) =
      weigh name keychain (get_matching_policies w policies name)

  -- The image by the keys of the secret, or the built-in roots where there are none.
  by_keys : List w.PublicKey → String → String → List f.FieldError
  by_keys keys name keychain =
      elim (valid w k.services.registry k.services.fulcio_roots name keys
        (auth_from_keychain keychain ∷ [])) [
          | ok sigs ↦ []
          | err e ↦ f.err_generic (error_text e) "image" ∷ []
        ]

  -- Policies that match decide; where none does, the keys do.
  after_policies : List w.PublicKey → String → String → PolicyCheck → List f.FieldError
  after_policies keys name keychain passed = []
  after_policies keys name keychain (rejected errors) = errors
  after_policies keys name keychain unchecked = by_keys keys name keychain

  -- The errors of an image, and whether they carry the image as their details.
  unfoldable pub image_errors :
      List w.PublicKey → String → String → Result Reference → List f.FieldError × Bool
  unfolding by_keys after_policies
  image_errors keys keychain image (err e) = (f.err_generic (error_text e) "image" ∷ [], false)
  image_errors keys keychain image (ok ref) =
      if not ref.is_digest
      then (f.err_invalid_value (image <> " must be an image digest") "image" [] ∷ [], false)
      else (after_policies keys ref.name keychain (check_config ref.name keychain k.config), true)

  -- `e.ViaFieldIndex(field, i)`, with `Details` set
  unfoldable pub place : String → String → ℕ → Bool → f.FieldError → f.FieldError
  place image field i details e =
      let placed = f.via_field_index e field i in
      if details then f.with_details placed image else placed

  unfoldable pub also_each :
      String → String → ℕ → Bool → List f.FieldError → f.FieldError → f.FieldError
  also_each image field i details [] errs = errs
  also_each image field i details (e ∷ es) errs =
      also_each image field i details es (f.also errs (place image field i details e))

  unfoldable pub check_containers :
      List w.PublicKey → String → String → ℕ → List Container → f.FieldError → f.FieldError
  unfolding place also_each
  check_containers keys keychain field i [] errs = errs
  check_containers keys keychain field i (c ∷ cs) errs =
      let (es, details) = image_errors keys keychain c.image (k.parse_reference c.image) in
      check_containers keys keychain field (suc i) cs (also_each c.image field i details es errs)

  unfoldable pub check_pod : PodSpec → String → List w.PublicKey × f.FieldError → f.FieldError
  check_pod spec keychain (keys, kerr) =
      if f.is_nil kerr
      then check_containers keys keychain "containers" 0 spec.containers
          (check_containers keys keychain "initContainers" 0 spec.init_containers f.nil)
      else kerr

  unfoldable pub validate_pod_spec : PodSpec → KeychainOptions → f.FieldError
  unfolding check_pod
  validate_pod_spec spec opt = elim (k.new_keychain opt) [
    | err e ↦ f.err_generic (error_text e) ""
    | ok keychain ↦ elim k.secret [
      | err e ↦ f.err_generic (error_text e) ""
      | ok cosign_pub ↦ check_pod spec keychain (get_keys w f k.pem_fuel cosign_pub)
    ]
  ]

  -- Something that is being deleted is not blocked.
  unfoldable pub validate : Workload → f.FieldError
  validate p =
      if is_some p.deletion_timestamp
      then f.nil
      else f.via_field (validate_pod_spec p.spec (keychain_options p)) (path_of p.kind)

module _ (w : World) (k : Cluster w) where
  -- One container: its image becomes the digest, if it can be found.
  unfoldable pub resolve_container : String → Container → Container
  resolve_container keychain c = elim (k.parse_reference c.image) [
    | err e ↦ c
    | ok ref ↦
        if k.in_create_or_update
        then elim (k.resolve_digest keychain ref) [
          | err e ↦ c
          | ok digest ↦ record c { image = digest }
        ]
        else c
  ]

  unfoldable pub resolve_pod_spec : PodSpec → KeychainOptions → PodSpec
  resolve_pod_spec spec opt = elim (k.new_keychain opt) [
    | err e ↦ spec
    | ok keychain ↦ record spec {
      init_containers = map (resolve_container keychain) spec.init_containers;
      containers = map (resolve_container keychain) spec.containers;
    }
  ]

  unfoldable pub resolve : Workload → Workload
  resolve p =
      if is_some p.deletion_timestamp
      then p
      else record p { spec = resolve_pod_spec p.spec (keychain_options p) }
