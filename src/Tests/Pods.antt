-- ===== src/Tests/Pods.antt =====
-- The results on the workloads of the webhook, at concrete inputs.
use cosign.Base.{
  ℕ, String, ◌<>◌, none, some, true, false, [], ◌∷◌, ◌++◌, ◌≡◌, ◌≢◌, ◌↔◌, ◌⊎◌, inl, inr, refl,
  arith, ◌<◌,
}
use cosign.Base.{
  Result, ok, err, Option, Error, message, List, eq_iff, is_some, suc, Bool-cases, ◌==◌,
}
use cosign.Base.Maps.{Map, lookup}
use cosign.Verify.{Signature, CheckOpts, Identity}
use cosign.Policy.{
  ImagePattern, ClusterImagePolicySpec, WebhookAuthority, WebhookKeyRef, ClusterImagePolicy,
}
use cosign.Policy.Glob.{glob_match, validate_glob}
use cosign.Policy.Matching.{get_matching_policies, ImagePolicyConfig}
use cosign.Webhook.{
  RemoteOption, auth_from_keychain, valid, get_keys, parse_pems, key_opts, fulcio_opts,
}
use cosign.Webhook.Authorities.{Services, validate_policies}
use cosign.Webhook.Pods.{Cluster, Workload, Container, keychain_options, resolve, pod}
use cosign.Webhook.Pods.Admission.{SpecAdmitted, validate_sound}
use cosign.Base.{◌⊎◌, Error, err, none}
use cosign.Webhook.Pods.Resolve.{resolve_lem, Resolved}
use cosign.Tests.Authorities.{services, by_key}
use cosign.Tests.Toy.{toy, errors, lawful}

abbrev cluster : Cluster toy
cluster = record {
  services = services;
  new_keychain = λ opt. ok "chain";
  secret = ok "k";
  pem_fuel = 2;
  config = some (
      some (
        (
          "one",
          record { images = record { glob = "image"; regex = "" } ∷ []; authorities = by_key ∷ [] },
        )
        ∷ []));
  parse_reference = λ s. ok (record { name = s; is_digest = true });
  resolve_digest = λ chain ref. ok "image@sha256:abc";
  in_create_or_update = false;
}

abbrev workload : Workload
workload = record {
  kind = pod;
  deletion_timestamp = none;
  namespace = "default";
  spec = record {
    init_containers = [];
    containers = record { name = "app"; image = "image" } ∷ [];
    service_account_name = "";
    image_pull_secrets = [];
  };
}

validate_sound_example :
    SpecAdmitted toy errors lawful cluster workload.spec (keychain_options workload)
unfolding cosign.Base.Maps.lookup cosign.Base.Maps.insert cosign.Ctl.contains_sct
    cosign.Ctl.get_alternate_public_key cosign.Ctl.ct_log_keys cosign.Ctl.verify_embedded
    cosign.Ctl.detached_sct cosign.Ctl.verify_detached cosign.Ctl.check_scts cosign.Ctl.sct_inputs
    cosign.Ctl.verify_sct cosign.Ctl.verify_embedded_sct cosign.Tlog.get_log_id
    cosign.Tlog.pem_to_ecdsa_key cosign.Tlog.add_rekor_targets cosign.Tlog.alternate_rekor_pub
    cosign.Tlog.get_rekor_pubs cosign.Tlog.compute_leaf_hash cosign.Tlog.verify_uuid
    cosign.Tlog.get_tlog_entry cosign.Tlog.intoto_entry cosign.Tlog.rekor_entry
    cosign.Tlog.proposed_entry cosign.Tlog.single_entry cosign.Tlog.find_tlog_entry
    cosign.Tlog.verify_set cosign.Tlog.add_api_key cosign.Tlog.key_for cosign.Tlog.check_log_entry
    cosign.Tlog.proof_of cosign.Tlog.verify_tlog_entry cosign.Verify.Cert.issuer_of
    cosign.Verify.Cert.get_subject_alternate_names cosign.Verify.Cert.trusted_cert
    cosign.Verify.Cert.check_expiry cosign.Verify.Cert.check_email
    cosign.Verify.Cert.check_oidc_issuer cosign.Verify.Cert.issuer_matches
    cosign.Verify.Cert.subject_matches cosign.Verify.Cert.match_identities
    cosign.Verify.Cert.check_embedded_sct cosign.Verify.Cert.finish_unpack
    cosign.Verify.Cert.validate_and_unpack_cert
    cosign.Verify.Cert.validate_and_unpack_cert_with_chain cosign.Verify.Bundle.record_of_body
    cosign.Verify.Bundle.bundle_hash cosign.Verify.Bundle.bundle_sig
    cosign.Verify.Bundle.compare_sigs cosign.Verify.Bundle.match_hash
    cosign.Verify.Bundle.match_cert cosign.Verify.Bundle.verify_present
    cosign.Verify.Bundle.verify_bundle cosign.Verify.Claims.value_is
    cosign.Verify.Claims.correct_annotations cosign.Verify.Claims.annotations_error
    cosign.Verify.Claims.simple_payload cosign.Verify.Claims.simple_claim_verifier
    cosign.Verify.Claims.match_subject cosign.Verify.Claims.statement_of
    cosign.Verify.Claims.intoto_subject_claim_verifier cosign.Verify.Entry.verify_oci_signature
    cosign.Verify.Entry.verify_oci_attestation cosign.Verify.Entry.tlog_validate_public_key
    cosign.Verify.Entry.tlog_validate_certificate cosign.Verify.Entry.intermediates_of
    cosign.Verify.Entry.verify_claims cosign.Verify.Entry.tlog_validate cosign.Verify.Entry.finish
    cosign.Verify.Entry.verifier_of_cert cosign.Verify.Entry.obtain_verifier
    cosign.Verify.Entry.check_with cosign.Verify.Entry.verify_entry
    cosign.Verify.Entry.verify_image_signature cosign.Verify.Entry.verify_image_attestation
    cosign.Verify.Images.join cosign.Verify.Images.tally cosign.Verify.Images.verify_each
    cosign.Verify.Images.conclude cosign.Verify.Images.verify_signatures
    cosign.Verify.Images.verify_attestations cosign.Verify.Images.require_trust
    cosign.Verify.Images.get_signed_entity cosign.Verify.Images.signature_text
    cosign.Verify.Images.load_signature_from_file cosign.Verify.Images.choose_signatures
    cosign.Verify.Images.fetch_signatures cosign.Verify.Images.fetch_attestations
    cosign.Verify.Images.local_digest cosign.Verify.Images.fetch_local
    cosign.Verify.Images.then_verify cosign.Verify.Images.verify_image_signatures
    cosign.Verify.Images.verify_image_attestations
    cosign.Verify.Images.verify_local_image_signatures
    cosign.Verify.Images.verify_local_image_attestations cosign.Webhook.parse_pems
    cosign.Webhook.note_key cosign.Webhook.collect_keys cosign.Webhook.finish_keys
    cosign.Webhook.get_keys cosign.Webhook.valid_signatures
    cosign.Webhook.valid_signatures_with_fulcio cosign.Webhook.try_key cosign.Webhook.try_keys
    cosign.Webhook.valid cosign.Webhook.Authorities.keyless_services
    cosign.Webhook.Authorities.check_keyless cosign.Webhook.Authorities.check_keyless_case
    cosign.Webhook.Authorities.keys_of cosign.Webhook.Authorities.check_keys
    cosign.Webhook.Authorities.check_authority cosign.Webhook.Authorities.check_authorities
    cosign.Webhook.Authorities.validate_policy cosign.Webhook.Authorities.note_policy
    cosign.Webhook.Authorities.validate_each cosign.Webhook.Authorities.validate_policies
    cosign.Policy.Matching.append_at cosign.Policy.Matching.judge
    cosign.Policy.Matching.match_patterns cosign.Policy.Matching.match_policies
    cosign.Policy.Matching.get_matching_policies cosign.Policy.Matching.add_entries
    cosign.Policy.Matching.new_image_policies_config_from_map cosign.Policy.Glob.ends_with_star
    cosign.Policy.Glob.trim_star cosign.Policy.Glob.count_stars cosign.Policy.Glob.glob_match
    cosign.Policy.Glob.validate_glob cosign.Webhook.Pods.weigh cosign.Webhook.Pods.check_config
    cosign.Webhook.Pods.image_errors cosign.Webhook.Pods.place cosign.Webhook.Pods.also_each
    cosign.Webhook.Pods.check_containers cosign.Webhook.Pods.check_pod
    cosign.Webhook.Pods.validate_pod_spec cosign.Webhook.Pods.validate
    cosign.Webhook.Pods.resolve_container cosign.Webhook.Pods.resolve_pod_spec
    cosign.Webhook.Pods.resolve
validate_sound_example = validate_sound toy errors lawful cluster workload refl refl

abbrev updating : Cluster toy
updating = record cluster { in_create_or_update = true }

resolve_lem_example :
    ((time : String) × (workload.deletion_timestamp ≡ some time)
      × (resolve toy updating workload ≡ workload))
    ⊎ ((x : Error) × (workload.deletion_timestamp ≡ none)
        × (updating.new_keychain (keychain_options workload) ≡ err x)
        × (resolve toy updating workload ≡ workload))
    ⊎ ((keychain : String) × (workload.deletion_timestamp ≡ none)
        × (updating.new_keychain (keychain_options workload) ≡ ok keychain)
        × Resolved toy updating keychain workload (resolve toy updating workload))
resolve_lem_example = resolve_lem toy updating workload
