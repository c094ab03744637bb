-- ===== src/Tests/Authorities.antt =====
-- The results on the authorities of a policy, at concrete inputs.
use cosign.Base.{
  ℕ, String, ◌<>◌, none, some, true, false, [], ◌∷◌, ◌++◌, ◌≡◌, ◌≢◌, ◌↔◌, ◌⊎◌, inl, inr, refl,
  arith, ◌<◌,
}
use cosign.Base.{
  Result, ok, err, Option, Error, message, List, eq_iff, is_some, suc, Bool-cases, ◌==◌,
}
use cosign.Base.Lists.{All}
use cosign.Base.Maps.{Map, lookup}
use cosign.Verify.{Signature, CheckOpts, Identity}
use cosign.Policy.{
  ImagePattern, ClusterImagePolicySpec, WebhookAuthority, WebhookKeyRef, ClusterImagePolicy,
}
use cosign.Policy.Matching.{get_matching_policies, ImagePolicyConfig}
use cosign.Webhook.{
  RemoteOption, auth_from_keychain, valid, get_keys, parse_pems, key_opts, fulcio_opts,
}
use cosign.Webhook.Authorities.{Services, validate_policies}
use cosign.Webhook.Authorities.Sound.{SomeKey, VerifiedBy, valid_sound}
use cosign.Webhook.Authorities.Passes.{
  SomePasses, AllSkipped, validate_policy_sound, validate_policy_vacuous,
}
use cosign.Webhook.Authorities.Each.{PolicyPasses, validate_policies_sound}
use cosign.Tests.Toy.{toy, signed, registry}

abbrev pub services : Services toy
services = record {
  registry = λ opts. registry;
  fulcio_roots = "root" ∷ [];
  get_fulcio_cert = λ url. ok ("root" ∷ []);
  get_rekor_client = λ url. ok "client";
}

abbrev keys : List String
keys = "key" ∷ []

valid_sound_example :
    SomeKey toy (λ opts. registry) "image" [] keys (signed "sha256:abc" 15 ∷ [])
    ⊎ ((keys ≡ [])
        × VerifiedBy toy
            (λ opts. registry)
            "image"
            []
            (fulcio_opts toy ("root" ∷ []) none [])
            (signed "sha256:abc" 15 ∷ []))
unfolding cosign.Base.Maps.lookup cosign.Base.Maps.insert cosign.Ctl.contains_sct
    cosign.Ctl.get_alternate_public_key cosign.Ctl.ct_log_keys cosign.Ctl.verify_embedded
    cosign.Ctl.detached_sct cosign.Ctl.verify_detached cosign.Ctl.check_scts cosign.Ctl.sct_inputs
    cosign.Ctl.verify_sct cosign.Ctl.verify_embedded_sct cosign.Tlog.get_log_id
    cosign.Tlog.pem_to_ecdsa_key cosign.Tlog.add_rekor_targets cosign.Tlog.alternate_rekor_pub
    cosign.Tlog.get_rekor_pubs cosign.Tlog.compute_leaf_hash cosign.Tlog.verify_uuid
    cosign.Tlog.get_tlog_entry cosign.Tlog.intoto_entry cosign.Tlog.rekor_entry
    cosign.Tlog.proposed_entry cosign.Tlog.single_entry cosign.Tlog.find_tlog_entry
    cosign.Tlog.verify_set cosign.Tlog.add_api_key cosign.Tlog.key_for cosign.Tlog.check_log_entry
    cosign.Tlog.proof_of cosign.Tlog.verify_tlog_entry cosign.Verify.Cert.issuer_of
    cosign.Verify.Cert.get_subject_alternate_names cosign.Verify.Cert.trusted_cert
    cosign.Verify.Cert.check_expiry cosign.Verify.Cert.check_email
    cosign.Verify.Cert.check_oidc_issuer cosign.Verify.Cert.issuer_matches
    cosign.Verify.Cert.subject_matches cosign.Verify.Cert.match_identities
    cosign.Verify.Cert.check_embedded_sct cosign.Verify.Cert.finish_unpack
    cosign.Verify.Cert.validate_and_unpack_cert
    cosign.Verify.Cert.validate_and_unpack_cert_with_chain cosign.Verify.Bundle.record_of_body
    cosign.Verify.Bundle.bundle_hash cosign.Verify.Bundle.bundle_sig
    cosign.Verify.Bundle.compare_sigs cosign.Verify.Bundle.match_hash
    cosign.Verify.Bundle.match_cert cosign.Verify.Bundle.verify_present
    cosign.Verify.Bundle.verify_bundle cosign.Verify.Claims.value_is
    cosign.Verify.Claims.correct_annotations cosign.Verify.Claims.annotations_error
    cosign.Verify.Claims.simple_payload cosign.Verify.Claims.simple_claim_verifier
    cosign.Verify.Claims.match_subject cosign.Verify.Claims.statement_of
    cosign.Verify.Claims.intoto_subject_claim_verifier cosign.Verify.Entry.verify_oci_signature
    cosign.Verify.Entry.verify_oci_attestation cosign.Verify.Entry.tlog_validate_public_key
    cosign.Verify.Entry.tlog_validate_certificate cosign.Verify.Entry.intermediates_of
    cosign.Verify.Entry.verify_claims cosign.Verify.Entry.tlog_validate cosign.Verify.Entry.finish
    cosign.Verify.Entry.verifier_of_cert cosign.Verify.Entry.obtain_verifier
    cosign.Verify.Entry.check_with cosign.Verify.Entry.verify_entry
    cosign.Verify.Entry.verify_image_signature cosign.Verify.Entry.verify_image_attestation
    cosign.Verify.Images.join cosign.Verify.Images.tally cosign.Verify.Images.verify_each
    cosign.Verify.Images.conclude cosign.Verify.Images.verify_signatures
    cosign.Verify.Images.verify_attestations cosign.Verify.Images.require_trust
    cosign.Verify.Images.get_signed_entity cosign.Verify.Images.signature_text
    cosign.Verify.Images.load_signature_from_file cosign.Verify.Images.choose_signatures
    cosign.Verify.Images.fetch_signatures cosign.Verify.Images.fetch_attestations
    cosign.Verify.Images.local_digest cosign.Verify.Images.fetch_local
    cosign.Verify.Images.then_verify cosign.Verify.Images.verify_image_signatures
    cosign.Verify.Images.verify_image_attestations
    cosign.Verify.Images.verify_local_image_signatures
    cosign.Verify.Images.verify_local_image_attestations cosign.Webhook.parse_pems
    cosign.Webhook.note_key cosign.Webhook.collect_keys cosign.Webhook.finish_keys
    cosign.Webhook.get_keys cosign.Webhook.valid_signatures
    cosign.Webhook.valid_signatures_with_fulcio cosign.Webhook.try_key cosign.Webhook.try_keys
    cosign.Webhook.valid
valid_sound_example =
    valid_sound toy (λ opts. registry) ("root" ∷ []) "image" keys [] (signed "sha256:abc" 15 ∷ [])
      refl

-- An authority with a key, and one that asks for nothing.
abbrev pub by_key : WebhookAuthority toy
by_key = record {
  key = some (record { key_data = ""; public_keys = keys });
  keyless = none;
  sources = [];
  ctlog = none;
  remote_opts = [];
}

abbrev by_nothing : WebhookAuthority toy
by_nothing = record {
  key = none;
  keyless = some (record { url = none; identities = none; ca_cert = none });
  sources = [];
  ctlog = none;
  remote_opts = [];
}

validate_policy_sound_example :
    SomePasses toy services "image"
      (auth_from_keychain "chain" ∷ [])
      (by_nothing ∷ by_key ∷ [])
      (signed "sha256:abc" 15 ∷ [])
    ⊎ (AllSkipped toy services "image" (auth_from_keychain "chain" ∷ []) (by_nothing ∷ by_key ∷ [])
        × ((signed "sha256:abc" 15 ∷ []) ≡ []))
unfolding cosign.Base.Maps.lookup cosign.Base.Maps.insert cosign.Ctl.contains_sct
    cosign.Ctl.get_alternate_public_key cosign.Ctl.ct_log_keys cosign.Ctl.verify_embedded
    cosign.Ctl.detached_sct cosign.Ctl.verify_detached cosign.Ctl.check_scts cosign.Ctl.sct_inputs
    cosign.Ctl.verify_sct cosign.Ctl.verify_embedded_sct cosign.Tlog.get_log_id
    cosign.Tlog.pem_to_ecdsa_key cosign.Tlog.add_rekor_targets cosign.Tlog.alternate_rekor_pub
    cosign.Tlog.get_rekor_pubs cosign.Tlog.compute_leaf_hash cosign.Tlog.verify_uuid
    cosign.Tlog.get_tlog_entry cosign.Tlog.intoto_entry cosign.Tlog.rekor_entry
    cosign.Tlog.proposed_entry cosign.Tlog.single_entry cosign.Tlog.find_tlog_entry
    cosign.Tlog.verify_set cosign.Tlog.add_api_key cosign.Tlog.key_for cosign.Tlog.check_log_entry
    cosign.Tlog.proof_of cosign.Tlog.verify_tlog_entry cosign.Verify.Cert.issuer_of
    cosign.Verify.Cert.get_subject_alternate_names cosign.Verify.Cert.trusted_cert
    cosign.Verify.Cert.check_expiry cosign.Verify.Cert.check_email
    cosign.Verify.Cert.check_oidc_issuer cosign.Verify.Cert.issuer_matches
    cosign.Verify.Cert.subject_matches cosign.Verify.Cert.match_identities
    cosign.Verify.Cert.check_embedded_sct cosign.Verify.Cert.finish_unpack
    cosign.Verify.Cert.validate_and_unpack_cert
    cosign.Verify.Cert.validate_and_unpack_cert_with_chain cosign.Verify.Bundle.record_of_body
    cosign.Verify.Bundle.bundle_hash cosign.Verify.Bundle.bundle_sig
    cosign.Verify.Bundle.compare_sigs cosign.Verify.Bundle.match_hash
    cosign.Verify.Bundle.match_cert cosign.Verify.Bundle.verify_present
    cosign.Verify.Bundle.verify_bundle cosign.Verify.Claims.value_is
    cosign.Verify.Claims.correct_annotations cosign.Verify.Claims.annotations_error
    cosign.Verify.Claims.simple_payload cosign.Verify.Claims.simple_claim_verifier
    cosign.Verify.Claims.match_subject cosign.Verify.Claims.statement_of
    cosign.Verify.Claims.intoto_subject_claim_verifier cosign.Verify.Entry.verify_oci_signature
    cosign.Verify.Entry.verify_oci_attestation cosign.Verify.Entry.tlog_validate_public_key
    cosign.Verify.Entry.tlog_validate_certificate cosign.Verify.Entry.intermediates_of
    cosign.Verify.Entry.verify_claims cosign.Verify.Entry.tlog_validate cosign.Verify.Entry.finish
    cosign.Verify.Entry.verifier_of_cert cosign.Verify.Entry.obtain_verifier
    cosign.Verify.Entry.check_with cosign.Verify.Entry.verify_entry
    cosign.Verify.Entry.verify_image_signature cosign.Verify.Entry.verify_image_attestation
    cosign.Verify.Images.join cosign.Verify.Images.tally cosign.Verify.Images.verify_each
    cosign.Verify.Images.conclude cosign.Verify.Images.verify_signatures
    cosign.Verify.Images.verify_attestations cosign.Verify.Images.require_trust
    cosign.Verify.Images.get_signed_entity cosign.Verify.Images.signature_text
    cosign.Verify.Images.load_signature_from_file cosign.Verify.Images.choose_signatures
    cosign.Verify.Images.fetch_signatures cosign.Verify.Images.fetch_attestations
    cosign.Verify.Images.local_digest cosign.Verify.Images.fetch_local
    cosign.Verify.Images.then_verify cosign.Verify.Images.verify_image_signatures
    cosign.Verify.Images.verify_image_attestations
    cosign.Verify.Images.verify_local_image_signatures
    cosign.Verify.Images.verify_local_image_attestations cosign.Webhook.parse_pems
    cosign.Webhook.note_key cosign.Webhook.collect_keys cosign.Webhook.finish_keys
    cosign.Webhook.get_keys cosign.Webhook.valid_signatures
    cosign.Webhook.valid_signatures_with_fulcio cosign.Webhook.try_key cosign.Webhook.try_keys
    cosign.Webhook.valid cosign.Webhook.Authorities.keyless_services
    cosign.Webhook.Authorities.check_keyless cosign.Webhook.Authorities.check_keyless_case
    cosign.Webhook.Authorities.keys_of cosign.Webhook.Authorities.check_keys
    cosign.Webhook.Authorities.check_authority cosign.Webhook.Authorities.check_authorities
    cosign.Webhook.Authorities.validate_policy cosign.Webhook.Authorities.note_policy
    cosign.Webhook.Authorities.validate_each cosign.Webhook.Authorities.validate_policies
validate_policy_sound_example =
    validate_policy_sound toy services "image" "chain" (by_nothing ∷ by_key ∷ []) []
      (signed "sha256:abc" 15 ∷ []) refl

validate_policy_vacuous_example :
    cosign.Webhook.Authorities.validate_policy toy services "image" "chain" (by_nothing ∷ []) []
    ≡ ([], [])
unfolding cosign.Webhook.Authorities.keyless_services cosign.Webhook.Authorities.check_keyless
    cosign.Webhook.Authorities.check_keyless_case cosign.Webhook.Authorities.keys_of
    cosign.Webhook.Authorities.check_keys cosign.Webhook.Authorities.check_authority
    cosign.Webhook.Authorities.check_authorities cosign.Webhook.Authorities.validate_policy
    cosign.Webhook.Authorities.note_policy cosign.Webhook.Authorities.validate_each
    cosign.Webhook.Authorities.validate_policies
validate_policy_vacuous_example =
    validate_policy_vacuous toy services "image" "chain" (by_nothing ∷ []) []
      ((refl, inr (record { url = none; identities = none; ca_cert = none }, refl, refl)), tt)

validate_policies_sound_example :
    All (PolicyPasses toy services "image" "chain") (("one", by_key ∷ []) ∷ [])
unfolding cosign.Base.Maps.lookup cosign.Base.Maps.insert cosign.Ctl.contains_sct
    cosign.Ctl.get_alternate_public_key cosign.Ctl.ct_log_keys cosign.Ctl.verify_embedded
    cosign.Ctl.detached_sct cosign.Ctl.verify_detached cosign.Ctl.check_scts cosign.Ctl.sct_inputs
    cosign.Ctl.verify_sct cosign.Ctl.verify_embedded_sct cosign.Tlog.get_log_id
    cosign.Tlog.pem_to_ecdsa_key cosign.Tlog.add_rekor_targets cosign.Tlog.alternate_rekor_pub
    cosign.Tlog.get_rekor_pubs cosign.Tlog.compute_leaf_hash cosign.Tlog.verify_uuid
    cosign.Tlog.get_tlog_entry cosign.Tlog.intoto_entry cosign.Tlog.rekor_entry
    cosign.Tlog.proposed_entry cosign.Tlog.single_entry cosign.Tlog.find_tlog_entry
    cosign.Tlog.verify_set cosign.Tlog.add_api_key cosign.Tlog.key_for cosign.Tlog.check_log_entry
    cosign.Tlog.proof_of cosign.Tlog.verify_tlog_entry cosign.Verify.Cert.issuer_of
    cosign.Verify.Cert.get_subject_alternate_names cosign.Verify.Cert.trusted_cert
    cosign.Verify.Cert.check_expiry cosign.Verify.Cert.check_email
    cosign.Verify.Cert.check_oidc_issuer cosign.Verify.Cert.issuer_matches
    cosign.Verify.Cert.subject_matches cosign.Verify.Cert.match_identities
    cosign.Verify.Cert.check_embedded_sct cosign.Verify.Cert.finish_unpack
    cosign.Verify.Cert.validate_and_unpack_cert
    cosign.Verify.Cert.validate_and_unpack_cert_with_chain cosign.Verify.Bundle.record_of_body
    cosign.Verify.Bundle.bundle_hash cosign.Verify.Bundle.bundle_sig
    cosign.Verify.Bundle.compare_sigs cosign.Verify.Bundle.match_hash
    cosign.Verify.Bundle.match_cert cosign.Verify.Bundle.verify_present
    cosign.Verify.Bundle.verify_bundle cosign.Verify.Claims.value_is
    cosign.Verify.Claims.correct_annotations cosign.Verify.Claims.annotations_error
    cosign.Verify.Claims.simple_payload cosign.Verify.Claims.simple_claim_verifier
    cosign.Verify.Claims.match_subject cosign.Verify.Claims.statement_of
    cosign.Verify.Claims.intoto_subject_claim_verifier cosign.Verify.Entry.verify_oci_signature
    cosign.Verify.Entry.verify_oci_attestation cosign.Verify.Entry.tlog_validate_public_key
    cosign.Verify.Entry.tlog_validate_certificate cosign.Verify.Entry.intermediates_of
    cosign.Verify.Entry.verify_claims cosign.Verify.Entry.tlog_validate cosign.Verify.Entry.finish
    cosign.Verify.Entry.verifier_of_cert cosign.Verify.Entry.obtain_verifier
    cosign.Verify.Entry.check_with cosign.Verify.Entry.verify_entry
    cosign.Verify.Entry.verify_image_signature cosign.Verify.Entry.verify_image_attestation
    cosign.Verify.Images.join cosign.Verify.Images.tally cosign.Verify.Images.verify_each
    cosign.Verify.Images.conclude cosign.Verify.Images.verify_signatures
    cosign.Verify.Images.verify_attestations cosign.Verify.Images.require_trust
    cosign.Verify.Images.get_signed_entity cosign.Verify.Images.signature_text
    cosign.Verify.Images.load_signature_from_file cosign.Verify.Images.choose_signatures
    cosign.Verify.Images.fetch_signatures cosign.Verify.Images.fetch_attestations
    cosign.Verify.Images.local_digest cosign.Verify.Images.fetch_local
    cosign.Verify.Images.then_verify cosign.Verify.Images.verify_image_signatures
    cosign.Verify.Images.verify_image_attestations
    cosign.Verify.Images.verify_local_image_signatures
    cosign.Verify.Images.verify_local_image_attestations cosign.Webhook.parse_pems
    cosign.Webhook.note_key cosign.Webhook.collect_keys cosign.Webhook.finish_keys
    cosign.Webhook.get_keys cosign.Webhook.valid_signatures
    cosign.Webhook.valid_signatures_with_fulcio cosign.Webhook.try_key cosign.Webhook.try_keys
    cosign.Webhook.valid cosign.Webhook.Authorities.keyless_services
    cosign.Webhook.Authorities.check_keyless cosign.Webhook.Authorities.check_keyless_case
    cosign.Webhook.Authorities.keys_of cosign.Webhook.Authorities.check_keys
    cosign.Webhook.Authorities.check_authority cosign.Webhook.Authorities.check_authorities
    cosign.Webhook.Authorities.validate_policy cosign.Webhook.Authorities.note_policy
    cosign.Webhook.Authorities.validate_each cosign.Webhook.Authorities.validate_policies
    cosign.Policy.Matching.append_at cosign.Policy.Matching.judge
    cosign.Policy.Matching.match_patterns cosign.Policy.Matching.match_policies
    cosign.Policy.Matching.get_matching_policies cosign.Policy.Matching.add_entries
    cosign.Policy.Matching.new_image_policies_config_from_map
validate_policies_sound_example =
    validate_policies_sound toy services "image" "chain" (("one", by_key ∷ []) ∷ []) (inl refl)
