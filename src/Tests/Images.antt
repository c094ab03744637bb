-- ===== src/Tests/Images.antt =====
-- The results on the signatures of an image, at concrete inputs.
use cosign.Base.Maps.{Map}
use cosign.Base.{
  String, none, some, true, false, [], ◌∷◌, ◌≡◌, ◌↔◌, refl, inl, arith, Result, ok, err, Option,
  Error, List,
}
use cosign.Ctl.{verify_sct, sct_inputs, SctInputs}
use cosign.Tlog.{verify_tlog_entry, find_tlog_entry, proposed_entry}
use cosign.Verify.Claims.{
  simple_claim_verifier, simple_payload, intoto_subject_claim_verifier, statement_of,
}
use cosign.Verify.Entry.{
  verify_entry, verify_oci_signature, verify_image_signature, verify_image_attestation,
  tlog_validate_certificate,
}
use cosign.Verify.Images.{verify_signatures, verify_attestations, lacks_trust}
use cosign.Verify.Registry.{SignedEntity}
use cosign.Verify.Images.Others.{
  Kept, Local, verify_image_attestations_sound, verify_local_image_signatures_sound,
}
use cosign.Verify.Images.Loop.{filtered, verify_signatures-eq-filtered}
use cosign.Verify.{Signature, CheckOpts, Identity}
use cosign.Verify.Cert.{check_expiry, validate_and_unpack_cert}
use cosign.Verify.Bundle.{verify_bundle}
use cosign.Verify.Images.{verify_image_signatures}
use cosign.Verify.Images.Sound.{ImageVerified, verify_image_signatures_sound}
use cosign.Tests.Toy.{toy, signed, options, registry}

verify_image_signatures_sound_example :
    ImageVerified toy registry "image" options (signed "sha256:abc" 15 ∷ []) true
unfolding cosign.Base.Maps.lookup cosign.Base.Maps.insert cosign.Ctl.contains_sct
    cosign.Ctl.get_alternate_public_key cosign.Ctl.ct_log_keys cosign.Ctl.verify_embedded
    cosign.Ctl.detached_sct cosign.Ctl.verify_detached cosign.Ctl.check_scts cosign.Ctl.sct_inputs
    cosign.Ctl.verify_sct cosign.Ctl.verify_embedded_sct cosign.Tlog.get_log_id
    cosign.Tlog.pem_to_ecdsa_key cosign.Tlog.add_rekor_targets cosign.Tlog.alternate_rekor_pub
    cosign.Tlog.get_rekor_pubs cosign.Tlog.compute_leaf_hash cosign.Tlog.verify_uuid
    cosign.Tlog.get_tlog_entry cosign.Tlog.intoto_entry cosign.Tlog.rekor_entry
    cosign.Tlog.proposed_entry cosign.Tlog.single_entry cosign.Tlog.find_tlog_entry
    cosign.Tlog.verify_set cosign.Tlog.add_api_key cosign.Tlog.key_for cosign.Tlog.check_log_entry
    cosign.Tlog.proof_of cosign.Tlog.verify_tlog_entry cosign.Verify.Cert.issuer_of
    cosign.Verify.Cert.get_subject_alternate_names cosign.Verify.Cert.trusted_cert
    cosign.Verify.Cert.check_expiry cosign.Verify.Cert.check_email
    cosign.Verify.Cert.check_oidc_issuer cosign.Verify.Cert.issuer_matches
    cosign.Verify.Cert.subject_matches cosign.Verify.Cert.match_identities
    cosign.Verify.Cert.check_embedded_sct cosign.Verify.Cert.finish_unpack
    cosign.Verify.Cert.validate_and_unpack_cert
    cosign.Verify.Cert.validate_and_unpack_cert_with_chain cosign.Verify.Bundle.record_of_body
    cosign.Verify.Bundle.bundle_hash cosign.Verify.Bundle.bundle_sig
    cosign.Verify.Bundle.compare_sigs cosign.Verify.Bundle.match_hash
    cosign.Verify.Bundle.match_cert cosign.Verify.Bundle.verify_present
    cosign.Verify.Bundle.verify_bundle cosign.Verify.Claims.value_is
    cosign.Verify.Claims.correct_annotations cosign.Verify.Claims.annotations_error
    cosign.Verify.Claims.simple_payload cosign.Verify.Claims.simple_claim_verifier
    cosign.Verify.Claims.match_subject cosign.Verify.Claims.statement_of
    cosign.Verify.Claims.intoto_subject_claim_verifier cosign.Verify.Entry.verify_oci_signature
    cosign.Verify.Entry.verify_oci_attestation cosign.Verify.Entry.tlog_validate_public_key
    cosign.Verify.Entry.tlog_validate_certificate cosign.Verify.Entry.intermediates_of
    cosign.Verify.Entry.verify_claims cosign.Verify.Entry.tlog_validate cosign.Verify.Entry.finish
    cosign.Verify.Entry.verifier_of_cert cosign.Verify.Entry.obtain_verifier
    cosign.Verify.Entry.check_with cosign.Verify.Entry.verify_entry
    cosign.Verify.Entry.verify_image_signature cosign.Verify.Entry.verify_image_attestation
    cosign.Verify.Images.join cosign.Verify.Images.tally cosign.Verify.Images.verify_each
    cosign.Verify.Images.conclude cosign.Verify.Images.verify_signatures
    cosign.Verify.Images.verify_attestations cosign.Verify.Images.require_trust
    cosign.Verify.Images.get_signed_entity cosign.Verify.Images.signature_text
    cosign.Verify.Images.load_signature_from_file cosign.Verify.Images.choose_signatures
    cosign.Verify.Images.fetch_signatures cosign.Verify.Images.fetch_attestations
    cosign.Verify.Images.local_digest cosign.Verify.Images.fetch_local
    cosign.Verify.Images.then_verify cosign.Verify.Images.verify_image_signatures
    cosign.Verify.Images.verify_image_attestations
    cosign.Verify.Images.verify_local_image_signatures
    cosign.Verify.Images.verify_local_image_attestations
verify_image_signatures_sound_example =
    verify_image_signatures_sound toy registry "image" options (signed "sha256:abc" 15 ∷ []) true
      refl

verify_signatures-eq-filtered_example :
    (verify_signatures toy
      (ok (signed "sha256:abc" 25 ∷ signed "sha256:abc" 15 ∷ []))
      "sha256:abc"
      options).0
    ≡ filtered toy "no matching signatures:\n"
        (λ s. (verify_image_signature toy s "sha256:abc" options).0)
        (signed "sha256:abc" 25 ∷ signed "sha256:abc" 15 ∷ [])
verify_signatures-eq-filtered_example =
    verify_signatures-eq-filtered toy (signed "sha256:abc" 25 ∷ signed "sha256:abc" 15 ∷ [])
      "sha256:abc" options

verify_image_attestations_sound_example :
    (entity : SignedEntity toy) × (all : List (Signature toy)) × (digest : String) × (lacks_trust
        toy options
      ≡ false)
    × (registry.signed_entity "image" ≡ ok entity)
    × (entity.digest ≡ ok digest)
    × (entity.attestations ≡ ok (ok all))
    × Kept toy
        (λ s. (verify_image_attestation toy s digest options).0)
        all
        (signed "sha256:abc" 15 ∷ [])
        true
unfolding cosign.Base.Maps.lookup cosign.Base.Maps.insert cosign.Ctl.contains_sct
    cosign.Ctl.get_alternate_public_key cosign.Ctl.ct_log_keys cosign.Ctl.verify_embedded
    cosign.Ctl.detached_sct cosign.Ctl.verify_detached cosign.Ctl.check_scts cosign.Ctl.sct_inputs
    cosign.Ctl.verify_sct cosign.Ctl.verify_embedded_sct cosign.Tlog.get_log_id
    cosign.Tlog.pem_to_ecdsa_key cosign.Tlog.add_rekor_targets cosign.Tlog.alternate_rekor_pub
    cosign.Tlog.get_rekor_pubs cosign.Tlog.compute_leaf_hash cosign.Tlog.verify_uuid
    cosign.Tlog.get_tlog_entry cosign.Tlog.intoto_entry cosign.Tlog.rekor_entry
    cosign.Tlog.proposed_entry cosign.Tlog.single_entry cosign.Tlog.find_tlog_entry
    cosign.Tlog.verify_set cosign.Tlog.add_api_key cosign.Tlog.key_for cosign.Tlog.check_log_entry
    cosign.Tlog.proof_of cosign.Tlog.verify_tlog_entry cosign.Verify.Cert.issuer_of
    cosign.Verify.Cert.get_subject_alternate_names cosign.Verify.Cert.trusted_cert
    cosign.Verify.Cert.check_expiry cosign.Verify.Cert.check_email
    cosign.Verify.Cert.check_oidc_issuer cosign.Verify.Cert.issuer_matches
    cosign.Verify.Cert.subject_matches cosign.Verify.Cert.match_identities
    cosign.Verify.Cert.check_embedded_sct cosign.Verify.Cert.finish_unpack
    cosign.Verify.Cert.validate_and_unpack_cert
    cosign.Verify.Cert.validate_and_unpack_cert_with_chain cosign.Verify.Bundle.record_of_body
    cosign.Verify.Bundle.bundle_hash cosign.Verify.Bundle.bundle_sig
    cosign.Verify.Bundle.compare_sigs cosign.Verify.Bundle.match_hash
    cosign.Verify.Bundle.match_cert cosign.Verify.Bundle.verify_present
    cosign.Verify.Bundle.verify_bundle cosign.Verify.Claims.value_is
    cosign.Verify.Claims.correct_annotations cosign.Verify.Claims.annotations_error
    cosign.Verify.Claims.simple_payload cosign.Verify.Claims.simple_claim_verifier
    cosign.Verify.Claims.match_subject cosign.Verify.Claims.statement_of
    cosign.Verify.Claims.intoto_subject_claim_verifier cosign.Verify.Entry.verify_oci_signature
    cosign.Verify.Entry.verify_oci_attestation cosign.Verify.Entry.tlog_validate_public_key
    cosign.Verify.Entry.tlog_validate_certificate cosign.Verify.Entry.intermediates_of
    cosign.Verify.Entry.verify_claims cosign.Verify.Entry.tlog_validate cosign.Verify.Entry.finish
    cosign.Verify.Entry.verifier_of_cert cosign.Verify.Entry.obtain_verifier
    cosign.Verify.Entry.check_with cosign.Verify.Entry.verify_entry
    cosign.Verify.Entry.verify_image_signature cosign.Verify.Entry.verify_image_attestation
    cosign.Verify.Images.join cosign.Verify.Images.tally cosign.Verify.Images.verify_each
    cosign.Verify.Images.conclude cosign.Verify.Images.verify_signatures
    cosign.Verify.Images.verify_attestations cosign.Verify.Images.require_trust
    cosign.Verify.Images.get_signed_entity cosign.Verify.Images.signature_text
    cosign.Verify.Images.load_signature_from_file cosign.Verify.Images.choose_signatures
    cosign.Verify.Images.fetch_signatures cosign.Verify.Images.fetch_attestations
    cosign.Verify.Images.local_digest cosign.Verify.Images.fetch_local
    cosign.Verify.Images.then_verify cosign.Verify.Images.verify_image_signatures
    cosign.Verify.Images.verify_image_attestations
    cosign.Verify.Images.verify_local_image_signatures
    cosign.Verify.Images.verify_local_image_attestations
verify_image_attestations_sound_example =
    verify_image_attestations_sound toy registry "image" options (signed "sha256:abc" 15 ∷ []) true
      refl

verify_local_image_signatures_sound_example :
    (all : List (Signature toy)) × (digest : String) × Local toy
      (λ se. se.signatures)
      registry
      "path"
      options
      all
      digest
    × Kept toy
        (λ s. (verify_image_signature toy s digest options).0)
        all
        (signed "sha256:abc" 15 ∷ [])
        true
unfolding cosign.Base.Maps.lookup cosign.Base.Maps.insert cosign.Ctl.contains_sct
    cosign.Ctl.get_alternate_public_key cosign.Ctl.ct_log_keys cosign.Ctl.verify_embedded
    cosign.Ctl.detached_sct cosign.Ctl.verify_detached cosign.Ctl.check_scts cosign.Ctl.sct_inputs
    cosign.Ctl.verify_sct cosign.Ctl.verify_embedded_sct cosign.Tlog.get_log_id
    cosign.Tlog.pem_to_ecdsa_key cosign.Tlog.add_rekor_targets cosign.Tlog.alternate_rekor_pub
    cosign.Tlog.get_rekor_pubs cosign.Tlog.compute_leaf_hash cosign.Tlog.verify_uuid
    cosign.Tlog.get_tlog_entry cosign.Tlog.intoto_entry cosign.Tlog.rekor_entry
    cosign.Tlog.proposed_entry cosign.Tlog.single_entry cosign.Tlog.find_tlog_entry
    cosign.Tlog.verify_set cosign.Tlog.add_api_key cosign.Tlog.key_for cosign.Tlog.check_log_entry
    cosign.Tlog.proof_of cosign.Tlog.verify_tlog_entry cosign.Verify.Cert.issuer_of
    cosign.Verify.Cert.get_subject_alternate_names cosign.Verify.Cert.trusted_cert
    cosign.Verify.Cert.check_expiry cosign.Verify.Cert.check_email
    cosign.Verify.Cert.check_oidc_issuer cosign.Verify.Cert.issuer_matches
    cosign.Verify.Cert.subject_matches cosign.Verify.Cert.match_identities
    cosign.Verify.Cert.check_embedded_sct cosign.Verify.Cert.finish_unpack
    cosign.Verify.Cert.validate_and_unpack_cert
    cosign.Verify.Cert.validate_and_unpack_cert_with_chain cosign.Verify.Bundle.record_of_body
    cosign.Verify.Bundle.bundle_hash cosign.Verify.Bundle.bundle_sig
    cosign.Verify.Bundle.compare_sigs cosign.Verify.Bundle.match_hash
    cosign.Verify.Bundle.match_cert cosign.Verify.Bundle.verify_present
    cosign.Verify.Bundle.verify_bundle cosign.Verify.Claims.value_is
    cosign.Verify.Claims.correct_annotations cosign.Verify.Claims.annotations_error
    cosign.Verify.Claims.simple_payload cosign.Verify.Claims.simple_claim_verifier
    cosign.Verify.Claims.match_subject cosign.Verify.Claims.statement_of
    cosign.Verify.Claims.intoto_subject_claim_verifier cosign.Verify.Entry.verify_oci_signature
    cosign.Verify.Entry.verify_oci_attestation cosign.Verify.Entry.tlog_validate_public_key
    cosign.Verify.Entry.tlog_validate_certificate cosign.Verify.Entry.intermediates_of
    cosign.Verify.Entry.verify_claims cosign.Verify.Entry.tlog_validate cosign.Verify.Entry.finish
    cosign.Verify.Entry.verifier_of_cert cosign.Verify.Entry.obtain_verifier
    cosign.Verify.Entry.check_with cosign.Verify.Entry.verify_entry
    cosign.Verify.Entry.verify_image_signature cosign.Verify.Entry.verify_image_attestation
    cosign.Verify.Images.join cosign.Verify.Images.tally cosign.Verify.Images.verify_each
    cosign.Verify.Images.conclude cosign.Verify.Images.verify_signatures
    cosign.Verify.Images.verify_attestations cosign.Verify.Images.require_trust
    cosign.Verify.Images.get_signed_entity cosign.Verify.Images.signature_text
    cosign.Verify.Images.load_signature_from_file cosign.Verify.Images.choose_signatures
    cosign.Verify.Images.fetch_signatures cosign.Verify.Images.fetch_attestations
    cosign.Verify.Images.local_digest cosign.Verify.Images.fetch_local
    cosign.Verify.Images.then_verify cosign.Verify.Images.verify_image_signatures
    cosign.Verify.Images.verify_image_attestations
    cosign.Verify.Images.verify_local_image_signatures
    cosign.Verify.Images.verify_local_image_attestations
verify_local_image_signatures_sound_example =
    verify_local_image_signatures_sound toy registry "path" options (signed "sha256:abc" 15 ∷ [])
      true refl
