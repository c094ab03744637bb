-- ===== src/Tests/Entries.antt =====
-- The results on one signature, its claims, its bundle and the log, at concrete inputs.
use cosign.Base.Maps.{Map}
use cosign.Base.{
  String, none, some, true, false, [], ◌∷◌, ◌≡◌, ◌↔◌, refl, inl, arith, Result, ok, err, Option,
  Error, List,
}
use cosign.Base.Int.{pos}
use cosign.World.Models.{
  LogEntry, ProposedEntry, Verification, InclusionProof, SimpleContainerImage, Statement, active,
  text,
}
use cosign.Ctl.{verify_sct, sct_inputs, SctInputs}
use cosign.Tlog.{verify_tlog_entry, find_tlog_entry, proposed_entry}
use cosign.Tlog.Search.{IsSingle, find_tlog_entry_iff}
use cosign.Tlog.Accepts.{Included, Timestamped, verify_tlog_entry_iff}
use cosign.Verify.Claims.{
  simple_claim_verifier, simple_payload, intoto_subject_claim_verifier, statement_of,
}
use cosign.Verify.Claims.Accepts.{
  IsSimple, Annotated, HasSubject, simple_claim_verifier_iff, intoto_subject_claim_verifier_iff,
}
use cosign.Verify.Entry.{
  verify_entry, verify_oci_signature, verify_image_signature, verify_image_attestation,
  tlog_validate_certificate,
}
use cosign.Verify.Entry.Accepts.{verify_entry_iff, OtherPayload-accepted}
use cosign.Verify.{Signature, CheckOpts, Identity}
use cosign.Verify.Cert.{check_expiry, validate_and_unpack_cert}
use cosign.Verify.Bundle.{verify_bundle}
use cosign.Verify.Bundle.Accepts.{Verified, verify_bundle_iff, OtherPayload}
use cosign.Tests.Toy.{toy, signed, options}

verify_bundle_iff_example :
    (verify_bundle toy (signed "sha256:abc" 15) ≡ ok true) ↔ Verified toy (signed "sha256:abc" 15)
verify_bundle_iff_example = verify_bundle_iff toy (signed "sha256:abc" 15)

verify_entry_iff_example :
    ((verify_entry toy "no certificate"
        (verify_oci_signature toy)
        (signed "sha256:abc" 15)
        "sha256:abc"
        options).0
      ≡ (true, none))
    ↔ cosign.Verify.Entry.Accepts.Accepted toy "no certificate"
        (verify_oci_signature toy)
        (signed "sha256:abc" 15)
        "sha256:abc"
        options
        true
verify_entry_iff_example =
    verify_entry_iff toy "no certificate" (verify_oci_signature toy) (signed "sha256:abc" 15)
      "sha256:abc" options true

-- A signature with the bundle of an entry for another payload, and no signature of its own to
-- compare with it.
abbrev of_other_payload : Signature toy
of_other_payload = record (signed "sha256:other" 15) { base64_signature = ok ""; payload = ok "" }

of_other_payload-OtherPayload : OtherPayload toy of_other_payload
unfolding cosign.Base.Maps.lookup cosign.Base.Maps.insert cosign.Tlog.get_log_id
    cosign.Tlog.pem_to_ecdsa_key cosign.Tlog.add_rekor_targets cosign.Tlog.alternate_rekor_pub
    cosign.Tlog.get_rekor_pubs cosign.Tlog.compute_leaf_hash cosign.Tlog.verify_uuid
    cosign.Tlog.get_tlog_entry cosign.Tlog.intoto_entry cosign.Tlog.rekor_entry
    cosign.Tlog.proposed_entry cosign.Tlog.single_entry cosign.Tlog.find_tlog_entry
    cosign.Tlog.verify_set cosign.Tlog.add_api_key cosign.Tlog.key_for cosign.Tlog.check_log_entry
    cosign.Tlog.proof_of cosign.Tlog.verify_tlog_entry cosign.Verify.Bundle.record_of_body
    cosign.Verify.Bundle.bundle_hash cosign.Verify.Bundle.bundle_sig
    cosign.Verify.Bundle.compare_sigs cosign.Verify.Bundle.match_hash
    cosign.Verify.Bundle.match_cert cosign.Verify.Bundle.verify_present
    cosign.Verify.Bundle.verify_bundle
of_other_payload-OtherPayload = record {
  bundle = record {
    signed_entry_timestamp = "sha256:other";
    payload = record {
      body = "sha256:other";
      integrated_time = pos 15;
      log_index = pos 0;
      log_id = "rekor";
    };
  };
  attached = refl;
  sigs_agree = record { actual = ""; read = refl; agree = inl refl };
  set_ok = record {
    keys = ("rekor", record { pub_key = "rekor"; status = active }) ∷ [];
    trusted = refl;
    key = record { pub_key = "rekor"; status = active };
    found = refl;
    contents = "sha256:other";
    marshaled = refl;
    canonical = "sha256:other";
    canonicalized = refl;
    signed = refl;
  };
  cert = "cert";
  cert_read = refl;
  issued = omega arith;
  not_expired = omega arith;
  payload = "";
  payload_read = refl;
  alg = "sha256";
  hash = "sha256:other";
  hash_read = refl;
  hash_differs = λ e. cc;
}

OtherPayload-accepted_example :
    (verify_image_signature toy of_other_payload "" options).0 ≡ (false, none)
unfolding cosign.Base.Maps.lookup cosign.Base.Maps.insert cosign.Ctl.contains_sct
    cosign.Ctl.get_alternate_public_key cosign.Ctl.ct_log_keys cosign.Ctl.verify_embedded
    cosign.Ctl.detached_sct cosign.Ctl.verify_detached cosign.Ctl.check_scts cosign.Ctl.sct_inputs
    cosign.Ctl.verify_sct cosign.Ctl.verify_embedded_sct cosign.Tlog.get_log_id
    cosign.Tlog.pem_to_ecdsa_key cosign.Tlog.add_rekor_targets cosign.Tlog.alternate_rekor_pub
    cosign.Tlog.get_rekor_pubs cosign.Tlog.compute_leaf_hash cosign.Tlog.verify_uuid
    cosign.Tlog.get_tlog_entry cosign.Tlog.intoto_entry cosign.Tlog.rekor_entry
    cosign.Tlog.proposed_entry cosign.Tlog.single_entry cosign.Tlog.find_tlog_entry
    cosign.Tlog.verify_set cosign.Tlog.add_api_key cosign.Tlog.key_for cosign.Tlog.check_log_entry
    cosign.Tlog.proof_of cosign.Tlog.verify_tlog_entry cosign.Verify.Cert.issuer_of
    cosign.Verify.Cert.get_subject_alternate_names cosign.Verify.Cert.trusted_cert
    cosign.Verify.Cert.check_expiry cosign.Verify.Cert.check_email
    cosign.Verify.Cert.check_oidc_issuer cosign.Verify.Cert.issuer_matches
    cosign.Verify.Cert.subject_matches cosign.Verify.Cert.match_identities
    cosign.Verify.Cert.check_embedded_sct cosign.Verify.Cert.finish_unpack
    cosign.Verify.Cert.validate_and_unpack_cert
    cosign.Verify.Cert.validate_and_unpack_cert_with_chain cosign.Verify.Bundle.record_of_body
    cosign.Verify.Bundle.bundle_hash cosign.Verify.Bundle.bundle_sig
    cosign.Verify.Bundle.compare_sigs cosign.Verify.Bundle.match_hash
    cosign.Verify.Bundle.match_cert cosign.Verify.Bundle.verify_present
    cosign.Verify.Bundle.verify_bundle cosign.Verify.Claims.value_is
    cosign.Verify.Claims.correct_annotations cosign.Verify.Claims.annotations_error
    cosign.Verify.Claims.simple_payload cosign.Verify.Claims.simple_claim_verifier
    cosign.Verify.Claims.match_subject cosign.Verify.Claims.statement_of
    cosign.Verify.Claims.intoto_subject_claim_verifier cosign.Verify.Entry.verify_oci_signature
    cosign.Verify.Entry.verify_oci_attestation cosign.Verify.Entry.tlog_validate_public_key
    cosign.Verify.Entry.tlog_validate_certificate cosign.Verify.Entry.intermediates_of
    cosign.Verify.Entry.verify_claims cosign.Verify.Entry.tlog_validate cosign.Verify.Entry.finish
    cosign.Verify.Entry.verifier_of_cert cosign.Verify.Entry.obtain_verifier
    cosign.Verify.Entry.check_with cosign.Verify.Entry.verify_entry
    cosign.Verify.Entry.verify_image_signature cosign.Verify.Entry.verify_image_attestation
OtherPayload-accepted_example =
    OtherPayload-accepted toy of_other_payload "" options "cert" of_other_payload-OtherPayload refl
      refl refl refl

-- An entry of the log, with its proof.
abbrev entry : LogEntry
entry = record {
  body = "body";
  integrated_time = pos 15;
  log_index = pos 0;
  log_id = "rekor";
  verification = some (record {
    signed_entry_timestamp = "body";
    inclusion_proof =
        some (record { log_index = pos 0; tree_size = pos 1; root_hash = "body"; hashes = [] });
  });
}

verify_tlog_entry_iff_example : (verify_tlog_entry toy "client" entry ≡ none) ↔ (
    (v : Verification) × (p : InclusionProof) × (entry.verification ≡ some v)
    × (v.inclusion_proof ≡ some p)
    × Included toy entry p
    × Timestamped toy "client" entry v)
verify_tlog_entry_iff_example = verify_tlog_entry_iff toy "client" entry

simple_claim_verifier_iff_example :
    (simple_claim_verifier toy
        (signed "sha256:abc" 15)
        "sha256:abc"
        (some (("team", text "release") ∷ []))
      ≡ none)
    ↔ ((ss : SimpleContainerImage) × IsSimple toy (signed "sha256:abc" 15) ss
        × (ss.docker_manifest_digest ≡ "sha256:abc")
        × Annotated (some (("team", text "release") ∷ [])) ss.optional)
simple_claim_verifier_iff_example =
    simple_claim_verifier_iff toy (signed "sha256:abc" 15) "sha256:abc"
      (some (("team", text "release") ∷ []))

intoto_subject_claim_verifier_iff_example :
    (intoto_subject_claim_verifier toy (signed "sha256:abc" 15) "sha256:sha256:abc" none ≡ none) ↔ (
      (st : Statement) × (statement_of toy (signed "sha256:abc" 15) ≡ ok st)
      × HasSubject st.subject "sha256:sha256:abc")
intoto_subject_claim_verifier_iff_example =
    intoto_subject_claim_verifier_iff toy (signed "sha256:abc" 15) "sha256:sha256:abc" none

find_tlog_entry_iff_example : (find_tlog_entry toy "client" "sig" "payload" "key" ≡ ok entry) ↔ (
    (proposed : List ProposedEntry) × (replies : List (Map LogEntry)) × (proposed_entry toy "sig"
        "payload" "key"
      ≡ ok proposed)
    × (toy.search_log_query "client" proposed ≡ ok replies)
    × IsSingle toy replies entry)
find_tlog_entry_iff_example = find_tlog_entry_iff toy "client" "sig" "payload" "key" entry
