-- ===== src/Tests/Blob.antt =====
-- The results on `cosign verify-blob`, at concrete inputs.
use cosign.Base.{String, none, some, true, false, [], ◌∷◌, ◌≡◌, refl, ◌↔◌, ◌⊎◌}
use cosign.Base.{message, ok, err}
use cosign.Base.Int.{pos}
use cosign.World.Models.{LogEntry}
use cosign.Verify.Registry.{not_exist}
use cosign.Blob.{KeyOpts, Services, other_entry}
use cosign.Blob.Inputs.{signatures, payload_bytes}
use cosign.Blob.Inputs.Reads.{SignatureOf, BlobOf}
use cosign.Blob.Rekor.{verified_offline, verify_rekor_entry}
use cosign.Blob.Rekor.Ignored.{Obtained, VerifiesOffline, verify_rekor_entry_iff}
use cosign.Blob.Command.{CertArgs, chosen_signer}
use cosign.Blob.Command.Sound.{IsVerified, verify_blob_cmd_sound}
use cosign.Tests.Toy.{toy}

abbrev services : Services toy
services = record {
  is_experimental = true;
  load_file_or_url = λ path. not_exist;
  read_stdin = ok "blob";
  unmarshal_local_payload = λ s. err (message "no bundle");
  public_key_from_key_ref = λ r. ok r;
  Token = String;
  get_key_with_slot = λ slot. ok slot;
  token_verifier = λ t. ok t;
  load_public_key_raw = λ s. ok s;
  public_key_pem = λ k. ok k;
  wrap_verifier = λ k. k;
  unmarshal_certificates_from_pem = λ s. ok (s ∷ []);
  load_certificates_from_pem = λ s. ok (s ∷ []);
  roots = "root" ∷ [];
  intermediates = [];
  new_client = λ url. ok url;
  search_index = λ c h. ok [];
  entry_key = λ s. ok other_entry;
}

abbrev by_key : KeyOpts
by_key = record { key_ref = "key"; sk = false; slot = ""; bundle_path = ""; rekor_url = "rekor" }

-- An entry without a proof.
abbrev unproved : LogEntry
unproved = record {
  body = "entry";
  integrated_time = pos 15;
  log_index = pos 0;
  log_id = "log";
  verification = none;
}

verify_rekor_entry_iff_example :
    (verify_rekor_entry toy services by_key (some unproved) "key" none "blob" "blob" ≡ none) ↔ (
      VerifiesOffline toy services by_key none
      ⊎ (true ≡ false)
      ⊎ Obtained toy services by_key (some unproved) "key" none "blob" "blob")
verify_rekor_entry_iff_example =
    verify_rekor_entry_iff toy services by_key (some unproved) "key" none "blob" "blob"

abbrev args : CertArgs
args = record {
  cert_ref = "";
  cert_email = "";
  cert_oidc_issuer = "";
  cert_chain = "";
  enforce_sct = false;
}

abbrev offline : Services toy
offline = record services { is_experimental = false }

verify_blob_cmd_sound_example :
    (sig : String) × (b64sig : String) × (blob : String) × SignatureOf toy offline "blob" "" sig
      b64sig
    × BlobOf toy offline "-" blob
    × IsVerified toy offline by_key args sig b64sig blob
unfolding cosign.Blob.Inputs.fetch_local_signed_payload cosign.Blob.Inputs.signatures
    cosign.Blob.Inputs.payload_bytes cosign.Blob.Inputs.load_cert_from_pem
    cosign.Blob.Inputs.load_cert_from_file_or_url
    cosign.Blob.Inputs.load_cert_chain_from_file_or_url cosign.Blob.Inputs.extract_cert
    cosign.Blob.Inputs.is_intoto_dsse cosign.Blob.Inputs.find_tlog_entries_by_payload
    cosign.Blob.Rekor.expiry_of cosign.Blob.Rekor.verify_rekor_bundle
    cosign.Blob.Rekor.verified_offline cosign.Blob.Rekor.entry_of cosign.Blob.Rekor.leaf_and_expiry
    cosign.Blob.Rekor.after_log cosign.Blob.Rekor.check_online cosign.Blob.Rekor.with_client
    cosign.Blob.Rekor.verify_rekor_entry cosign.Blob.Command.one_of cosign.Blob.Command.check_opts
    cosign.Blob.Command.cert_signer cosign.Blob.Command.bundle_signer
    cosign.Blob.Command.chosen_signer cosign.Blob.Command.verifier_for
    cosign.Blob.Command.verify_with cosign.Blob.Command.verify_uuid_entry
    cosign.Blob.Command.valid_exists cosign.Blob.Command.verify_sig_by_uuid
    cosign.Blob.Command.verify_by_log cosign.Blob.Command.verify_chosen
    cosign.Blob.Command.has_source cosign.Blob.Command.verify_blob_cmd
verify_blob_cmd_sound_example = verify_blob_cmd_sound toy offline by_key args "blob" "-" refl
