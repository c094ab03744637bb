-- ===== src/Tests/Toy.antt =====
-- A small world: certificates and keys are texts, codecs are identities, a signature is the text it
-- signs, and every certificate is valid from 10 to 20, with one email address and a chain to a root.
use cosign.Base.{ℕ, String, none, some, Bool, true, false, [], ◌∷◌, ◌==◌, ◌&&◌}
use cosign.Base.{message, ok, err, if◌then◌else◌, refl}
use cosign.Base.Int.{pos}
use cosign.World.{World}
use cosign.World.Models.{active, text}
use cosign.FieldError.{FieldErrors, IsLawful}
use cosign.Verify.{Signature, CheckOpts, RekorBundle, RekorPayload}
use cosign.Verify.Registry.{Registry, SignedEntity}
use cosign.Verify.Claims.{simple_claim_verifier}

abbrev pub toy : World
toy = record {
  Certificate = String;
  PublicKey = String;
  Ip = String;
  Uri = String;
  raw = λ c. c;
  public_key = λ c. c;
  not_before = λ c. pos 10;
  not_after = λ c. pos 20;
  dns_names = λ c. [];
  email_addresses = λ c. "dev@example.com" ∷ [];
  ip_addresses = λ c. [];
  uris = λ c. [];
  extensions = λ c. [];
  ip_string = λ i. i;
  uri_string = λ u. u;
  build_chains = λ c t roots pool usages. ok (record { first = c ∷ "root" ∷ []; others = [] });
  marshal_pkix = λ k. ok k;
  parse_pkix = λ s. if s == "bad" then err (message "bad key") else ok s;
  parse_pkcs1 = λ s. ok s;
  pem_decode = λ s. if s == "k" then some ("k", "") else none;
  Verifier = String;
  load_verifier = λ k. ok k;
  verify_signature =
      λ v sig payload. if sig == payload then none else some (message "invalid signature");
  verifier_public_key = λ v. ok v;
  marshal_public_key_to_pem = λ k. ok k;
  marshal_certificate_to_pem = λ c. ok "cert";
  marshal_certificates_to_pem = λ cs. ok "chain";
  unmarshal_pem_to_public_key = λ s. ok s;
  EcdsaKey = String;
  as_ecdsa = λ k. some k;
  from_ecdsa = λ k. k;
  type_name = λ k. "*ecdsa.PublicKey";
  verify_asn1 = λ k digest sig. digest == sig;
  compile = λ p. if p == "(" then err (message "missing )") else ok (λ s. s == p);
  base64_decode = λ s. ok s;
  base64_encode = λ s. s;
  hex_decode = λ s. s;
  hex_encode = λ s. s;
  sha256 = λ s. s;
  Spec = String;
  unmarshal_envelope =
      λ s. ok (record { payload_type = "application/vnd.in-toto+json"; payload = s });
  unmarshal_toto = λ s. ok s;
  unmarshal_rekord = λ s. err (message "not a rekord entry");
  unmarshal_hashedrekord = λ s. ok s;
  marshal_spec = λ s. ok s;
  unmarshal_intoto_v001 = λ s. ok (record { hash_algorithm = "sha256"; hash_value = s });
  unmarshal_rekord_v001 =
      λ s. ok (record { hash_algorithm = "sha256"; hash_value = s; signature_content = s });
  unmarshal_hashedrekord_v001 =
      λ s. ok (record { hash_algorithm = "sha256"; hash_value = s; signature_content = s });
  unmarshal_simple_container_image =
      λ s. ok (record { docker_manifest_digest = s; optional = ("team", text "release") ∷ [] });
  unmarshal_statement = λ s. ok (record { subject = (("sha256", s) ∷ []) ∷ [] });
  marshal_rekor_payload = λ body time index id. ok body;
  canonicalize = λ s. ok s;
  EnvelopeVerifier = String;
  new_envelope_verifier = λ v. ok v;
  verify_envelope = λ v e. none;
  RekorClient = String;
  search_log_query = λ c es. ok [];
  get_log_entry_by_uuid = λ c id. ok [];
  get_public_key = λ c. ok c;
  intoto_api_version = "0.0.1";
  hashedrekord_api_version = "0.0.1";
  hash_leaf = λ s. s;
  verify_inclusion_proof =
      λ i n hashes root leaf. if root == leaf then none else some (message "not in the tree");
  rekor_targets = ok (record { target = "rekor"; status = active } ∷ []);
  ctfe_targets = ok (record { target = "ctfe"; status = active } ∷ []);
  Sct = String;
  sct_log_id = λ s. "ctfe";
  parse_scts = λ s. ok ("sct" ∷ []);
  certificate_from_pem = λ s. ok s;
  certificates_from_pem = λ s. ok (s ∷ []);
  AddChainResponse = String;
  unmarshal_add_chain_response = λ s. ok s;
  to_signed_certificate_timestamp = λ s. ok s;
  get_ct_log_id = λ k. ok k;
  ctutil_verify_sct = λ k chain sct embedded. none;
  getenv = λ s. "";
  read_file = λ s. ok s;
}

-- A signature of the digest's text, with the bundle of a log that saw it at a time, and a
-- certificate.
abbrev pub signed : String → ℕ → Signature toy
signed body time = record {
  base64_signature = ok "sha256:abc";
  payload = ok "sha256:abc";
  cert = ok (some "cert");
  chain = ok [];
  bundle = ok (
      some (record {
        signed_entry_timestamp = body;
        payload = record {
          body = body;
          integrated_time = pos time;
          log_index = pos 0;
          log_id = "rekor";
        };
      }));
}

-- With fulcio's root, and without a client of the log.
abbrev pub options : CheckOpts toy
options = record {
  annotations = none;
  claim_verifier = some (simple_claim_verifier toy);
  rekor_client = none;
  sig_verifier = none;
  root_certs = some ("root" ∷ []);
  intermediate_certs = none;
  cert_email = "dev@example.com";
  cert_oidc_issuer = "";
  enforce_sct = false;
  signature_ref = "";
  identities = [];
}

-- One image, with two signatures: the log saw the first in time and the second too late.
abbrev pub registry : Registry toy
registry = record {
  signed_entity = λ ref. ok (record {
    digest = ok "sha256:abc";
    signatures = ok (ok (signed "sha256:abc" 15 ∷ signed "sha256:abc" 25 ∷ []));
    attestations = ok (ok (signed "sha256:abc" 15 ∷ []));
  });
  local_index = λ path. ok (record {
    signed_image_index = ok none;
    signed_image = ok (some (ok "sha256:abc"));
    signatures = ok (ok (signed "sha256:abc" 25 ∷ signed "sha256:abc" 15 ∷ []));
    attestations = ok (ok (signed "sha256:abc" 15 ∷ []));
  });
  load_file_or_url = λ path. cosign.Verify.Registry.not_exist;
  resolve_digest = λ ref. ok "sha256:abc";
  marshal_cosign_payload = λ digest. ok digest;
  new_signature = λ payload sig. err (message "no signature");
}

-- An error is whether there is one.
abbrev pub errors : FieldErrors
errors = record {
  FieldError = Bool;
  nil = true;
  is_nil = λ e. e;
  also = λ a b. a && b;
  via_field = λ e s. e;
  via_field_index = λ e s i. e;
  err_missing_field = λ s. false;
  err_missing_one_of = λ s. false;
  err_multiple_one_of = λ s. false;
  err_invalid_value = λ v s d. false;
  err_generic = λ m s. false;
  with_details = λ e s. e;
}

pub lawful : IsLawful errors
lawful = record {
  is_nil-nil = refl;
  is_nil-also = λ a b. refl;
  is_nil-via_field = λ e s. refl;
  is_nil-via_field_index = λ e s i. refl;
  is_nil-missing_field = λ s. refl;
  is_nil-missing_one_of = λ s. refl;
  is_nil-multiple_one_of = λ s. refl;
  is_nil-invalid_value = λ v s d. refl;
  is_nil-generic = λ m s. refl;
  is_nil-with_details = λ e s. refl;
}
