-- ===== src/Verify/Bundle/Accepts.antt =====
-- What a verified bundle shows, and what VerifyBundle does with a bundle of another payload.
use cosign.Base.{String, Option, none, some, true, false, ◌==◌}
use cosign.Base.{◌≡◌, refl, ◌≢◌, ◌↔◌, ◌⊎◌, inl, inr, arith, eq_iff}
use cosign.Base.{wrap, Result, ok, err, wrap_result, Result-cases}
use cosign.Base.{Bool-cases, >>=-eq-ok, >>-eq-ok}
use cosign.Base.{wrap_result-eq-ok, wrap-eq-none}
use cosign.Base.Int.{◌≤ℤ◌}
use cosign.Base.Maps.{Map, lookup}
use cosign.World.{World}
use cosign.Tlog.{RekorPubKey, get_rekor_pubs, key_for, verify_set}
use cosign.Verify.{Signature, RekorBundle}
use cosign.Verify.Cert.{check_expiry}
use cosign.Verify.Cert.Accepts.{check_expiry_iff}
use cosign.Verify.Bundle.{
  bundle_sig, bundle_hash, compare_sigs, match_hash, match_cert, verify_present, verify_bundle,
  present_or_not,
}

module _ (w : World) where
  -- The signature in the body is the one being verified, or one of the two is empty.
  pub record SigsAgree (body : String) (sig : Signature w) : Type 0 where
    pub actual : String
    pub read : sig.base64_signature ≡ ok actual
    pub agree :
        (actual ≡ "") ⊎ ((s : String) × (bundle_sig w body ≡ ok s) × ((s ≡ "") ⊎ (s ≡ actual)))

  -- The rekor key of the payload's log ID signed its canonical JSON.
  pub record SetOk (b : RekorBundle) : Type 0 where
    pub keys : Map (RekorPubKey w)
    pub trusted : get_rekor_pubs w ≡ ok keys
    pub key : RekorPubKey w
    pub found : lookup b.payload.log_id keys ≡ some key
    pub contents : String
    pub marshaled :
        w.marshal_rekor_payload b.payload.body b.payload.integrated_time b.payload.log_index
          b.payload.log_id
        ≡ ok contents
    pub canonical : String
    pub canonicalized : w.canonicalize contents ≡ ok canonical
    pub signed : w.verify_asn1 key.pub_key (w.sha256 canonical) b.signed_entry_timestamp ≡ true

  -- The log's time lies in the certificate's validity, and the body has the payload's hash.
  pub record CertOk (sig : Signature w) (b : RekorBundle) (cert : w.Certificate) : Type 0 where
    pub issued : w.not_before cert ≤ℤ b.payload.integrated_time
    pub not_expired : b.payload.integrated_time ≤ℤ w.not_after cert
    pub payload : String
    pub payload_read : sig.payload ≡ ok payload
    pub signature : String
    pub signature_read : sig.base64_signature ≡ ok signature
    pub hash_agrees :
        bundle_hash w b.payload.body signature ≡ ok ("sha256", w.hex_encode (w.sha256 payload))

  abbrev pub CertPart : Signature w → RekorBundle → Option w.Certificate → Type 0
  CertPart sig b none = Unit
  CertPart sig b (some cert) = CertOk sig b cert

  pub record Verified (sig : Signature w) : Type 0 where
    pub bundle : RekorBundle
    pub attached : sig.bundle ≡ ok (some bundle)
    pub sigs_agree : SigsAgree bundle.payload.body sig
    pub set_ok : SetOk bundle
    pub cert : Option w.Certificate
    pub cert_read : sig.cert ≡ ok cert
    pub cert_part : CertPart sig bundle cert

  compare_sigs_sound :
      (body : String) (sig : Signature w) → compare_sigs w body sig ≡ none → SigsAgree body sig
  unfolding compare_sigs
  compare_sigs_sound body sig h = elim (Result-cases sig.base64_signature) [
    | inr (e, p) ↦ absurd (ground arith)
    | inl (actual, p) ↦ record {
      actual = actual;
      read = p;
      agree = elim (Result-cases (bundle_sig w body)) [
        | inr (e, q) ↦ inl (ground (arith, eq_iff actual ""))
        | inl (s, q) ↦ elim (Bool-cases (actual == "")) [
          | inl x ↦ inl ((eq_iff actual "").0 x)
          | inr x ↦ inr (s, q, ground (arith, eq_iff s "", eq_iff s actual))
        ]
      ];
    }
  ]

  compare_sigs_complete :
      (body : String) (sig : Signature w) → SigsAgree body sig → compare_sigs w body sig ≡ none
  unfolding compare_sigs
  compare_sigs_complete body sig a = elim a.agree [
    | inl e ↦ ground (arith, a.read, eq_iff a.actual "")
    | inr (s, p, inl e) ↦ ground (arith, a.read, eq_iff s "")
    | inr (s, p, inr e) ↦ ground (arith, a.read, eq_iff s a.actual)
  ]

  match_hash_iff :
      (found : Result (String × String)) (hash : String)
      → (match_hash w found hash ≡ ok true) ↔ (found ≡ ok ("sha256", hash))
  unfolding match_hash
  match_hash_iff (err e) hash = ground (arith, eq_iff "" "sha256")
  match_hash_iff (ok (alg, h)) hash = ground (arith, eq_iff alg "sha256", eq_iff h hash)

  match_cert_sound :
      (sig : Signature w) (b : RekorBundle) (cert : Option w.Certificate)
      → match_cert w sig b cert ≡ ok true
      → CertPart sig b cert
  unfolding match_cert
  match_cert_sound sig b none h = tt
  match_cert_sound sig b (some cert) h =
      let (e, h₁) = >>-eq-ok (wrap _ (check_expiry w cert b.payload.integrated_time)) _ h in
      let (payload, p, h₂) = >>=-eq-ok (wrap_result _ sig.payload) _ h₁ in
      let (signature, s, h₃) = >>=-eq-ok (wrap_result _ sig.base64_signature) _ h₂ in
      let times = (check_expiry_iff w cert b.payload.integrated_time).0 (wrap-eq-none _ _ e) in
      record {
        issued = times.0;
        not_expired = times.1;
        payload = payload;
        payload_read = wrap_result-eq-ok _ sig.payload p;
        signature = signature;
        signature_read = wrap_result-eq-ok _ sig.base64_signature s;
        hash_agrees = (match_hash_iff _ _).0 h₃;
      }

  match_cert_complete :
      (sig : Signature w) (b : RekorBundle) (cert : Option w.Certificate)
      → CertPart sig b cert
      → match_cert w sig b cert ≡ ok true
  unfolding match_cert
  match_cert_complete sig b none c = refl
  match_cert_complete sig b (some cert) c =
      rw
        (
          (check_expiry_iff w cert b.payload.integrated_time).1 (c.issued, c.not_expired),
          c.payload_read,
          c.signature_read,
        )
        ((match_hash_iff _ _).1 c.hash_agrees)

  set_sound :
      (b : RekorBundle) (keys : Map (RekorPubKey w)) (key : RekorPubKey w)
      → get_rekor_pubs w ≡ ok keys
      → key_for w b.payload.log_id keys ≡ ok key
      → verify_set w b.payload.body b.payload.integrated_time b.payload.log_index b.payload.log_id
          b.signed_entry_timestamp key.pub_key
        ≡ none
      → SetOk b
  unfolding key_for verify_set
  set_sound b keys key t f v =
      elim (Result-cases (
        w.marshal_rekor_payload b.payload.body b.payload.integrated_time b.payload.log_index
          b.payload.log_id)) [
            | inr (e, m) ↦ absurd (ground arith)
            | inl (contents, m) ↦ elim (Result-cases (w.canonicalize contents)) [
              | inr (e, c) ↦ absurd (ground arith)
              | inl (canonical, c) ↦ record {
                keys = keys;
                trusted = t;
                key = key;
                found = ground arith;
                contents = contents;
                marshaled = m;
                canonical = canonical;
                canonicalized = c;
                signed = ground arith;
              }
            ]
          ]

  verify_present_sound :
      (sig : Signature w) (b : RekorBundle)
      → sig.bundle ≡ ok (some b)
      → verify_present w sig b ≡ ok true
      → Verified sig
  unfolding verify_present
  verify_present_sound sig b at h =
      let (a, h₁) = >>-eq-ok (compare_sigs w b.payload.body sig) _ h in
      let (keys, k, h₂) = >>=-eq-ok (wrap_result _ (get_rekor_pubs w)) _ h₁ in
      let (key, f, h₃) = >>=-eq-ok (key_for w b.payload.log_id keys) _ h₂ in
      let (v, h₄) = >>-eq-ok (verify_set w _ _ _ _ _ key.pub_key) _ h₃ in
      let (cert, c, h₅) = >>=-eq-ok sig.cert _ h₄ in
      record {
        bundle = b;
        attached = at;
        sigs_agree = compare_sigs_sound b.payload.body sig a;
        set_ok = set_sound b keys key (wrap_result-eq-ok _ (get_rekor_pubs w) k) f v;
        cert = cert;
        cert_read = c;
        cert_part = match_cert_sound sig b cert h₅;
      }

  key_for-found : (b : RekorBundle) (s : SetOk b) → key_for w b.payload.log_id s.keys ≡ ok s.key
  unfolding key_for
  key_for-found b s = ground (arith, s.found)

  verify_set_complete :
      (b : RekorBundle) (s : SetOk b)
      → verify_set w b.payload.body b.payload.integrated_time b.payload.log_index b.payload.log_id
          b.signed_entry_timestamp s.key.pub_key
        ≡ none
  unfolding verify_set
  verify_set_complete b s = ground (arith, s.marshaled, s.canonicalized, s.signed)

  verify_present_complete :
      (sig : Signature w) (v : Verified sig) → verify_present w sig v.bundle ≡ ok true
  unfolding verify_present match_cert
  verify_present_complete sig v =
      rw
        (
          compare_sigs_complete v.bundle.payload.body sig v.sigs_agree,
          v.set_ok.trusted,
          key_for-found v.bundle v.set_ok,
          verify_set_complete v.bundle v.set_ok,
          v.cert_read,
        )
        (match_cert_complete sig v.bundle v.cert v.cert_part)

  present_or_not_sound :
      (sig : Signature w) (o : Option RekorBundle)
      → sig.bundle ≡ ok o
      → present_or_not w sig o ≡ ok true
      → Verified sig
  unfolding present_or_not
  present_or_not_sound sig none at h = cc
  present_or_not_sound sig (some b) at h = verify_present_sound sig b at h

  -- A bundle is reported as verified exactly if it is attached, its body's signature is the one
  -- being verified (or one of the two is empty), a trusted rekor key of its log ID signed its
  -- canonical payload, and, where the signature has a certificate, the log's time lies in the
  -- certificate's validity and the body has the sha256 hash of the payload.
  pub verify_bundle_iff : (sig : Signature w) → (verify_bundle w sig ≡ ok true) ↔ Verified sig
  unfolding verify_bundle
  verify_bundle_iff sig = (
    λ h. let (o, p, h₁) = >>=-eq-ok sig.bundle _ h in present_or_not_sound sig o p h₁,
    λ v. simp v.attached (verify_present_complete sig v),
  )

  -- The bundle of another payload: all is as in `Verified`, but the hash in its body is not the
  -- sha256 hash of the payload that is being verified.
  pub record OtherPayload (sig : Signature w) : Type 0 where
    pub bundle : RekorBundle
    pub attached : sig.bundle ≡ ok (some bundle)
    pub sigs_agree : SigsAgree bundle.payload.body sig
    pub set_ok : SetOk bundle
    pub cert : w.Certificate
    pub cert_read : sig.cert ≡ ok (some cert)
    pub issued : w.not_before cert ≤ℤ bundle.payload.integrated_time
    pub not_expired : bundle.payload.integrated_time ≤ℤ w.not_after cert
    pub payload : String
    pub payload_read : sig.payload ≡ ok payload
    pub alg : String
    pub hash : String
    pub hash_read : bundle_hash w bundle.payload.body sigs_agree.actual ≡ ok (alg, hash)
    pub hash_differs : hash ≢ w.hex_encode (w.sha256 payload)

  match_hash_other : (alg h hash : String) → h ≢ hash → match_hash w (ok (alg, h)) hash ≡ ok false
  unfolding match_hash
  match_hash_other alg h hash ne = ground (arith, eq_iff alg "sha256", eq_iff h hash)

  verify_present_other :
      (sig : Signature w) (o : OtherPayload sig) → verify_present w sig o.bundle ≡ ok false
  unfolding verify_present match_cert
  verify_present_other sig o =
      rw
        (
          compare_sigs_complete o.bundle.payload.body sig o.sigs_agree,
          o.set_ok.trusted,
          key_for-found o.bundle o.set_ok,
          verify_set_complete o.bundle o.set_ok,
          o.cert_read,
          (check_expiry_iff w o.cert o.bundle.payload.integrated_time).1 (o.issued, o.not_expired),
          o.payload_read,
          o.sigs_agree.read,
          o.hash_read,
        )
        (match_hash_other o.alg o.hash _ o.hash_differs)

  -- A bundle of another payload is reported as not verified, but with no error.
  pub verify_bundle-OtherPayload :
      (sig : Signature w) → OtherPayload sig → verify_bundle w sig ≡ ok false
  unfolding verify_bundle
  verify_bundle-OtherPayload sig o = simp o.attached (verify_present_other sig o)
