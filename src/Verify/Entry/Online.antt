-- ===== src/Verify/Entry/Online.antt =====
-- What the check against the log's server demands: tlogValidateCertificate and
-- tlogValidatePublicKey of pkg/cosign/verify.go.
use cosign.Base.{String, Option, none, some}
use cosign.Base.{sym, ◌∙◌, ◌≡◌, ◌↔◌, inl, inr, arith}
use cosign.Base.{Error, ok, err, Result-cases}
use cosign.Base.{error_of-eq-none, >>=-eq-ok, >>-eq-ok}
use cosign.Base.Int.{◌≤ℤ◌}
use cosign.World.{World}
use cosign.World.Models.{LogEntry}
use cosign.Tlog.{find_tlog_entry, verify_tlog_entry}
use cosign.Verify.{Signature, CheckOpts}
use cosign.Verify.Cert.{check_expiry}
use cosign.Verify.Cert.Accepts.{check_expiry_iff}
use cosign.Verify.Entry.{
  expiry_of, tlog_validate, tlog_validate_certificate, tlog_validate_public_key,
}

module _ (w : World) where
  -- An entry of the log's server for the payload under the certificate, with a verified inclusion
  -- proof and timestamp, made while the certificate was valid.
  pub record OnlineEntry (client : w.RekorClient) (sig : Signature w) (cert : w.Certificate)
      : Type 0 where
    pub pem : String
    pub encoded : w.marshal_certificate_to_pem (some cert) ≡ ok pem
    pub b64sig : String
    pub signature_read : sig.base64_signature ≡ ok b64sig
    pub payload : String
    pub payload_read : sig.payload ≡ ok payload
    pub entry : LogEntry
    pub found : find_tlog_entry w client b64sig payload pem ≡ ok entry
    pub verified : verify_tlog_entry w client entry ≡ none
    pub issued : w.not_before cert ≤ℤ entry.integrated_time
    pub not_expired : entry.integrated_time ≤ℤ w.not_after cert

  -- For a signature with a certificate, the check against the log's server passes exactly if the
  -- signature and its payload can be read, an entry of the log is found for them and verifies, and
  -- the entry's time lies in the certificate's validity.
  tlog_validate_certificate_iff :
      (client : w.RekorClient) (sig : Signature w) (cert : w.Certificate)
      → sig.cert ≡ ok (some cert)
      → (tlog_validate_certificate w client sig ≡ none) ↔ OnlineEntry client sig cert
  unfolding tlog_validate_certificate
  tlog_validate_certificate_iff client sig cert c = (
    λ h.
        let (u, g) = error_of-eq-none _ h in
        let (pem, m, h₁) = >>=-eq-ok (w.marshal_certificate_to_pem (some cert)) _ (rw c at g) in
        let (b64sig, b, h₂) = >>=-eq-ok sig.base64_signature _ h₁ in
        let (payload, p, h₃) = >>=-eq-ok sig.payload _ h₂ in
        let (e, f, h₄) = >>=-eq-ok (find_tlog_entry w client b64sig payload pem) _ h₃ in
        let (v, h₅) = >>-eq-ok (verify_tlog_entry w client e) _ h₄ in
        let times =
          (check_expiry_iff w cert e.integrated_time).0
            ((>>-eq-ok (check_expiry w cert e.integrated_time) _ h₅).0) in
        record {
          pem = pem;
          encoded = m;
          b64sig = b64sig;
          signature_read = b;
          payload = payload;
          payload_read = p;
          entry = e;
          found = f;
          verified = v;
          issued = times.0;
          not_expired = times.1;
        },
    λ o. simp (
      c,
      o.encoded,
      o.signature_read,
      o.payload_read,
      o.found,
      o.verified,
      (check_expiry_iff w cert o.entry.integrated_time).1 (o.issued, o.not_expired),
    ),
  )

  tlog_validate_certificate-err :
      (client : w.RekorClient) (sig : Signature w) (x : Error)
      → sig.cert ≡ err x
      → tlog_validate_certificate w client sig ≡ none
      → ⊥
  unfolding tlog_validate_certificate
  tlog_validate_certificate-err client sig x c h =
      let (u, g) = error_of-eq-none _ h in let (cert, k, _) = >>=-eq-ok sig.cert _ g in ground arith

  -- With no certificate the check never passes.
  tlog_validate_certificate-none :
      (client : w.RekorClient) (sig : Signature w)
      → sig.cert ≡ ok none
      → tlog_validate_certificate w client sig ≡ none
      → ⊥
  unfolding tlog_validate_certificate
  tlog_validate_certificate-none client sig c h =
      let (u, g) = error_of-eq-none _ h in
      let (pem, m, h₁) = >>=-eq-ok (w.marshal_certificate_to_pem none) _ (rw c at g) in
      let (b64sig, b, h₂) = >>=-eq-ok sig.base64_signature _ h₁ in
      let (payload, p, h₃) = >>=-eq-ok sig.payload _ h₂ in
      let (e, f, h₄) = >>=-eq-ok (find_tlog_entry w client b64sig payload pem) _ h₃ in
      let (v, h₅) = >>-eq-ok (verify_tlog_entry w client e) _ h₄ in
      let (x, _) = >>-eq-ok (expiry_of w none e.integrated_time) (ok (tt {0})) h₅ in cc x

  -- An entry of the log's server for the payload under the key; its proof is not looked at.
  pub record KeyEntry (client : w.RekorClient) (sig : Signature w) (v : w.Verifier) : Type 0 where
    pub key : w.PublicKey
    pub key_read : w.verifier_public_key v ≡ ok key
    pub pem : String
    pub encoded : w.marshal_public_key_to_pem key ≡ ok pem
    pub b64sig : String
    pub signature_read : sig.base64_signature ≡ ok b64sig
    pub payload : String
    pub payload_read : sig.payload ≡ ok payload
    pub entry : LogEntry
    pub found : find_tlog_entry w client b64sig payload pem ≡ ok entry

  tlog_validate_public_key_iff :
      (client : w.RekorClient) (sig : Signature w) (v : w.Verifier) (key : w.PublicKey)
      → w.verifier_public_key v ≡ ok key
      → (tlog_validate_public_key w client key sig ≡ none) ↔ KeyEntry client sig v
  unfolding tlog_validate_public_key
  tlog_validate_public_key_iff client sig v key k = (
    λ h.
        let (entry, g) = error_of-eq-none _ h in
        let (pem, m, h₁) = >>=-eq-ok (w.marshal_public_key_to_pem key) _ g in
        let (b64sig, b, h₂) = >>=-eq-ok sig.base64_signature _ h₁ in
        let (payload, p, h₃) = >>=-eq-ok sig.payload _ h₂ in
        record {
          key = key;
          key_read = k;
          pem = pem;
          encoded = m;
          b64sig = b64sig;
          signature_read = b;
          payload = payload;
          payload_read = p;
          entry = entry;
          found = h₃;
        },
    λ o.
        let same : o.key ≡ key = ground (arith, o.key_read) in
        simp (rw same at o.encoded, o.signature_read, o.payload_read, o.found),
  )

  -- With a key, an entry under it; without, an entry under the signature's certificate.
  abbrev pub OnServer : Option w.Verifier → w.RekorClient → Signature w → Type 0
  OnServer (some v) client sig = KeyEntry client sig v
  OnServer none client sig =
      (cert : w.Certificate) × (sig.cert ≡ ok (some cert)) × OnlineEntry client sig cert

  tlog_validate-none :
      (client : w.RekorClient) (sig : Signature w) (co : CheckOpts w)
      → co.sig_verifier ≡ none
      → tlog_validate w client sig co ≡ tlog_validate_certificate w client sig
  unfolding tlog_validate
  tlog_validate-none client sig co e = ground arith

  pub tlog_validate_iff :
      (client : w.RekorClient) (sig : Signature w) (co : CheckOpts w) (o : Option w.Verifier)
      → co.sig_verifier ≡ o
      → (tlog_validate w client sig co ≡ none) ↔ OnServer o client sig
  unfolding tlog_validate
  tlog_validate_iff client sig co none e =
      let same = tlog_validate-none client sig co e in
      (
        λ h. elim (Result-cases sig.cert) [
          | inr (x, c) ↦ absurd (tlog_validate_certificate-err client sig x c (sym same ∙ h))
          | inl (none, c) ↦ absurd (tlog_validate_certificate-none client sig c (sym same ∙ h))
          | inl (some cert, c) ↦
              (cert, c, (tlog_validate_certificate_iff client sig cert c).0 (sym same ∙ h))
        ],
        λ (cert, c, o). same ∙ (tlog_validate_certificate_iff client sig cert c).1 o,
      )
  tlog_validate_iff client sig co (some v) e = elim (Result-cases (w.verifier_public_key v)) [
    | inr (x, k) ↦ (λ h. absurd (ground arith), λ o. absurd (ground (arith, o.key_read)))
    | inl (key, k) ↦
        let (fwd, bwd) = tlog_validate_public_key_iff client sig v key k in
        (λ h. fwd (ground arith), λ o. let q = bwd o in ground arith)
  ]
