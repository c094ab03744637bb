-- ===== src/Tlog/Search.antt =====
-- Which entries the search of the log gives: FindTlogEntry and verifyUUID of pkg/cosign/tlog.go.
use cosign.Base.{String, none, List, [], ◌∷◌, ◌==◌}
use cosign.Base.{◌≡◌, refl, ◌↔◌, inl, inr, arith, ap, eq_iff, Result-cases, Bool-cases}
use cosign.Base.{ok, >>=-eq-ok, >>-eq-ok, wrap_result-eq-ok}
use cosign.Base.Maps.{Map}
use cosign.World.{World}
use cosign.World.Models.{LogEntry, ProposedEntry}
use cosign.Tlog.{proposed_entry, find_tlog_entry, single_entry, verify_uuid, compute_leaf_hash}

module _ (w : World) where
  -- The UUID is the hash of the entry's body as a leaf of the log.
  abbrev pub Names : String → LogEntry → Type 0
  Names uuid e =
      (bytes : String) × (w.base64_decode e.body ≡ ok bytes)
      × (w.hash_leaf bytes ≡ w.hex_decode uuid)

  verify_uuid_iff : (uuid : String) (e : LogEntry) → (verify_uuid w uuid e ≡ none) ↔ Names uuid e
  unfolding verify_uuid compute_leaf_hash
  verify_uuid_iff uuid e = (
    λ h. elim (Result-cases (w.base64_decode e.body)) [
      | inr (x, d) ↦ absurd (ground arith)
      | inl (bytes, d) ↦ elim (Bool-cases (w.hash_leaf bytes == w.hex_decode uuid)) [
        | inl y ↦ (bytes, d, (eq_iff _ _).0 y)
        | inr n ↦ absurd (ground arith)
      ]
    ],
    λ (bytes, d, n). ground (arith, eq_iff (w.hash_leaf bytes) (w.hex_decode uuid)),
  )

  -- The replies are one reply of one entry, which its UUID names.
  abbrev pub IsSingle : List (Map LogEntry) → LogEntry → Type 0
  IsSingle replies e = (uuid : String) × (replies ≡ (((uuid, e) ∷ []) ∷ [])) × Names uuid e

  single_entry-IsSingle :
      (replies : List (Map LogEntry)) (e : LogEntry)
      → single_entry w replies ≡ ok e
      → IsSingle replies e
  unfolding single_entry
  single_entry-IsSingle [] e h = cc
  single_entry-IsSingle ([] ∷ []) e h = cc
  single_entry-IsSingle (((k, f) ∷ []) ∷ []) e h =
      let (n, g) = >>-eq-ok (verify_uuid w k f) (ok f) h in
      let f_is_e : f ≡ e = ground arith in
      (k, ap (λ x. ((k, x) ∷ []) ∷ []) f_is_e, (verify_uuid_iff k e).0 (rw f_is_e at n))
  single_entry-IsSingle ((p ∷ q ∷ l) ∷ []) e h = cc
  single_entry-IsSingle ([] ∷ q ∷ l) e h = cc
  single_entry-IsSingle ((x ∷ []) ∷ q ∷ l) e h = cc
  single_entry-IsSingle ((x ∷ y ∷ p) ∷ q ∷ l) e h = cc

  IsSingle-single_entry :
      (replies : List (Map LogEntry)) (e : LogEntry)
      → IsSingle replies e
      → single_entry w replies ≡ ok e
  unfolding single_entry
  IsSingle-single_entry replies e (uuid, r, n) =
      let v = (verify_uuid_iff uuid e).1 n in rw (r, v) refl

  -- An entry is found exactly if an entry can be proposed for the signature, and the log's server
  -- replies to it with that one entry alone, under the hash of its body.
  pub find_tlog_entry_iff :
      (client : w.RekorClient) (b64_sig payload key : String) (e : LogEntry)
      → (find_tlog_entry w client b64_sig payload key ≡ ok e) ↔ (
          (proposed : List ProposedEntry) × (replies : List (Map LogEntry)) × (proposed_entry w
              b64_sig payload key
            ≡ ok proposed)
          × (w.search_log_query client proposed ≡ ok replies)
          × IsSingle replies e)
  unfolding find_tlog_entry
  find_tlog_entry_iff client b64_sig payload key e = (
    λ h.
        let (proposed, p, h₁) = >>=-eq-ok (proposed_entry w b64_sig payload key) _ h in
        let (replies, r, h₂) = >>=-eq-ok _ (single_entry w) h₁ in
        (
          proposed,
          replies,
          p,
          wrap_result-eq-ok "searching log query" _ r,
          single_entry-IsSingle replies e h₂,
        ),
    λ (proposed, replies, p, r, s). let x = IsSingle-single_entry replies e s in rw (p, r, x) refl,
  )
