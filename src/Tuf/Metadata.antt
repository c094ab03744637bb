-- ===== src/Tuf/Metadata.antt =====
-- Expiry and version of metadata, and the status that is shown: pkg/cosign/tuf/client.go.
use cosign.Base.{String, Bool, true, false, not, List, [], ◌∷◌, Result, ok, err, error_text, ◌>>=◌}
use cosign.Base.Int.{ℤ, ltb_ℤ}
use cosign.Base.Maps.{Map}
use cosign.Tuf.{Lib, MetadataStatus}

module _ (l : Lib) where
  unfoldable pub get_expiration : String → Result ℤ
  get_expiration metadata = do s ← l.unmarshal_signed metadata; l.unmarshal_expires s

  get_version : String → Result ℤ
  get_version metadata = do s ← l.unmarshal_signed metadata; l.unmarshal_version s

  -- `time.Until(*expiration) <= 0`, and true where there is no expiration
  unfoldable pub is_past : Result ℤ → Bool
  is_past (err e) = true
  is_past (ok expiration) = not (ltb_ℤ l.now expiration)

  unfoldable pub is_expired_timestamp : String → Bool
  is_expired_timestamp metadata = is_past (get_expiration metadata)

  unfoldable pub get_metadata_status : String → Result MetadataStatus
  unfolding get_version
  get_metadata_status b = do
    expires ← get_expiration b
    version ← get_version b
    ok (record {
      version = version;
      size = l.byte_length b;
      expiration = l.format_time expires;
      error = "";
    })

  -- `status.Metadata[role]` of getRootStatus
  unfoldable pub shown_status : String → MetadataStatus
  shown_status md = elim (get_metadata_status md) [
    | err e ↦ record {
      version = cosign.Base.Int.pos 0;
      size = 0;
      expiration = "";
      error = error_text e;
    }
    | ok s ↦ s
  ]

  unfoldable pub metadata_statuses : Map String → Map MetadataStatus
  metadata_statuses [] = []
  metadata_statuses ((role, md) ∷ rest) = (role, shown_status md) ∷ metadata_statuses rest

  -- What the remote has of a role; a failed download is skipped.
  unfoldable pub remote_metadata : l.Remote → String → Result MetadataStatus
  remote_metadata remote md = do b ← l.get_remote_meta remote md; get_metadata_status b

  unfoldable pub remote_statuses : l.Remote → List String → Map MetadataStatus
  remote_statuses remote [] = []
  remote_statuses remote (md ∷ mds) =
      let rest = remote_statuses remote mds in
      elim (remote_metadata remote md) [ err e ↦ rest | ok s ↦ (md, s) ∷ rest ]
