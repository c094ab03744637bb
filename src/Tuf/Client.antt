-- ===== src/Tuf/Client.antt =====
-- The client's life: where it starts from, and how it updates. pkg/cosign/tuf/client.go.
pub mod Updates
pub mod Fresh
use cosign.Base.{
  String, ◌<>◌, Option, none, some, Bool, true, false, not, ◌&&◌, List, [], ◌∷◌, ◌==◌,
}
use cosign.Base.{Error, wrapped, Result, ok, err, wrap_result, ◌>>=◌, if◌then◌else◌}
use cosign.Base.Maps.{Map, lookup}
use cosign.Tuf.{Lib, present, not_exist, unreadable, MetadataStatus}
use cosign.Tuf.Metadata.{is_expired_timestamp, metadata_statuses, remote_statuses}
use cosign.Tuf.Targets.{Cache, memory_cache, disk_cache, Reader, embedded, file, Store, set}

abbrev metadata_files : List String
metadata_files = "root.json" ∷ "targets.json" ∷ "snapshot.json" ∷ "timestamp.json" ∷ []

module _ (l : Lib) where
  -- `TUF`: the client has the local and the remote store.
  pub record Tuf : Type 0 where
    pub client : l.Client
    pub remote : l.Remote
    pub targets : Store l
    pub is_embedded : Bool
    pub mirror : String

  unfoldable pub root_cache_dir : String
  root_cache_dir =
      if l.getenv "TUF_ROOT" == ""
      then l.join (l.join (elim l.user_home_dir [ err e ↦ "" | ok home ↦ home ]) ".sigstore") "root"
      else l.getenv "TUF_ROOT"

  cached_remote : String → String
  cached_remote cache_root = l.join cache_root "remote.json"

  cached_targets_dir : String → String
  cached_targets_dir cache_root = l.join cache_root "targets"

  unfoldable pub no_cache : Bool
  no_cache = elim (l.parse_bool (l.getenv "SIGSTORE_NO_CACHE")) [ err e ↦ false | ok b ↦ b ]

  -- newEmbeddedImpl and newFileImpl
  unfoldable pub new_targets : Bool → l.Files → Store l
  unfolding cached_targets_dir
  new_targets embed files =
      let base = cached_targets_dir root_cache_dir in
      record {
        reader = if embed then embedded else file base;
        cache = if no_cache then memory_cache [] else disk_cache base;
        files = files;
      }

  -- The loop of embeddedLocalStore.
  set_embedded : l.LocalStore → List String → Result l.LocalStore
  set_embedded local [] = ok local
  set_embedded local (name ∷ names) = do
    b ← wrap_result "reading embedded file" (l.embedded_file (l.join "repository" name))
    local' ← wrap_result "setting local meta" (l.set_local_meta local name b)
    set_embedded local' names

  unfoldable pub local_store : Bool → Result l.LocalStore
  unfolding set_embedded
  local_store embed =
      if embed
      then set_embedded l.memory_local_store metadata_files
      else wrap_result "creating cached local store"
          (l.file_local_store (l.join root_cache_dir "tuf.db"))

  unfoldable pub remote_from_mirror : String → Result l.Remote
  remote_from_mirror mirror =
      if l.is_request_uri mirror then l.http_remote_store mirror else l.gcs_remote_store mirror

  get_root : Map String → Result String
  get_root meta = elim (lookup "root.json" meta) [
    | some trusted_root ↦ ok trusted_root
    | none ↦ l.embedded_file (l.join "repository" "root.json")
  ]

  download_remote_target : String → l.Client → Result String
  download_remote_target name client = wrap_result "downloading target" (l.download client name)

  set_target : Store l → String → Result String → Store l × Option Error
  set_target s name (err e) = (s, some e)
  set_target s name (ok bytes) = set l s name bytes

  -- `return err` in a round, or else what the later rounds come to.
  unless_failed : Store l × Option Error → Store l × Option Error → Store l × Option Error
  unless_failed (s, some e) rest = (s, some e)
  unless_failed (s, none) rest = rest

  -- The loop over the target files of an update; what was set stays set after an error.
  unfoldable pub download_targets : l.Client → Store l → List String → Store l × Option Error
  unfolding download_remote_target set_target unless_failed
  download_targets client s [] = (s, none)
  download_targets client s (name ∷ names) =
      let one = set_target s name (download_remote_target name client) in
      unless_failed one (download_targets client one.0 names)

  -- `err != nil && !client.IsLatestSnapshot(err)`
  failed_update : Option Error → Option Error
  failed_update none = none
  failed_update (some e) = if l.is_latest_snapshot e then none else some e

  -- The error of a failed update, without the text of the remote's status at its end.
  update_error : Tuf → Error → Error
  update_error t e = elim (l.marshal_status t.mirror (remote_statuses l t.remote metadata_files)) [
    | err inner ↦ inner
    | ok status ↦ wrapped "error updating to TUF remote mirror" e
  ]

  -- What follows the client's update, by whether it failed.
  after_update : Tuf → List String → Option Error → Tuf × Option Error
  after_update t target_files (some e) = (t, some (update_error t e))
  after_update t target_files none =
      let (s, error) = download_targets t.client t.targets target_files in
      (record t { targets = s }, error)

  unfoldable pub update_metadata_and_download_targets : Tuf → Tuf × Option Error
  unfolding failed_update update_error after_update
  update_metadata_and_download_targets t =
      let (client, target_files, error) = l.update t.client in
      after_update (record t { client = client }) target_files (failed_update error)

  -- `if ok && !isExpiredTimestamp(trustedTimestamp) && !forceUpdate { return t, nil }`
  is_current_by : Option String → Bool → Bool
  is_current_by none force = false
  is_current_by (some timestamp) force = not (is_expired_timestamp l timestamp) && not force

  unfoldable pub is_current : Map String → Bool → Bool
  unfolding is_current_by
  is_current meta force = is_current_by (lookup "timestamp.json" meta) force

  -- The client before the check of its timestamp, and its metadata then.
  unfoldable pub start : Bool → String → Option String → l.Files → Result (Tuf × Map String)
  unfolding get_root
  start embed mirror root files = do
    local ← local_store embed
    remote ← remote_from_mirror mirror
    trusted_meta ← wrap_result "getting trusted meta" (l.get_local_meta local)
    trusted_root ← elim root [
      | some r ↦ ok r
      | none ↦ wrap_result "getting trusted root" (get_root trusted_meta)
    ]
    client ←
        wrap_result "unable to initialize client, local cache may be corrupt"
          (l.init_local (l.new_client local remote) trusted_root)
    ok (
      record {
        client = client;
        remote = remote;
        targets = new_targets embed files;
        is_embedded = embed;
        mirror = mirror;
      },
      trusted_meta,
    )

  -- The result of the update. The files are the caller's state, on every path.
  finished : Tuf × Option Error → Result Tuf × l.Files
  finished (t, some e) = (err (wrapped "updating local metadata and targets" e), t.targets.files)
  finished (t, none) = (ok t, t.targets.files)

  -- The update, where it is due.
  updated : Bool → Tuf × Map String → Result Tuf × l.Files
  updated force (t, meta) =
      if is_current meta force
      then (ok t, t.targets.files)
      else finished (update_metadata_and_download_targets t)

  proceed : Bool → l.Files → Result (Tuf × Map String) → Result Tuf × l.Files
  proceed force files (err e) = (err e, files)
  proceed force files (ok t) = updated force t

  unfoldable pub initialize_tuf :
      Bool → String → Option String → Bool → l.Files → Result Tuf × l.Files
  unfolding updated finished proceed
  initialize_tuf embed mirror root force files = proceed force files (start embed mirror root files)

  -- The mirror that Initialize has stored, or the default one.
  cached_mirror : l.Files → String
  cached_mirror files =
      elim (do b ← l.read_file files (cached_remote root_cache_dir); l.unmarshal_remote b) [
        | err e ↦ "sigstore-tuf-root"
        | ok mirror ↦ mirror
      ]

  unfoldable pub new_from_env : l.Files → Result Tuf × l.Files
  unfolding cached_mirror cached_remote
  new_from_env files = elim (l.stat files (l.join root_cache_dir "tuf.db")) [
    | not_exist ↦ initialize_tuf true (cached_mirror files) none false files
    | unreadable e ↦ (err e, files)
    | present ↦ initialize_tuf false (cached_mirror files) none false files
  ]

  store_remote : String → l.Files → l.Files × Option Error
  store_remote mirror files = elim (l.marshal_remote mirror) [
    | err e ↦ (files, some e)
    | ok b ↦
        let (files', error) = l.write_file files (cached_remote root_cache_dir) b in
        (files', cosign.Base.wrap "storing remote" error)
  ]

  unfoldable pub initialize : String → Option String → l.Files → l.Files × Option Error
  unfolding store_remote cached_remote
  initialize mirror root files =
      let (r, files') = initialize_tuf false mirror root true files in
      elim r [ err e ↦ (files', some e) | ok t ↦ store_remote mirror files' ]

  pub record RootStatus : Type 0 where
    pub local : String
    pub remote : String
    pub metadata : Map MetadataStatus
    pub targets : List String

  names_of : Map (Option String) → List String
  names_of [] = []
  names_of ((name, custom) ∷ rest) = name ∷ names_of rest

  unfoldable pub get_root_status : Tuf → Result RootStatus
  unfolding names_of
  get_root_status t = do
    targets ← l.targets t.client
    trusted_meta ← wrap_result "getting trusted meta" (l.get_local_meta (l.local_of t.client))
    ok (record {
      local = if t.is_embedded then "embedded" else root_cache_dir;
      remote = t.mirror;
      metadata = metadata_statuses l trusted_meta;
      targets = names_of targets;
    })
