-- ===== src/Tests/Tuf.antt =====
-- The results on the TUF client, at concrete inputs.
use mathlib.Core.List.{Memᴰ}
use cosign.Base.{String, Option, ◌<>◌, none, some, true, false, List, [], ◌∷◌, ◌==◌, eq_iff}
use cosign.Base.{◌≡◌, ◌≢◌, refl, sym, ap, ◌∙◌, inl, inr, ◌⊎◌, arith, Bool, Bool-cases}
use cosign.Base.{Error, message, Result, ok, err, if◌then◌else◌}
use cosign.Base.Int.{pos}
use cosign.Base.Maps.{Map, lookup, insert, lookup-insert}
use cosign.World.Models.{TargetFile, active}
use cosign.Tuf.{Lib, rekor, fulcio, not_exist, CustomMetadata}
use cosign.Tuf.Targets.{Store, get, memory_cache, disk_cache, embedded, file}
use cosign.Tuf.Targets.Sound.{FromMeta, FromFallbacks, get_targets_by_meta_sound}
use cosign.Tuf.Targets.Stored.{IsFileSystem}
use cosign.Tuf.Client.{Tuf, download_targets, start, initialize_tuf}
use cosign.Tuf.Client.Updates.{
  IsDownloaded, download_targets-IsDownloaded, download_targets-IsUnread,
}
use cosign.Tuf.Client.Fresh.{IsFresh, initialize_tuf_sound}

found_or : Option String → Result String
found_or none = err (message "not found")
found_or (some s) = ok s

custom_of : String → Result CustomMetadata
custom_of t =
    if t == "rekor"
    then ok (record { usage = rekor; status = active })
    else err (message "unknown usage")

-- Files are a map, a file's metadata is the file, and a client is what it trusts.
abbrev lib : Lib
lib = record {
  FileMeta = String;
  generate_meta = λ b. ok b;
  meta_equal = λ a b. if a == b then none else some (message "wrong hash");
  LocalStore = Map String;
  memory_local_store = [];
  file_local_store = λ path. ok [];
  get_local_meta = λ m. ok m;
  set_local_meta = λ m name b. ok (insert name b m);
  Remote = String;
  is_request_uri = λ mirror. true;
  http_remote_store = λ mirror. ok mirror;
  gcs_remote_store = λ mirror. ok mirror;
  get_remote_meta = λ remote name. ok "metadata";
  Client = Map String;
  new_client = λ local remote. local;
  local_of = λ c. c;
  init_local = λ c root. ok c;
  target = λ c name. found_or (lookup name c);
  targets = λ c. ok (("old.pub", none) ∷ ("rekor.pub", some "rekor") ∷ []);
  update = λ c. (("rekor.pub", "new key") ∷ [], "rekor.pub" ∷ [], none);
  is_latest_snapshot = λ e. false;
  download = λ c name. found_or (lookup name c);
  unmarshal_signed = λ s. ok s;
  unmarshal_expires = λ s. ok (pos 5);
  unmarshal_version = λ s. ok (pos 1);
  unmarshal_custom = custom_of;
  marshal_status = λ mirror statuses. ok mirror;
  marshal_remote = λ mirror. ok mirror;
  unmarshal_remote = λ b. ok b;
  format_time = λ t. "time";
  now = pos 10;
  byte_length = λ b. 8;
  embedded_file = λ path. ok "old key";
  Files = Map String;
  read_file = λ files path. found_or (lookup path files);
  write_file = λ files path b. (insert path b files, none);
  mkdir_all = λ files dir. (files, none);
  stat = λ files path. not_exist;
  join = λ dir name. dir <> ("/" <> name);
  is_windows = false;
  replace_line_ends = λ b. b;
  getenv = λ name. "";
  user_home_dir = ok "home";
  parse_bool = λ s. err (message "no bool");
}

read_inserted :
    (files after : Map String) (path bytes : String)
    → ◌≡◌ {A = Map String × Option Error} (insert path bytes files, none) (after, none)
    → found_or (lookup path after) ≡ ok bytes
unfolding found_or
read_inserted files after path bytes h =
    let e : insert path bytes files ≡ after = ap (λ (r : Map String × Option Error). r.0) h in
    rw (sym e, lookup-insert path path bytes files, (eq_iff path path).1 refl) refl

read_other_path :
    (files after : Map String) (path other bytes : String) (error : Option Error)
    → ◌≡◌ {A = Map String × Option Error} (insert path bytes files, none) (after, error)
    → path ≢ other
    → found_or (lookup other after) ≡ found_or (lookup other files)
read_other_path files after path other bytes error h n =
    let e : insert path bytes files ≡ after = ap (λ (r : Map String × Option Error). r.0) h in
    let x : (path == other) ≡ false = ground (arith, eq_iff path other, n) in
    ap found_or (ap (lookup other) (sym e) ∙ lookup-insert path other bytes files ∙ rw x refl)

lib-IsFileSystem : IsFileSystem lib
lib-IsFileSystem = record {
  read_written = read_inserted;
  read_other = read_other_path;
  read_mkdir = λ files after dir other error h.
      ap (λ (r : Map String × Option Error). found_or (lookup other r.0)) (sym h);
}

abbrev on_disk : Store lib
on_disk = record { reader = file "targets"; cache = disk_cache "targets"; files = [] }

abbrev from_program : Store lib
from_program = record { reader = embedded; cache = memory_cache []; files = [] }

abbrev client : Map String
client = ("rekor.pub", "old key") ∷ []

abbrev old_key : List TargetFile
old_key = record { target = "old key"; status = active } ∷ []

get_targets_by_meta_sound_example :
    (targets : Map (Option String)) × (ok (("old.pub", none) ∷ ("rekor.pub", some "rekor") ∷ [])
      ≡ ok targets)
    × (old_key ≢ [])
    × (FromMeta lib client from_program rekor targets old_key
        ⊎ (FromMeta lib client from_program rekor targets []
            × FromFallbacks lib client from_program ("rekor.0.pub" ∷ []) old_key))
unfolding cosign.Base.Maps.lookup cosign.Base.Maps.insert cosign.Base.Maps.remove
    cosign.Tuf.Targets.get cosign.Tuf.Targets.set cosign.Tuf.Targets.get_target
    cosign.Tuf.Targets.get_targets_by_meta found_or custom_of
get_targets_by_meta_sound_example =
    get_targets_by_meta_sound lib client from_program rekor ("rekor.0.pub" ∷ []) old_key refl

apart : (a b : String) → Memᴰ a ("rekor.pub" ∷ []) → Memᴰ b ("rekor.pub" ∷ []) → a ≡ b
apart a b (Memᴰ.head p) (Memᴰ.head q) = p ∙ sym q
apart a b (Memᴰ.tail i) j = elim i [ ]
apart a b (Memᴰ.head p) (Memᴰ.tail j) = elim j [ ]

download_targets-IsDownloaded_example :
    IsDownloaded lib client
      (record on_disk { files = ("targets/rekor.pub", "old key") ∷ [] })
      "rekor.pub"
unfolding cosign.Base.Maps.lookup cosign.Base.Maps.insert cosign.Base.Maps.remove
    cosign.Tuf.Targets.get cosign.Tuf.Targets.set cosign.Tuf.Targets.get_target
    cosign.Tuf.Targets.get_targets_by_meta cosign.Tuf.Client.root_cache_dir
    cosign.Tuf.Client.no_cache cosign.Tuf.Client.new_targets cosign.Tuf.Client.local_store
    cosign.Tuf.Client.remote_from_mirror cosign.Tuf.Client.download_targets
    cosign.Tuf.Client.update_metadata_and_download_targets cosign.Tuf.Client.is_current
    cosign.Tuf.Client.start cosign.Tuf.Client.initialize_tuf cosign.Tuf.Client.new_from_env
    cosign.Tuf.Client.initialize cosign.Tuf.Client.get_root_status found_or
download_targets-IsDownloaded_example =
    download_targets-IsDownloaded lib client lib-IsFileSystem "targets" on_disk
      (record on_disk { files = ("targets/rekor.pub", "old key") ∷ [] }) ("rekor.pub" ∷ [])
      (refl, refl) (λ a b i j e. apart a b i j) refl "rekor.pub" (Memᴰ.head refl)

download_targets-IsUnread_example :
    get lib
      (download_targets lib (("rekor.pub", "new key") ∷ []) from_program ("rekor.pub" ∷ [])).0
      "rekor.pub"
    ≡ get lib from_program "rekor.pub"
download_targets-IsUnread_example =
    download_targets-IsUnread lib (("rekor.pub", "new key") ∷ []) from_program ("rekor.pub" ∷ [])
      (inl refl) "rekor.pub"

-- The timestamp has expired.
abbrev result : Tuf lib
result = record {
  client = ("rekor.pub", "new key") ∷ [];
  remote = "mirror";
  targets = record {
    reader = embedded;
    cache = disk_cache "home/.sigstore/root/targets";
    files = ("home/.sigstore/root/targets/rekor.pub", "new key") ∷ [];
  };
  is_embedded = true;
  mirror = "mirror";
}

initialize_tuf_sound_example :
    (started : Tuf lib) × (meta : Map String) × (start lib true "mirror" none []
      ≡ ok (started, meta))
    × (result.targets.files ≡ result.targets.files)
    × IsFresh lib false started meta result
unfolding cosign.Base.Maps.lookup cosign.Base.Maps.insert cosign.Base.Maps.remove
    cosign.Tuf.Metadata.get_expiration cosign.Tuf.Metadata.is_past
    cosign.Tuf.Metadata.is_expired_timestamp cosign.Tuf.Metadata.get_metadata_status
    cosign.Tuf.Metadata.shown_status cosign.Tuf.Metadata.metadata_statuses
    cosign.Tuf.Metadata.remote_metadata cosign.Tuf.Metadata.remote_statuses cosign.Tuf.Targets.get
    cosign.Tuf.Targets.set cosign.Tuf.Targets.get_target cosign.Tuf.Targets.get_targets_by_meta
    cosign.Tuf.Client.root_cache_dir cosign.Tuf.Client.no_cache cosign.Tuf.Client.new_targets
    cosign.Tuf.Client.local_store cosign.Tuf.Client.remote_from_mirror
    cosign.Tuf.Client.download_targets cosign.Tuf.Client.update_metadata_and_download_targets
    cosign.Tuf.Client.is_current cosign.Tuf.Client.start cosign.Tuf.Client.initialize_tuf
    cosign.Tuf.Client.new_from_env cosign.Tuf.Client.initialize cosign.Tuf.Client.get_root_status
    found_or
initialize_tuf_sound_example =
    initialize_tuf_sound lib true "mirror" none false [] result.targets.files result refl
