-- ===== src/Tuf.antt =====
-- The TUF client, pkg/cosign/tuf: what it calls of go-tuf, encoding/json and the system.
pub mod Metadata
pub mod Targets
pub mod Client
use cosign.Base.{ℕ, String, Option, Bool, List, Error, Result}
use cosign.Base.Int.{ℤ}
use cosign.Base.Maps.{Map}
use cosign.World.Models.{StatusKind}

pub data UsageKind : Type 0 where
  unknown_usage fulcio rekor ctfe : UsageKind

-- `sigstoreCustomMetadata`
pub record CustomMetadata : Type 0 where
  pub usage : UsageKind
  pub status : StatusKind

pub record MetadataStatus : Type 0 where
  pub version : ℤ
  pub size : ℕ
  pub expiration : String
  pub error : String

-- What `os.Stat` says of a path.
pub data Stat : Type 0 where
  present : Stat
  not_exist : Stat
  unreadable : Error → Stat

pub record Lib : Type 1 where
  -- `util.GenerateTargetFileMeta` and `util.TargetFileMetaEqual`
  pub FileMeta : Type 0
  pub generate_meta : String → Result FileMeta
  pub meta_equal : FileMeta → FileMeta → Option Error
  -- the local stores of go-tuf
  pub LocalStore : Type 0
  pub memory_local_store : LocalStore
  pub file_local_store : String → Result LocalStore
  pub get_local_meta : LocalStore → Result (Map String)
  pub set_local_meta : LocalStore → String → String → Result LocalStore
  -- the remote stores: by HTTP, or of a bucket
  pub Remote : Type 0
  pub is_request_uri : String → Bool
  pub http_remote_store : String → Result Remote
  pub gcs_remote_store : String → Result Remote
  pub get_remote_meta : Remote → String → Result String
  -- the client of go-tuf, with its stores
  pub Client : Type 0
  pub new_client : LocalStore → Remote → Client
  pub local_of : Client → LocalStore
  pub init_local : Client → String → Result Client
  pub target : Client → String → Result FileMeta
  pub targets : Client → Result (Map (Option String))
  -- the names of the target files beside the error
  pub update : Client → Client × List String × Option Error
  pub is_latest_snapshot : Error → Bool
  pub download : Client → String → Result String
  -- encoding/json and time
  pub unmarshal_signed : String → Result String
  pub unmarshal_expires : String → Result ℤ
  pub unmarshal_version : String → Result ℤ
  pub unmarshal_custom : String → Result CustomMetadata
  pub marshal_status : String → Map MetadataStatus → Result String
  pub marshal_remote : String → Result String
  pub unmarshal_remote : String → Result String
  pub format_time : ℤ → String
  pub now : ℤ
  pub byte_length : String → ℕ
  -- the files that are embedded in the program
  pub embedded_file : String → Result String
  -- the system: files, paths and the environment
  pub Files : Type 0
  pub read_file : Files → String → Result String
  pub write_file : Files → String → String → Files × Option Error
  pub mkdir_all : Files → String → Files × Option Error
  pub stat : Files → String → Stat
  pub join : String → String → String
  pub is_windows : Bool
  pub replace_line_ends : String → String
  pub getenv : String → String
  pub user_home_dir : Result String
  pub parse_bool : String → Result Bool
