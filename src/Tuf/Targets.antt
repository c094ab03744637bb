-- ===== src/Tuf/Targets.antt =====
-- Where targets are kept and how they are read: pkg/cosign/tuf/client.go.
pub mod Sound
pub mod Stored
use cosign.Base.{String, ◌<>◌, Option, none, some, Bool, true, false, List, [], ◌∷◌, ◌++◌}
use cosign.Base.{Error, message, wrap, Result, ok, err, wrap_result, ◌>>=◌, ◌>>◌, if◌then◌else◌}
use cosign.Base.Maps.{Map, insert}
use cosign.Base.Lists.{is_empty}
use cosign.World.Models.{active, TargetFile}
use cosign.Tuf.{Lib, UsageKind, unknown_usage, fulcio, rekor, ctfe, CustomMetadata}

-- `memoryCache` and `diskCache`, the two types of `setImpl`
pub data Cache : Type 0 where
  memory_cache : Map String → Cache
  disk_cache : String → Cache

-- The two types of `targetImpl`, without their `setImpl`
pub data Reader : Type 0 where
  embedded : Reader
  file : String → Reader

abbrev same_usage : UsageKind → UsageKind → Bool
same_usage unknown_usage unknown_usage = true
same_usage fulcio fulcio = true
same_usage rekor rekor = true
same_usage ctfe ctfe = true
same_usage _ _ = false

abbrev read_or_none : Result CustomMetadata → Option CustomMetadata
read_or_none (err e) = none
read_or_none (ok scm) = some scm

-- A fallback that cannot be had is skipped.
abbrev keep_target : Result String → List TargetFile → List TargetFile
keep_target (err e) rest = rest
keep_target (ok target) rest = record { target = target; status = active } ∷ rest

module _ (l : Lib) where
  pub record Store : Type 0 where
    pub reader : Reader
    pub cache : Cache
    pub files : l.Files

  -- `Get` of `embedded` and of `file`
  get_by : Reader → Store → String → Result String
  get_by embedded s p = do
    b ← l.embedded_file (l.join (l.join "repository" "targets") p)
    ok (if l.is_windows then l.replace_line_ends b else b)
  get_by (file base) s p = l.read_file s.files (l.join base p)

  unfoldable pub get : Store → String → Result String
  unfolding get_by
  get s p = get_by s.reader s p

  write : Store → String → String → l.Files × Option Error → Store × Option Error
  write s fp b (files, some e) =
      (record s { files = files }, some (cosign.Base.wrapped "creating targets dir" e))
  write s fp b (files, none) =
      let (files', error) = l.write_file files fp b in (record s { files = files' }, error)

  -- `Set` of `memoryCache` and of `diskCache`
  set_by : Cache → Store → String → String → Store × Option Error
  set_by (memory_cache targets) s p b =
      (record s { cache = memory_cache (insert p b targets) }, none)
  set_by (disk_cache base) s p b = write s (l.join base p) b (l.mkdir_all s.files base)

  unfoldable pub set : Store → String → String → Store × Option Error
  unfolding write set_by
  set s p b = set_by s.cache s p b

  unfoldable pub get_target : l.Client → Store → String → Result String
  get_target client s name = do
    valid_meta ←
        wrap_result "error verifying local metadata; local cache may be corrupt"
          (l.target client name)
    target_bytes ← get s name
    local_meta ← l.generate_meta target_bytes
    l.meta_equal local_meta valid_meta >> ok target_bytes

  -- `json.Unmarshal(*targetMeta.Custom, &scm)`, which skips the target where there is nothing to
  -- read, or no way to.
  custom_of : Option String → Option CustomMetadata
  custom_of none = none
  custom_of (some custom) = read_or_none (l.unmarshal_custom custom)

  -- The target of a usage, if it is one.
  matched : l.Client → Store → UsageKind → String → Option CustomMetadata → Result (List TargetFile)
  matched client s usage name none = ok []
  matched client s usage name (some scm) =
      if same_usage scm.usage usage
      then (do
        target ← wrap_result "error getting target by usage" (get_target client s name)
        ok (record { target = target; status = scm.status } ∷ []))
      else ok []

  matched_targets : l.Client → Store → UsageKind → Map (Option String) → Result (List TargetFile)
  matched_targets client s usage [] = ok []
  matched_targets client s usage ((name, custom) ∷ rest) = do
    files ← matched client s usage name (custom_of custom)
    later ← matched_targets client s usage rest
    ok (files ++ later)

  fallback_targets : l.Client → Store → List String → List TargetFile
  fallback_targets client s [] = []
  fallback_targets client s (name ∷ names) =
      keep_target (get_target client s name) (fallback_targets client s names)

  -- `strings.Join(names, ", ")`
  join_names : List String → String
  join_names [] = ""
  join_names (name ∷ []) = name
  join_names (name ∷ other ∷ names) = name <> (", " <> join_names (other ∷ names))

  -- `if len(matchedTargets) == 0`
  or_none : List String → List TargetFile → Result (List TargetFile)
  or_none fallbacks [] = err (
      message
        ("no matching targets by custom metadata, fallbacks not found: " <> join_names fallbacks))
  or_none fallbacks (f ∷ fs) = ok (f ∷ fs)

  unfoldable pub get_targets_by_meta :
      l.Client → Store → UsageKind → List String → Result (List TargetFile)
  unfolding custom_of matched matched_targets fallback_targets or_none join_names
  get_targets_by_meta client s usage fallbacks = do
    targets ← wrap_result "error getting targets" (l.targets client)
    found ← matched_targets client s usage targets
    or_none fallbacks (if is_empty found then fallback_targets client s fallbacks else found)
