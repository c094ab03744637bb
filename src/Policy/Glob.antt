-- ===== src/Policy/Glob.antt =====
-- Globs: pkg/apis/config/glob.go, and ValidateGlob of v1alpha1's clusterimagepolicy_validation.go.
pub mod Laws
use Prim.Native.Char.{Char, code}
use cosign.Base.{ℕ, suc, String, ◌<>◌, Bool, true, false, List, [], ◌∷◌, ◌==◌, nat_eq}
use cosign.Base.{if◌then◌else◌}
use cosign.FieldError.{FieldErrors}
use package.text.Mathlib.Text.{starts_with}

abbrev pub is_star : Char → Bool
is_star c = nat_eq (code c) b'*'

-- `strings.HasSuffix(glob, "*")`
unfoldable pub ends_with_star : String → Bool
ends_with_star String.[] = false
ends_with_star (String.◌∷◌ c String.[]) = is_star c
ends_with_star (String.◌∷◌ c (String.◌∷◌ d s)) = ends_with_star (String.◌∷◌ d s)

-- `strings.TrimSuffix(glob, "*")`
unfoldable pub trim_star : String → String
trim_star String.[] = ""
trim_star (String.◌∷◌ c String.[]) = if is_star c then "" else String.◌∷◌ c String.[]
trim_star (String.◌∷◌ c (String.◌∷◌ d s)) = String.◌∷◌ c (trim_star (String.◌∷◌ d s))

-- `strings.Count(glob, "*")`
unfoldable pub count_stars : String → ℕ
count_stars String.[] = 0
count_stars (String.◌∷◌ c s) = let n = count_stars s in if is_star c then suc n else n

unfoldable pub glob_match : String → String → Bool
glob_match image glob =
    if ends_with_star glob then starts_with image (trim_star glob) else image == glob

module _ (f : FieldErrors) where
  unfoldable pub validate_glob : String → f.FieldError
  validate_glob glob =
      if nat_eq (count_stars glob) 0
      then f.nil
      else if nat_eq (count_stars glob) 1
      then (if ends_with_star glob
          then f.nil
          else f.err_invalid_value glob ""
              ("glob match supports only * as a trailing character" ∷ []))
      else f.err_invalid_value glob ""
          ("glob match supports only a single * as a trailing character" ∷ [])
