-- ===== src/Tests/Policies.antt =====
-- The results on policies and globs, at concrete inputs.
use mathlib.Core.List.{Memᴰ}
use cosign.Base.{none, some, true, [], ◌∷◌, ◌≡◌, ◌↔◌, inr, refl}
use cosign.Base.{is_some}
use cosign.Base.Maps.{lookup}
use cosign.Policy.{
  ImagePattern, ClusterImagePolicySpec, WebhookAuthority, WebhookKeyRef, ClusterImagePolicy,
}
use cosign.Policy.Glob.{glob_match, validate_glob}
use cosign.Policy.Glob.Laws.{IsValidGlob, Denotes, glob_match_iff}
use cosign.Policy.Validation.{validate_policy}
use cosign.Policy.Validation.Policies.{IsValidSpec, validate_policy_iff}
use cosign.Policy.Matching.{get_matching_policies, ImagePolicyConfig}
use cosign.Policy.Matching.Laws.{MatchesImage, get_matching_policies_iff}
use cosign.Tests.Toy.{toy, errors, lawful}

-- One pattern and one authority, with a key.
abbrev spec : ClusterImagePolicySpec
spec = record {
  images = record { glob = "registry/*"; regex = "" } ∷ [];
  authorities =
      record {
        key = some (record { secret_ref = none; key_data = "key"; kms = "" });
        keyless = none;
        sources = [];
        ctlog = none;
      }
      ∷ [];
}

validate_policy_iff_example :
    (validate_policy errors (λ k. true) toy.compile spec ≡ true)
    ↔ IsValidSpec errors lawful (λ k. true) toy.compile spec
validate_policy_iff_example = validate_policy_iff errors lawful (λ k. true) toy.compile spec

registry_glob-IsValidGlob : IsValidGlob "registry/*"
unfolding cosign.Policy.Glob.ends_with_star cosign.Policy.Glob.trim_star
    cosign.Policy.Glob.count_stars cosign.Policy.Glob.glob_match cosign.Policy.Glob.validate_glob
registry_glob-IsValidGlob = inr ("registry/", refl, refl)

glob_match_iff_example :
    (glob_match "registry/app" "registry/*" ≡ true)
    ↔ Denotes "registry/*" registry_glob-IsValidGlob "registry/app"
glob_match_iff_example = glob_match_iff "registry/*" registry_glob-IsValidGlob "registry/app"

-- A policy that matches, and one with a malformed expression.
abbrev policies : ImagePolicyConfig toy
policies =
    ("good", record { images = record { glob = "registry/*"; regex = "" } ∷ []; authorities = [] })
    ∷ ("bad", record { images = record { glob = ""; regex = "(" } ∷ []; authorities = [] })
    ∷ []

get_matching_policies_iff_example :
    (is_some (lookup "good" (get_matching_policies toy (some policies) "registry/app").0) ≡ true)
    ↔ ((v : ClusterImagePolicy toy) × Memᴰ ("good", v) policies
        × ((p : ImagePattern) × Memᴰ p v.images × MatchesImage toy "registry/app" p))
get_matching_policies_iff_example = get_matching_policies_iff toy policies "registry/app" "good"
