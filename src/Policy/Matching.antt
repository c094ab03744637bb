-- ===== src/Policy/Matching.antt =====
-- The policies of the webhook's config map, and those that match an image:
-- pkg/apis/config/image_policies.go. The maps of the source are lists of entries, ranged over in
-- their order.
pub mod Laws
use cosign.Base.{String, ◌<>◌, Option, none, some, Bool, true, false, List, [], ◌∷◌, ◌++◌, ◌==◌}
use cosign.Base.{Error, message, wrapped, Result, ok, err, ◌>>=◌, if◌then◌else◌}
use cosign.Base.Maps.{Map, lookup, insert}
use cosign.World.{World}
use cosign.Policy.Entries.{EntryCodec, parse_entry}
use cosign.Policy.{ImagePattern, ClusterImagePolicy, WebhookAuthority}
use cosign.Policy.Glob.{glob_match}

-- `ret[k] = append(ret[k], xs...)`
unfoldable pub append_at {ℓ} : {V : Type ℓ} → String → List V → Map (List V) → Map (List V)
append_at k xs [] = (k, xs) ∷ []
append_at k xs ((j, ys) ∷ m) = if j == k then (k, ys ++ xs) ∷ m else (j, ys) ∷ append_at k xs m

module _ (w : World) where
  -- The policies by name; `none` is a nil config.
  abbrev pub ImagePolicyConfig : Type 0
  ImagePolicyConfig = Map (ClusterImagePolicy w)

  -- What a round of the inner loop does: nothing, a match, or an error of the pattern.
  pub data Verdict : Type 0 where
    no_match is_match : Verdict
    malformed : Error → Verdict

  regex_verdict : String → Result (String → Bool) → Verdict
  regex_verdict image (err e) = malformed e
  regex_verdict image (ok matches) = if matches image then is_match else no_match

  unfoldable pub judge : String → ImagePattern → Verdict
  unfolding regex_verdict
  judge image p =
      if p.glob == ""
      then (if p.regex == "" then no_match else regex_verdict image (w.compile p.regex))
      else (if glob_match image p.glob then is_match else no_match)

  -- `ret` and `lastError`
  abbrev pub Found : Type 0
  Found = Map (List (WebhookAuthority w)) × Option Error

  abbrev note : String → List (WebhookAuthority w) → Verdict → Found → Found
  note k authorities no_match found = found
  note k authorities is_match (ret, last) = (append_at k authorities ret, last)
  note k authorities (malformed e) (ret, last) = (ret, some e)

  unfoldable pub match_patterns :
      String → String → List (WebhookAuthority w) → List ImagePattern → Found → Found
  match_patterns image k authorities [] found = found
  match_patterns image k authorities (p ∷ ps) found =
      match_patterns image k authorities ps (note k authorities (judge image p) found)

  unfoldable pub match_policies : String → ImagePolicyConfig → Found → Found
  match_policies image [] found = found
  match_policies image ((k, v) ∷ policies) found =
      match_policies image policies (match_patterns image k v.authorities v.images found)

  -- The result beside the last error, which does not stop the search.
  unfoldable pub get_matching_policies : Option ImagePolicyConfig → String → Found
  get_matching_policies none image = ([], some (message "config is nil"))
  get_matching_policies (some policies) image = match_policies image policies ([], none)

  module _ (c : EntryCodec w) where
    unfoldable pub add_entries : Map String → ImagePolicyConfig → Result ImagePolicyConfig
    add_entries [] ret = ok ret
    add_entries ((k, v) ∷ entries) ret =
        let skip = add_entries entries ret in
        let parsed : Result ImagePolicyConfig = elim (parse_entry w c v) [
          | err e ↦ err (wrapped ("failed to parse the entry " <> (k <> (" : " <> v))) e)
          | ok policy ↦ add_entries entries (insert k policy ret)
        ] in
        if k == "_example"
        then skip
        else if v == ""
        then err (message ("configmap has an entry " <> (k <> " but no value")))
        else parsed

    unfoldable pub new_image_policies_config_from_map : Map String → Result ImagePolicyConfig
    new_image_policies_config_from_map entries = add_entries entries []
