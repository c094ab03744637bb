-- ===== src/Tests/Reconciler.antt =====
-- The results on the reconciler, at concrete inputs.
use cosign.Base.{String, Option, none, some, true, false, [], ◌∷◌, ◌==◌, eq_iff}
use cosign.Base.{◌≡◌, refl, sym, inl, inr, arith, Bool, Bool-cases}
use cosign.Base.{message, Result, ok, err, if◌then◌else◌}
use cosign.Base.Maps.{Map, lookup, IsMap}
use cosign.Policy.{ClusterImagePolicySpec, ClusterImagePolicy, Authority}
use cosign.Policy.Matching.{ImagePolicyConfig, new_image_policies_config_from_map}
use cosign.Reconciler.{
  Kube, NamedPolicy, State, found, inline_public_keys, reconcile_kind, finalize_kind,
}
use cosign.Reconciler.Inline.{AllInlined, inline_public_keys-AllInlined}
use cosign.Reconciler.Refines.{Alike, IsKube, Policies, update, Reads, Holds}
use cosign.Reconciler.Refines.Controller.{Reconciled, Finalized, controller_refines}
use cosign.Base.{◌⊎◌, Error, List}
use cosign.Policy.{ImagePattern, WebhookAuthority}
use cosign.Policy.Entries.{EntryCodec, read_policy}
use cosign.Policy.Entries.Laws.{AsJson, AuthoritiesAsJson}
use cosign.Reconciler.Webhook.{ReadFor, Decodes, new_image_policies_config_from_map-Holds}
use cosign.Tests.Toy.{toy}

-- A patch is the new data, and only that of one policy, or of none, can be sent.
marshal : Map String → Result String
marshal [] = ok ""
marshal ((name, v) ∷ []) =
    if name == "policy"
    then (if v == "" then err (message "no text") else ok v)
    else err (message "unknown policy")
marshal (x ∷ y ∷ rest) = err (message "too many policies")

patched : String → Option (Map String) → Result (Map String)
patched bytes none = err (message "not found")
patched bytes (some m) = ok (if bytes == "" then [] else ("policy", bytes) ∷ [])

created : Map String → Option (Map String) → Result (Map String)
created m none = ok m
created m (some old) = err (message "already exists")

-- Every policy has the same text.
abbrev kube : Kube toy
kube = record {
  track_reference = λ name. none;
  secrets = λ name. ok (("cosign.pub", "secret key") ∷ []);
  is_valid_key = λ key. true;
  Signer = String;
  get_kms = λ id. ok id;
  public_key_pem = λ signer. ok "kms key";
  marshal_policy = λ p. ok "text";
  Patch = Map String;
  create_patch = λ before after. ok after;
  is_empty_patch = λ p. false;
  marshal_patch = marshal;
  create = created;
  patch = patched;
}

patched-marshal :
    (a b n : Map String) (bytes : String)
    → marshal b ≡ ok bytes
    → patched bytes (some a) ≡ ok n
    → Alike n b × IsMap n
unfolding marshal patched
patched-marshal a [] n bytes p q =
    let e : "" ≡ bytes = ground arith in
    let q' : ok [] ≡ ok n = rw (sym e) at q in
    let f : [] ≡ n = ground arith in rw (sym f) (λ key. refl, tt)
patched-marshal a ((name, v) ∷ []) n bytes p q = elim (Bool-cases (name == "policy")) [
  | inr x ↦ absurd (ground arith)
  | inl x ↦ elim (Bool-cases (v == "")) [
    | inl y ↦ absurd (ground arith)
    | inr y ↦
        let e : v ≡ bytes = ground arith in
        let same : name ≡ "policy" = (eq_iff name "policy").0 x in
        let f : ("policy", v) ∷ [] ≡ n = ground arith in
        rw (sym f, same) (λ key. refl, (unfold lookup in refl, tt))
  ]
]
patched-marshal a (x ∷ y ∷ rest) n bytes p q = absurd (ground arith)

created-same : (m n : Map String) → created m none ≡ ok n → n ≡ m
unfolding created
created-same m n h = ground arith

-- The patch is the new data.
sent :
    (b p : Map String) (bytes : String) → ok b ≡ ok p → marshal p ≡ ok bytes → marshal b ≡ ok bytes
sent b p bytes e m = let q : b ≡ p = ground arith in rw q m

kube-IsKube : IsKube toy kube
kube-IsKube = record {
  create_lem = created-same;
  empty_lem = λ a b p e n. absurd (ground arith);
  patch_lem = λ a b n p bytes e m q. patched-marshal a b n bytes (sent b p bytes e m) q;
}

-- A policy with a key in a secret, and then in a KMS.
abbrev authority : String → Authority
authority kms = record {
  key = some (record {
    secret_ref = some (record { name = "keys"; namespace = "cosign" });
    key_data = "";
    kms = kms;
  });
  keyless = none;
  sources = [];
  ctlog = none;
}

abbrev spec : ClusterImagePolicySpec
spec = record {
  images = record { glob = "registry/*"; regex = "" } ∷ [];
  authorities = authority "" ∷ authority "gcpkms://key" ∷ [];
}

abbrev inlined : ClusterImagePolicySpec
inlined = record spec {
  authorities =
      record (authority "") {
        key = some (record { secret_ref = none; key_data = "secret key"; kms = "" });
      }
      ∷ record (authority "") {
        key = some (record { secret_ref = none; key_data = "kms key"; kms = "" });
      }
      ∷ [];
}

inline_public_keys-AllInlined_example :
    (inlined.images ≡ spec.images) × AllInlined toy kube spec.authorities inlined.authorities
unfolding cosign.Reconciler.contains_text cosign.Reconciler.get_kms_public_key
    cosign.Reconciler.inline_and_track_secret cosign.Reconciler.inline_authority
    cosign.Reconciler.inline_authorities cosign.Reconciler.inline_public_keys
    cosign.Reconciler.new_config_map cosign.Reconciler.create_patch
    cosign.Reconciler.create_remove_patch cosign.Reconciler.apply_patch
    cosign.Reconciler.store_policy cosign.Reconciler.remove_policy
    cosign.Reconciler.handle_cip_error cosign.Reconciler.reconcile_kind
    cosign.Reconciler.finalize_kind
inline_public_keys-AllInlined_example = inline_public_keys-AllInlined toy kube spec inlined refl

-- The policy that is stored.
abbrev stored : ClusterImagePolicy toy
stored = record { images = []; authorities = [] }

abbrev policies : Policies toy kube
policies = update toy kube "policy" (some stored) (λ key. none)

abbrev old : Map String
old = ("policy", "text") ∷ []

abbrev state : State
state = record { listed = found old; stored = some old }

old-Reads :
    (key : String) (b : Bool)
    → Reads toy kube (if b then some "text" else none) (if b then some stored else none)
old-Reads key true = (stored, refl, refl)
old-Reads key false = refl

old-Holds : Holds toy kube old policies
unfolding lookup
old-Holds = ((refl, tt), λ key. old-Reads key ("policy" == key))

abbrev policy : NamedPolicy
policy = record { name = "policy"; spec = spec }

controller_refines_example :
    Reconciled toy kube kube-IsKube policy policies state (reconcile_kind toy kube policy state)
    × Finalized toy kube kube-IsKube "policy" policies state (finalize_kind toy kube "policy" state)
controller_refines_example =
    controller_refines toy kube kube-IsKube policy "policy" state policies refl old-Holds

-- Libraries that read the one text as the one policy.
abbrev codec : EntryCodec toy
codec = record {
  yaml_to_json = λ text. ok text;
  unmarshal_policy = λ json. if json == "text" then ok stored else err (message "unreadable");
  new_repository = λ oci. ok (some oci);
}

-- A policy without patterns and authorities is the only one with a text.
abbrev text_of : List ImagePattern → List (WebhookAuthority toy) → Result String
text_of [] [] = ok "text"
text_of [] (a ∷ xs) = err (message "no text")
text_of (i ∷ ys) xs = err (message "no text")

abbrev small_kube : Kube toy
small_kube = record kube { marshal_policy = λ p. text_of p.images p.authorities }

text_of-empty :
    (ys : List ImagePattern) (xs : List (WebhookAuthority toy)) (text : String)
    → text_of ys xs ≡ ok text
    → ([] ≡ ys) × AuthoritiesAsJson toy codec xs [] × ("text" ≡ text)
text_of-empty [] [] text e = (refl, tt, ground arith)
text_of-empty [] (a ∷ xs) text e = cc
text_of-empty (i ∷ ys) xs text e = cc

decodes : Decodes toy small_kube codec (λ p. stored)
decodes p text e =
    let (ys, xs, f) = text_of-empty p.images p.authorities text e in
    rw (sym f) (λ x. absurd (ground (arith, eq_iff "text" "")), ("text", refl, refl, (ys, xs)))

abbrev kept : Policies toy small_kube
kept = update toy small_kube "policy" (some stored) (λ key. none)

kept-Reads :
    (key : String) (b : Bool)
    → Reads toy small_kube (if b then some "text" else none) (if b then some stored else none)
kept-Reads key true = (stored, refl, refl)
kept-Reads key false = refl

kept-Holds : Holds toy small_kube old kept
unfolding lookup
kept-Holds = ((refl, tt), λ key. kept-Reads key ("policy" == key))

new_image_policies_config_from_map-Holds_example :
    ((cfg : ImagePolicyConfig toy) × (new_image_policies_config_from_map toy codec old ≡ ok cfg)
      × ((key : String)
          → ReadFor toy small_kube codec (λ p. stored) decodes (kept key) (lookup key cfg)))
    ⊎ ((name : String) × (p : ClusterImagePolicy toy) × (json : ClusterImagePolicy toy)
        × (x : Error) × (e : Error) × (kept name ≡ some p)
        × AsJson toy codec p json
        × (read_policy toy codec json ≡ err x)
        × (new_image_policies_config_from_map toy codec old ≡ err e))
new_image_policies_config_from_map-Holds_example =
    new_image_policies_config_from_map-Holds toy small_kube codec (λ p. stored) decodes old kept
      kept-Holds refl
