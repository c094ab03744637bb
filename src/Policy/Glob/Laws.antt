-- ===== src/Policy/Glob/Laws.antt =====
-- Globs against prefixes.
use Prim.Native.Char.{Char}
use package.text.Mathlib.TextEquality.{starts_with_iff}
use package.text.Mathlib.TextBridge.{IsPrefix}
use package.text.Mathlib.TextLemmas.{cons-append}
use package.text.Mathlib.TextEquality.{Char-path}
use cosign.Base.{ℕ, ◌+◌, String, ◌<>◌, true, false, nat_eq, ◌≡◌, refl, ◌↔◌, ◌⊎◌}
use cosign.Base.{inl, inr, arith, eq_iff, ap, Bool-cases}
use cosign.FieldError.{FieldErrors, IsLawful}
use cosign.Policy.Glob.{ends_with_star, trim_star, count_stars, glob_match, validate_glob}

ends_with_star-cons :
    (c d : Char) (s : String)
    → ends_with_star (String.◌∷◌ c (String.◌∷◌ d s)) ≡ ends_with_star (String.◌∷◌ d s)
unfolding ends_with_star
ends_with_star-cons c d s = refl

trim_star-cons :
    (c d : Char) (s : String)
    → trim_star (String.◌∷◌ c (String.◌∷◌ d s)) ≡ String.◌∷◌ c (trim_star (String.◌∷◌ d s))
unfolding trim_star
trim_star-cons c d s = refl

ends_with_star-append : (p : String) → ends_with_star (p <> "*") ≡ true
ends_with_star-append String.[] = unfold ends_with_star in refl
ends_with_star-append (String.◌∷◌ c String.[]) =
    rw (cons-append c String.[] "*") (unfold ends_with_star in refl)
ends_with_star-append (String.◌∷◌ c (String.◌∷◌ d s)) =
    rw (cons-append c (String.◌∷◌ d s) "*", cons-append d s "*", ends_with_star-cons)
      (rw (← cons-append d s "*") (ends_with_star-append (String.◌∷◌ d s)))

trim_star-append : (p : String) → trim_star (p <> "*") ≡ p
trim_star-append String.[] = unfold trim_star in refl
trim_star-append (String.◌∷◌ c String.[]) =
    rw (cons-append c String.[] "*") (unfold trim_star in refl)
trim_star-append (String.◌∷◌ c (String.◌∷◌ d s)) =
    rw (cons-append c (String.◌∷◌ d s) "*", cons-append d s "*", trim_star-cons)
      (ap (String.◌∷◌ c) (rw (← cons-append d s "*") (trim_star-append (String.◌∷◌ d s))))

trim_star-eq : (s : String) → ends_with_star s ≡ true → s ≡ trim_star s <> "*"
trim_star-eq String.[] h = unfold ends_with_star in cc
trim_star-eq (String.◌∷◌ c String.[]) h =
    let e : c ≡ "*" = Char-path c "*" (unfold ends_with_star in ground arith) in
    rw e (unfold trim_star in refl)
trim_star-eq (String.◌∷◌ c (String.◌∷◌ d s)) h =
    rw (trim_star-cons, cons-append)
      (ap (String.◌∷◌ c) (trim_star-eq (String.◌∷◌ d s) (rw ends_with_star-cons at h)))

-- A glob that ends in a star matches exactly the images that begin with what stands before it.
pub glob_match_prefix : (image p : String) → (glob_match image (p <> "*") ≡ true) ↔ IsPrefix p image
unfolding glob_match
glob_match_prefix image p =
    rw (ends_with_star-append p, trim_star-append p) (starts_with_iff image p)

count_stars-append : (p : String) → count_stars (p <> "*") ≡ count_stars p + 1
unfolding count_stars
count_stars-append String.[] = refl
count_stars-append (String.◌∷◌ c s) =
    rw (cons-append c s "*") (ground (arith, count_stars-append s))

ends_with_star_of_none : (s : String) → count_stars s ≡ 0 → ends_with_star s ≡ false
unfolding ends_with_star count_stars
ends_with_star_of_none String.[] h = refl
ends_with_star_of_none (String.◌∷◌ c String.[]) h = ground arith
ends_with_star_of_none (String.◌∷◌ c (String.◌∷◌ d s)) h =
    ends_with_star_of_none (String.◌∷◌ d s) (ground arith)

nat_eq-eq : (a b : ℕ) → nat_eq a b ≡ true → a ≡ b
nat_eq-eq a b h = ground arith

-- The globs that validation accepts: no star at all, or one star, at the end.
abbrev pub IsValidGlob : String → Type 0
IsValidGlob glob = (count_stars glob ≡ 0) ⊎ ((p : String) × (glob ≡ p <> "*") × (count_stars p ≡ 0))

module _ (f : FieldErrors) (lawful : IsLawful f) where
  -- Validation accepts exactly the globs with no star, or with one star, which is at the end.
  pub validate_glob_iff :
      (glob : String) → (f.is_nil (validate_glob f glob) ≡ true) ↔ IsValidGlob glob
  unfolding validate_glob
  validate_glob_iff glob = (
    λ h. elim (Bool-cases (nat_eq (count_stars glob) 0)) [
      | inl z ↦ inl (ground arith)
      | inr n ↦ elim (Bool-cases (nat_eq (count_stars glob) 1)) [
        | inr m ↦ absurd (grind (arith, lawful.is_nil-invalid_value))
        | inl one ↦ elim (Bool-cases (ends_with_star glob)) [
          | inr m ↦ absurd (grind (arith, lawful.is_nil-invalid_value))
          | inl e ↦
              let q = trim_star-eq glob e in
              inr (
                trim_star glob,
                q,
                omega (
                  arith,
                  ap count_stars q,
                  count_stars-append (trim_star glob),
                  nat_eq-eq (count_stars glob) 1 one,
                ),
              )
        ]
      ]
    ],
    λ v. elim v [
      | inl z ↦ ground (arith, lawful.is_nil-nil)
      | inr (p, e, z) ↦ rw (e, ends_with_star-append p, count_stars-append p, z) lawful.is_nil-nil
    ],
  )

-- The images that a glob of a valid policy stands for.
abbrev pub Denotes : (glob : String) → IsValidGlob glob → String → Type 0
Denotes glob (inl z) image = image ≡ glob
Denotes glob (inr (p, e, z)) image = IsPrefix p image

-- A glob that validation accepts matches the image of its own name if it has no star, and else
-- the images that begin with what stands before the star.
pub glob_match_iff :
    (glob : String) (v : IsValidGlob glob) (image : String)
    → (glob_match image glob ≡ true) ↔ Denotes glob v image
glob_match_iff glob (inl z) image =
    unfold glob_match in rw (ends_with_star_of_none glob z) (eq_iff image glob)
glob_match_iff glob (inr (p, e, z)) image = rw e (glob_match_prefix image p)
