-- ===== src/FieldError.antt =====
-- `*apis.FieldError` of knative.dev/pkg/apis, which validation returns: its operations, and what
-- the program relies on, that an error is nil exactly if every part of it is.
use mathlib.Core.Bool.{and_assoc}
use cosign.Base.{ℕ, suc, String, Bool, true, false, not, ◌&&◌, ◌||◌, List, [], ◌∷◌, ◌≡◌, ◌∙◌}
use cosign.Base.{arith, if◌then◌else◌}
use cosign.Base.Lists.{all}

pub record FieldErrors : Type 1 where
  pub FieldError : Type 0
  pub nil : FieldError
  pub is_nil : FieldError → Bool
  pub also : FieldError → FieldError → FieldError
  pub via_field : FieldError → String → FieldError
  pub via_field_index : FieldError → String → ℕ → FieldError
  pub err_missing_field : String → FieldError
  pub err_missing_one_of : List String → FieldError
  pub err_multiple_one_of : List String → FieldError
  -- value, field, details
  pub err_invalid_value : String → String → List String → FieldError
  -- message, field
  pub err_generic : String → String → FieldError
  -- `e.Details = details`
  pub with_details : FieldError → String → FieldError

pub record IsLawful (f : FieldErrors) : Type 0 where
  pub is_nil-nil : f.is_nil f.nil ≡ true
  pub is_nil-also : (a b : f.FieldError) → f.is_nil (f.also a b) ≡ (f.is_nil a && f.is_nil b)
  pub is_nil-via_field : (e : f.FieldError) (s : String) → f.is_nil (f.via_field e s) ≡ f.is_nil e
  pub is_nil-via_field_index :
      (e : f.FieldError) (s : String) (i : ℕ) → f.is_nil (f.via_field_index e s i) ≡ f.is_nil e
  pub is_nil-missing_field : (s : String) → f.is_nil (f.err_missing_field s) ≡ false
  pub is_nil-missing_one_of : (s : List String) → f.is_nil (f.err_missing_one_of s) ≡ false
  pub is_nil-multiple_one_of : (s : List String) → f.is_nil (f.err_multiple_one_of s) ≡ false
  pub is_nil-invalid_value :
      (v s : String) (d : List String) → f.is_nil (f.err_invalid_value v s d) ≡ false
  pub is_nil-generic : (m s : String) → f.is_nil (f.err_generic m s) ≡ false
  pub is_nil-with_details :
      (e : f.FieldError) (s : String) → f.is_nil (f.with_details e s) ≡ f.is_nil e

module _ (f : FieldErrors) where
  -- `if c { errs = errs.Also(e) }`
  pub also_if : Bool → f.FieldError → f.FieldError → f.FieldError
  also_if c e errs = if c then f.also errs e else errs

  -- A range over a slice, with its index: each element's error goes to the field at that index.
  pub each {ℓ} :
      {A : Type ℓ} → (A → f.FieldError) → String → ℕ → List A → f.FieldError → f.FieldError
  each validate field i [] errs = errs
  each validate field i (x ∷ xs) errs =
      each validate field (suc i) xs (f.also errs (f.via_field_index (validate x) field i))

module _ (f : FieldErrors) (lawful : IsLawful f) where
  pub also_if-nil :
      (c : Bool) (e errs : f.FieldError)
      → f.is_nil (also_if f c e errs) ≡ (f.is_nil errs && (not c || f.is_nil e))
  unfolding also_if
  also_if-nil true e errs = lawful.is_nil-also errs e
  also_if-nil false e errs = ground arith

  pub each-nil {ℓ} :
      {A : Type ℓ} (validate : A → f.FieldError) (field : String) (i : ℕ) (xs : List A)
      (errs : f.FieldError)
      → f.is_nil (each f validate field i xs errs)
        ≡ (f.is_nil errs && all (λ x. f.is_nil (validate x)) xs)
  unfolding each
  each-nil validate field i [] errs = ground arith
  each-nil validate field i (x ∷ xs) errs =
      each-nil validate field (suc i) xs _
      ∙ simp (lawful.is_nil-also, lawful.is_nil-via_field_index, and_assoc)
