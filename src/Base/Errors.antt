-- ===== src/Base/Errors.antt =====
-- Go errors as values. A function that returns `(T, error)`, with the zero value of T beside each
-- error, returns a `Result T`; a function that returns only an `error` returns an `Option Error`.
use Prim.Native.String.{String, ◌++◌}
use mathlib.Core.Path.{◌≡◌, refl}
use mathlib.Core.Logic.{◌⊎◌, inl, inr}
use mathlib.Core.Option.{Option, none, some}
use native.Mathlib.Omega.{arith}

-- `errors.New`, `fmt.Errorf` without an operand `%w`; and `errors.Wrap` of an error.
pub data Error : Type 0 where
  message : String → Error
  wrapped : String → Error → Error

-- `err.Error()`
pub error_text : Error → String
error_text (message s) = s
error_text (wrapped s e) = s ++ (": " ++ error_text e)

-- `errors.Wrap(err, s)`: nil if err is nil.
abbrev pub wrap : String → Option Error → Option Error
wrap s none = none
wrap s (some e) = some (wrapped s e)

pub data Result {ℓ} (T : Type ℓ) : Type ℓ where
  err : Error → Result T
  ok : T → Result T

infixl 5 ◌>>=◌ ◌>>◌
abbrev pub ◌>>=◌ {ℓ κ} : {T : Type ℓ} {U : Type κ} → Result T → (T → Result U) → Result U
err x >>= next = err x
ok t >>= next = next t

-- `if err := m; err != nil { return …, err }`
abbrev pub ◌>>◌ {κ} : {B : Type κ} → Option Error → Result B → Result B
none >> k = k
some e >> k = err e

-- The error of a call whose value is dropped: `_, err = f(…); return err`.
abbrev pub error_of {ℓ} : {A : Type ℓ} → Result A → Option Error
error_of (ok a) = none
error_of (err e) = some e

-- `x, err := f(…); if err != nil { return errors.Wrap(err, s) }`
abbrev pub wrap_result {ℓ} : {A : Type ℓ} → String → Result A → Result A
wrap_result s (ok a) = ok a
wrap_result s (err e) = err (wrapped s e)

pub Result-cases {ℓ} :
    {A : Type ℓ} (r : Result A) → ((a : A) × (r ≡ ok a)) ⊎ ((e : Error) × (r ≡ err e))
Result-cases (ok a) = inl (a, refl)
Result-cases (err e) = inr (e, refl)

pub >>=-eq-ok {ℓ κ} :
    {T : Type ℓ} {U : Type κ} (r : Result T) (next : T → Result U) {u : U}
    → (r >>= next) ≡ ok u
    → (t : T) × (r ≡ ok t) × (next t ≡ ok u)
>>=-eq-ok (err x) next p = cc
>>=-eq-ok (ok t) next p = (t, refl, p)

pub >>-eq-ok {κ} :
    {B : Type κ} (m : Option Error) (k : Result B) {b : B}
    → (m >> k) ≡ ok b
    → (m ≡ none) × (k ≡ ok b)
>>-eq-ok none k h = (refl, h)
>>-eq-ok (some e) k h = cc

pub wrap_result-eq-ok {ℓ} :
    {A : Type ℓ} (s : String) (r : Result A) {a : A} → wrap_result s r ≡ ok a → r ≡ ok a
wrap_result-eq-ok s (ok a) h = h
wrap_result-eq-ok s (err e) h = cc

pub wrap-eq-none : (s : String) (e : Option Error) → wrap s e ≡ none → e ≡ none
wrap-eq-none s none h = refl
wrap-eq-none s (some e) h = cc

pub error_of-eq-none {ℓ} : {A : Type ℓ} (r : Result A) → error_of r ≡ none → (a : A) × (r ≡ ok a)
error_of-eq-none (ok a) h = (a, refl)
error_of-eq-none (err e) h = cc

pub ok-pair {ℓ} :
    {A B : Type ℓ} {a c : A} {b d : B}
    → ◌≡◌ {A = Result (A × B)} (ok (a, b)) (ok (c, d))
    → (a ≡ c) × (b ≡ d)
ok-pair h = ground arith
