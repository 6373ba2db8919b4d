-- ===== src/Base/Results.antt =====
-- Go's `(value, error)` pairs. The text of an error keeps its constant part; the values that
-- `fmt.Errorf` prints into it are left out.
use Prim.Native.String.{String}
use mathlib.Core.Path.{◌≡◌, refl}
use mathlib.Core.Logic.{◌⊎◌, ◌≢◌, inl, inr}
use mathlib.Core.Bool.{Bool, true, false}
use mathlib.Core.Option.{Option, none, some}

-- The kinds of error of the operating system that myrun tells apart: os.IsExist, os.IsNotExist.
pub data Errno : Type 0 where
  already_exists does_not_exist : Errno
  other_error : String → Errno

pub data Error : Type 0 where
  message : String → Error
  wrap : String → Error → Error
  os_error : Errno → Error

pub data Result {ℓ} (A : Type ℓ) : Type ℓ where
  ok : A → Result A
  err : Error → Result A

infixl 5 ◌>>=◌
abbrev pub ◌>>=◌ {ℓ κ} : {A : Type ℓ} {B : Type κ} → Result A → (A → Result B) → Result B
ok a >>= f = f a
err e >>= f = err e

-- `if err != nil { return fmt.Errorf("text: %w", err) }`
abbrev pub wrapped {ℓ} : {A : Type ℓ} → String → Result A → Result A
wrapped text (ok a) = ok a
wrapped text (err e) = err (wrap text e)

abbrev pub of_option {ℓ} : {A : Type ℓ} → Error → Option A → Result A
of_option e none = err e
of_option e (some a) = ok a

pub Result-cases {ℓ} :
    {A : Type ℓ} (r : Result A) → ((a : A) × (r ≡ ok a)) ⊎ ((e : Error) × (r ≡ err e))
Result-cases (ok a) = inl (a, refl)
Result-cases (err e) = inr (e, refl)

unfoldable pub is_exist : Error → Bool
is_exist (os_error already_exists) = true
is_exist _ = false

unfoldable pub is_not_exist : Error → Bool
is_not_exist (os_error does_not_exist) = true
is_not_exist _ = false

pub ok≢err : {A : Type 0} {a : A} {e : Error} → ok a ≢ err e
ok≢err h = cc
