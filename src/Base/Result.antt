-- ===== src/Base/Result.antt =====
-- Results of handlers: a value, or one of the errors of utils/errors.ts with its message.
use mathlib.Core.Bool.{Bool, true, false}
use Prim.Native.Nat.{ℕ}
use mathlib.Core.Path.{◌≡◌, refl}
use mathlib.Core.Logic.{◌⊎◌, inl, inr}
use Prim.Native.String.{String}

pub data AppError : Type 0 where
  validation not_found forbidden conflict internal : String → AppError

-- The HTTP status of an error.
abbrev pub status_code : AppError → ℕ
status_code (validation m) = 400
status_code (not_found m) = 404
status_code (forbidden m) = 403
status_code (conflict m) = 409
status_code (internal m) = 500

pub data Result (A : Type 0) : Type 0 where
  ok : A → Result A
  err : AppError → Result A

infixl 5 ◌>>=◌ ◌>>◌
abbrev pub ◌>>=◌ : {A B : Type 0} → Result A → (A → Result B) → Result B
ok a >>= f = f a
err e >>= f = err e

abbrev pub ◌>>◌ : {A B : Type 0} → Result A → Result B → Result B
m >> k = m >>= λ _. k

-- `if (c) throw e;`
abbrev pub throw_if : Bool → AppError → Result (Unit {0})
throw_if true e = err e
throw_if false e = ok tt

-- `if (!c) throw e;`
abbrev pub require : Bool → AppError → Result (Unit {0})
require true e = ok tt
require false e = err e

pub Result-cases :
    {A : Type 0} (r : Result A) → ((a : A) × (r ≡ ok a)) ⊎ ((e : AppError) × (r ≡ err e))
Result-cases (ok a) = inl (a, refl)
Result-cases (err e) = inr (e, refl)

-- Two checks pass when each does.
pub both_ok : (a b : Result (Unit {0})) → (a >> b) ≡ ok tt → (a ≡ ok tt) × (b ≡ ok tt)
both_ok (ok u) b h = (refl, h)
both_ok (err e) b h = cc
