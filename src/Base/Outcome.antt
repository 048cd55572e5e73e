-- ===== src/Base/Outcome.antt =====
-- The outcome of a fallible call.
use mathlib.Core.Path.{◌≡◌, refl}
use mathlib.Core.Bool.{Bool, true, false}
use waypoint_be.Base.Tests.{if◌then◌else◌}

-- Go's `(value, error)`: a call returns a value or an error of the type `E`.
pub data Result (E A : Type 0) : Type 0 where
  ok : A → Result E A
  err : E → Result E A

abbrev pub and_then : {E A B : Type 0} → Result E A → (A → Result E B) → Result E B
and_then (ok a) f = f a
and_then (err e) f = err e

-- `if err != nil { return fmt.Errorf(..., err) }`: the error under another type.
abbrev pub map_err : {D E A : Type 0} → (D → E) → Result D A → Result E A
map_err f (ok a) = ok a
map_err f (err d) = err (f d)

-- A call that did not end in a refusal has passed the refusal's test.
pub unless-ok :
    {E A : Type 0} (b : Bool) (e : E) (x : Result E A) (y : A)
    → (if b then err e else x) ≡ ok y
    → (b ≡ false) × (x ≡ ok y)
unless-ok true e x y h = cc
unless-ok false e x y h = (refl, h)

pub ok-injective : {E A : Type 0} (a b : A) → ◌≡◌ {A = Result E A} (ok a) (ok b) → a ≡ b
ok-injective a b h = cc
