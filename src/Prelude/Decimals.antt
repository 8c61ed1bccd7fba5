-- ===== src/Prelude/Decimals.antt =====
-- Numbers in decimal: strconv.FormatUint and strconv.Atoi.
use Prim.Native.Nat.{ℕ, zero, suc, ◌+◌, ◌-◌, ◌*◌, ◌/◌, ◌%◌}
use mathlib.Core.Path.{◌≡◌, refl}
use mathlib.Core.Bool.{Bool, true, false, ◌&&◌}
use mathlib.Core.Option.{Option, none, some}
use mathlib.Core.List.{[], ◌∷◌, ◌++◌}
use native.Mathlib.Omega.{arith}
use keel_mqtt_gateway.Prelude.Tests.{◌==◌, ltb, leb, if◌then◌else◌}
use keel_mqtt_gateway.Prelude.Text.{Str}

unfoldable pub decimal_within : ℕ → ℕ → Str
decimal_within zero n = []
decimal_within (suc fuel) n =
    let high = decimal_within fuel (n / 10) in (if ltb n 10 then [] else high) ++ (48 + n % 10) ∷ []

-- A number has at most as many digits as it counts, or one.
unfoldable pub decimal : ℕ → Str
unfolding decimal_within
decimal n = decimal_within (suc n) n

abbrev pub is_digit : ℕ → Bool
is_digit c = leb 48 c && ltb c 58

abbrev pub starts_with_digit : Str → Bool
starts_with_digit [] = false
starts_with_digit (c ∷ s) = is_digit c

starts_with_digit-append :
    (s : Str) (c : ℕ)
    → (starts_with_digit s ≡ false → s ≡ [])
    → is_digit c ≡ true
    → starts_with_digit (s ++ c ∷ []) ≡ true
starts_with_digit-append [] c h d = d
starts_with_digit-append (x ∷ s) c h d = ground (arith, h)

chosen :
    (b : Bool) (s : Str)
    → (starts_with_digit s ≡ false → s ≡ [])
    → starts_with_digit (if b then [] else s) ≡ false
    → (if b then [] else s) ≡ []
chosen true s h k = refl
chosen false s h k = h k

digit_char : (n : ℕ) → is_digit (48 + n % 10) ≡ true
digit_char n = ground arith

no_digit :
    (fuel n : ℕ) → starts_with_digit (decimal_within fuel n) ≡ false → decimal_within fuel n ≡ []
unfolding decimal_within
no_digit zero n h = refl
no_digit (suc fuel) n h =
    let first : starts_with_digit (decimal_within (suc fuel) n) ≡ true =
      starts_with_digit-append (if ltb n 10 then [] else decimal_within fuel (n / 10)) (48 + n % 10)
        (chosen (ltb n 10) (decimal_within fuel (n / 10)) (no_digit fuel (n / 10)))
        (digit_char n) in
    cc

pub decimal-digit : (n : ℕ) → starts_with_digit (decimal n) ≡ true
unfolding decimal decimal_within
decimal-digit n =
    starts_with_digit-append (if ltb n 10 then [] else decimal_within n (n / 10)) (48 + n % 10)
      (chosen (ltb n 10) (decimal_within n (n / 10)) (no_digit n (n / 10))) (digit_char n)

abbrev pub digit_of : ℕ → Option ℕ
digit_of c = if is_digit c then some (c - 48) else none

abbrev pub add_digit : Option ℕ → Option ℕ → Option ℕ
add_digit none d = none
add_digit (some n) none = none
add_digit (some n) (some d) = some (n * 10 + d)

unfoldable pub digits_from : Option ℕ → Str → Option ℕ
digits_from n [] = n
digits_from n (c ∷ s) = digits_from (add_digit n (digit_of c)) s

-- strconv.Atoi; `none` for an error and, since no caller tells them apart from it, for a negative
-- number.
unfoldable pub atoi : Str → Option ℕ
unfolding digits_from
atoi [] = none
atoi (c ∷ []) = digits_from (some 0) (c ∷ [])
atoi (c ∷ d ∷ s) =
    if c == 43 then digits_from (some 0) (d ∷ s) else digits_from (some 0) (c ∷ d ∷ s)
