-- ===== src/Prelude/Text.antt =====
-- Go strings as lists of bytes, with the comparisons and the functions of package strings that
-- the gateway uses.
use Prim.Native.Nat.{ℕ, zero, suc}
use Prim.Native.Char.{code}
use Prim.Native.String.{String}
use mathlib.Core.Path.{◌≡◌, refl}
use mathlib.Core.Logic.{◌↔◌, ◌≢◌}
use mathlib.Core.Bool.{Bool, true, false, ◌&&◌, ◌||◌}
use mathlib.Core.List.{List, [], ◌∷◌, ◌++◌}
use native.Mathlib.Omega.{arith}
use keel_mqtt_gateway.Prelude.Tests.{◌==◌, ltb, if◌then◌else◌}

abbrev pub Str : Type 0
Str = List ℕ

-- The bytes of an ASCII literal.
abbrev pub codes : String → Str
codes String.[] = []
codes (String.◌∷◌ c s) = code c ∷ codes s

unfoldable pub str_eq : Str → Str → Bool
str_eq [] [] = true
str_eq [] (y ∷ ys) = false
str_eq (x ∷ xs) [] = false
str_eq (x ∷ xs) (y ∷ ys) = x == y && str_eq xs ys

str_eq→eq : (s t : Str) → str_eq s t ≡ true → s ≡ t
unfolding str_eq
str_eq→eq [] [] h = refl
str_eq→eq [] (y ∷ ys) h = ground arith
str_eq→eq (x ∷ xs) [] h = ground arith
str_eq→eq (x ∷ xs) (y ∷ ys) h = ground (arith, str_eq→eq xs ys)

pub str_eq_refl : (s : Str) → str_eq s s ≡ true
unfolding str_eq
str_eq_refl [] = refl
str_eq_refl (x ∷ xs) = ground (arith, str_eq_refl xs)

pub str_eq_iff : (s t : Str) → (str_eq s t ≡ true) ↔ (s ≡ t)
str_eq_iff s t = (str_eq→eq s t, λ e. ground (arith, str_eq_refl s))

pub str_eq_comm : (s t : Str) → str_eq s t ≡ str_eq t s
unfolding str_eq
str_eq_comm [] [] = refl
str_eq_comm [] (y ∷ ys) = refl
str_eq_comm (x ∷ xs) [] = refl
str_eq_comm (x ∷ xs) (y ∷ ys) = ground (arith, str_eq_comm xs ys)

-- The order of Go strings, byte by byte.
unfoldable pub str_lt : Str → Str → Bool
str_lt [] [] = false
str_lt [] (y ∷ ys) = true
str_lt (x ∷ xs) [] = false
str_lt (x ∷ xs) (y ∷ ys) = ltb x y || (x == y && str_lt xs ys)

-- strings.HasPrefix
unfoldable pub has_prefix : Str → Str → Bool
has_prefix s [] = true
has_prefix [] (p ∷ ps) = false
has_prefix (x ∷ xs) (p ∷ ps) = x == p && has_prefix xs ps

abbrev cons_head : ℕ → List Str → List Str
cons_head x [] = (x ∷ []) ∷ []
cons_head x (p ∷ ps) = (x ∷ p) ∷ ps

abbrev split_step : ℕ → ℕ → List Str → List Str
split_step c x parts = if x == c then [] ∷ parts else cons_head x parts

-- strings.Split by a separator of one byte
unfoldable pub split : ℕ → Str → List Str
split c [] = [] ∷ []
split c (x ∷ xs) = split_step c x (split c xs)

-- strings.SplitN by a separator of one byte, after at most so many cuts
unfoldable pub split_n : ℕ → ℕ → Str → List Str
split_n c zero s = s ∷ []
split_n c (suc n) [] = [] ∷ []
split_n c (suc n) (x ∷ xs) =
    let cut = split_n c n xs in
    let uncut = split_n c (suc n) xs in if x == c then [] ∷ cut else cons_head x uncut

-- strings.Join with a separator of one byte
unfoldable pub join : ℕ → List Str → Str
join c [] = []
join c (p ∷ []) = p
join c (p ∷ q ∷ ps) = p ++ (c ∷ join c (q ∷ ps))

-- strings.ReplaceAll of a text of two bytes
unfoldable pub replace_pair : ℕ → ℕ → Str → Str → Str
replace_pair a b new [] = []
replace_pair a b new (x ∷ []) = x ∷ []
replace_pair a b new (x ∷ y ∷ s) =
    let after = replace_pair a b new s in
    let onward = replace_pair a b new (y ∷ s) in
    if x == a && y == b then new ++ after else x ∷ onward

join_cons-cons_head :
    (c x : ℕ) (parts : List Str) → parts ≢ [] → join c (cons_head x parts) ≡ x ∷ join c parts
unfolding join
join_cons-cons_head c x [] h = absurd (h refl)
join_cons-cons_head c x (p ∷ []) h = refl
join_cons-cons_head c x (p ∷ q ∷ ps) h = refl

pub split-ne-nil : (c : ℕ) (s : Str) → split c s ≢ []
unfolding split
split-ne-nil c [] e = cc
split-ne-nil c (x ∷ xs) e = ground (arith, split-ne-nil c xs)

join-nil_cons : (c : ℕ) (parts : List Str) → parts ≢ [] → join c ([] ∷ parts) ≡ c ∷ join c parts
unfolding join
join-nil_cons c [] h = absurd (h refl)
join-nil_cons c (p ∷ ps) h = refl

-- Splitting loses nothing.
pub join-split : (c : ℕ) (s : Str) → join c (split c s) ≡ s
unfolding split
join-split c [] = unfold join in refl
join-split c (x ∷ xs) = ground (
  arith,
  join-split c xs,
  split-ne-nil c xs,
  join_cons-cons_head c x (split c xs),
  join-nil_cons c (split c xs),
)

pub str_lt_irrefl : (s : Str) → str_lt s s ≡ false
unfolding str_lt
str_lt_irrefl [] = refl
str_lt_irrefl (x ∷ xs) = ground (arith, str_lt_irrefl xs)

pub str_lt_asymm : (s t : Str) → str_lt s t ≡ true → str_lt t s ≡ false
unfolding str_lt
str_lt_asymm [] [] h = refl
str_lt_asymm [] (y ∷ ys) h = refl
str_lt_asymm (x ∷ xs) [] h = cc
str_lt_asymm (x ∷ xs) (y ∷ ys) h = ground (arith, str_lt_asymm xs ys)

-- "Not below" is transitive.
pub str_lt_trans_not : (r s t : Str) → str_lt r s ≡ false → str_lt s t ≡ false → str_lt r t ≡ false
unfolding str_lt
str_lt_trans_not [] [] t h k = k
str_lt_trans_not [] (y ∷ ys) t h k = cc
str_lt_trans_not (x ∷ xs) [] [] h k = refl
str_lt_trans_not (x ∷ xs) [] (z ∷ zs) h k = cc
str_lt_trans_not (x ∷ xs) (y ∷ ys) [] h k = refl
str_lt_trans_not (x ∷ xs) (y ∷ ys) (z ∷ zs) h k = ground (arith, str_lt_trans_not xs ys zs)

-- Texts of which neither is below the other are the same.
pub str_lt_antisym : (s t : Str) → str_lt s t ≡ false → str_lt t s ≡ false → s ≡ t
unfolding str_lt
str_lt_antisym [] [] h k = refl
str_lt_antisym [] (y ∷ ys) h k = cc
str_lt_antisym (x ∷ xs) [] h k = cc
str_lt_antisym (x ∷ xs) (y ∷ ys) h k = ground (arith, str_lt_antisym xs ys)
