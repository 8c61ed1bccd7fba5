-- ===== src/Prelude/Options.antt =====
-- Chains of fallible steps, as do blocks over Option, and what a chain that succeeded went through.
use mathlib.Core.Path.{◌≡◌, refl}
use mathlib.Core.Bool.{Bool, true, false}
use mathlib.Core.Option.{Option, none, some}

infixl 5 ◌>>=◌ ◌>>◌
abbrev pub ◌>>=◌ {ℓ κ} : {A : Type ℓ} {B : Type κ} → Option A → (A → Option B) → Option B
none >>= f = none
some a >>= f = f a

abbrev pub ◌>>◌ {ℓ} : {B : Type ℓ} → Option (Unit {0}) → Option B → Option B
m >> k = m >>= λ _. k

-- Goes on only where the test passes.
abbrev pub guard : Bool → Option (Unit {0})
guard true = some tt
guard false = none

-- To reason from the success of a chain, step by step.
pub >>=-some {ℓ κ ρ} :
    {A : Type ℓ} {B : Type κ} {C : Type ρ} (m : Option A) (f : A → Option B) {b : B}
    → (m >>= f) ≡ some b
    → ((a : A) → m ≡ some a → f a ≡ some b → C)
    → C
>>=-some none f e k = cc
>>=-some (some a) f e k = k a refl e

pub guard-some {ℓ κ} :
    {B : Type ℓ} {C : Type κ} (t : Bool) (m : Option B) {b : B}
    → (guard t >> m) ≡ some b
    → (t ≡ true → m ≡ some b → C)
    → C
guard-some true m e k = k refl e
guard-some false m e k = cc
