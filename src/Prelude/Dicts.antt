-- ===== src/Prelude/Dicts.antt =====
-- Go maps with string keys as association lists. A range over a map visits the entries in some
-- order; the order of the list stands for it, and the theorems hold for every list.
use mathlib.Core.Path.{◌≡◌, refl, subst}
use mathlib.Core.Logic.{inl, inr}
use mathlib.Core.Bool.{Bool, true, false}
use mathlib.Core.List.{List, [], ◌∷◌}
use mathlib.Core.Option.{Option, none, some}
use native.Mathlib.Omega.{arith}
use keel_mqtt_gateway.Prelude.Tests.{if◌then◌else◌, Bool-cases}
use keel_mqtt_gateway.Prelude.Lists.{All, All-mono}
use keel_mqtt_gateway.Prelude.Text.{Str, str_eq, str_eq_iff, str_eq_refl}

abbrev pub Dict {ℓ} : Type ℓ → Type ℓ
Dict V = List (Str × V)

module _ {ℓ} {V : Type ℓ} where
  unfoldable pub lookup : Str → Dict V → Option V
  lookup k [] = none
  lookup k ((j, v) ∷ m) = if str_eq j k then some v else lookup k m

  unfoldable pub insert : Str → V → Dict V → Dict V
  insert k v [] = (k, v) ∷ []
  insert k v ((j, w) ∷ m) = if str_eq j k then (k, v) ∷ m else (j, w) ∷ insert k v m

  unfoldable pub delete : Str → Dict V → Dict V
  delete k [] = []
  delete k ((j, w) ∷ m) = if str_eq j k then delete k m else (j, w) ∷ delete k m

  abbrev pub has_some : Option V → Bool
  has_some none = false
  has_some (some v) = true

  pub lookup-insert :
      (k j : Str) (v : V) (m : Dict V)
      → lookup j (insert k v m) ≡ (if str_eq k j then some v else lookup j m)
  unfolding lookup insert
  lookup-insert k j v [] = refl
  lookup-insert k j v ((i, w) ∷ m) =
      ground (arith, str_eq_iff k j, str_eq_iff i k, str_eq_iff i j, lookup-insert k j v m)

  pub lookup-delete :
      (k j : Str) (m : Dict V) → lookup j (delete k m) ≡ (if str_eq k j then none else lookup j m)
  unfolding lookup delete
  lookup-delete k j [] = ground arith
  lookup-delete k j ((i, w) ∷ m) =
      ground (arith, str_eq_iff k j, str_eq_iff i k, str_eq_iff i j, lookup-delete k j m)

-- Each key stands once, as in a Go map.
abbrev pub IsMap {ℓ} : {V : Type ℓ} → Dict V → Type ℓ
IsMap [] = Unit
IsMap ((k, v) ∷ m) = (lookup k m ≡ none) × IsMap m

abbrev pub AllValues {ℓ κ} : {V : Type ℓ} → (V → Type κ) → Dict V → Type κ
AllValues P [] = Unit
AllValues P ((k, v) ∷ m) = P v × AllValues P m

module _ {ℓ} {V : Type ℓ} where
  pub insert-IsMap : (k : Str) (v : V) (m : Dict V) → IsMap m → IsMap (insert k v m)
  unfolding insert lookup
  insert-IsMap k v [] u = (refl, tt)
  insert-IsMap k v ((j, w) ∷ m) u =
      ground (arith, insert-IsMap k v m u.1, lookup-insert k j v m, str_eq_iff j k, str_eq_iff k j)

  pub delete-IsMap : (k : Str) (m : Dict V) → IsMap m → IsMap (delete k m)
  unfolding delete lookup
  delete-IsMap k [] u = tt
  delete-IsMap k ((j, w) ∷ m) u = ground (arith, delete-IsMap k m u.1, lookup-delete k j m)

  pub insert-AllValues {κ} :
      (P : V → Type κ) (k : Str) (v : V) (m : Dict V)
      → P v
      → AllValues P m
      → AllValues P (insert k v m)
  unfolding insert
  insert-AllValues P k v [] h a = (h, tt)
  insert-AllValues P k v ((j, w) ∷ m) h a =
      elim (str_eq j k) as (λ b. AllValues P (if b then (k, v) ∷ m else (j, w) ∷ insert k v m)) [
        | true ↦ (h, a.1)
        | false ↦ (a.0, insert-AllValues P k v m h a.1)
      ]

  pub delete-AllValues {κ} :
      (P : V → Type κ) (k : Str) (m : Dict V) → AllValues P m → AllValues P (delete k m)
  unfolding delete
  delete-AllValues P k [] a = tt
  delete-AllValues P k ((j, w) ∷ m) a =
      elim (str_eq j k) as (λ b. AllValues P (if b then delete k m else (j, w) ∷ delete k m)) [
        | true ↦ delete-AllValues P k m a.1
        | false ↦ (a.0, delete-AllValues P k m a.1)
      ]

  pub lookup-AllValues {κ} :
      (P : V → Type κ) (k : Str) (m : Dict V) {v : V} → AllValues P m → lookup k m ≡ some v → P v
  unfolding lookup
  lookup-AllValues P k [] a h = cc
  lookup-AllValues P k ((j, w) ∷ m) {v} a h = elim (Bool-cases (str_eq j k)) [
    | inl e ↦ let q : w ≡ v = ground arith in subst P q a.0
    | inr e ↦ lookup-AllValues P k m a.1 (ground arith)
  ]

  -- Every entry of a map is what its key looks up.
  pub entries-lookup : (m : Dict V) → IsMap m → All (λ e. lookup e.0 m ≡ some e.1) m
  unfolding lookup
  entries-lookup [] u = tt
  entries-lookup ((k, v) ∷ m) u = (
    ground (arith, str_eq_refl k),
    All-mono (λ e. lookup e.0 m ≡ some e.1)
        (λ e. (if str_eq k e.0 then some v else lookup e.0 m) ≡ some e.1)
        (λ e h. ground (arith, str_eq_iff k e.0, u.0)) m (entries-lookup m u.1),
  )
