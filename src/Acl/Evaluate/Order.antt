-- ===== src/Acl/Evaluate/Order.antt =====
-- evaluate.go: the FSM gathers rules by ranging over maps, in no fixed order; the outcome does not
-- depend on it.
use mathlib.Core.Bool.{Bool-set}
use mathlib.Core.Logic.{∥∥₁_elim}
use mathlib.Core.List.{Perm, Permᴰ}
use keel_mqtt_gateway.Prelude.{◌≡◌, refl, ◌∙◌, Bool, List, ◌++◌, any, arith}
use keel_mqtt_gateway.Acl.Model.{AclRule, Role}
use keel_mqtt_gateway.Acl.Evaluate.{Request, evaluate, is_allowed}
use keel_mqtt_gateway.Acl.Evaluate.Outcome.{forbids, permits, rules_of, evaluate_outcome}

any-Permᴰ {ℓ} : {A : Type ℓ} (p : A → Bool) {xs ys : List A} → Permᴰ xs ys → any p xs ≡ any p ys
any-Permᴰ p Permᴰ.nil = refl
any-Permᴰ p (Permᴰ.cons e d) = ground (arith, any-Permᴰ p d)
any-Permᴰ p (Permᴰ.swap e f) = ground arith
any-Permᴰ p (Permᴰ.trans c d) = any-Permᴰ p c ∙ any-Permᴰ p d

pub any-Perm {ℓ} : {A : Type ℓ} (p : A → Bool) {xs ys : List A} → Perm xs ys → any p xs ≡ any p ys
any-Perm p {xs} {ys} h = ∥∥₁_elim h (Bool-set (any p xs) (any p ys)) (any-Permᴰ p)

-- Two gatherings of the same rules, in any order and however they are split between the rulesets
-- and the custom rules, allow the same requests.
pub evaluate_any_order :
    (q : Request) (roles roles' : List Role) (custom custom' : List AclRule)
    → Perm (rules_of roles ++ custom) (rules_of roles' ++ custom')
    → is_allowed (evaluate q roles custom) ≡ is_allowed (evaluate q roles' custom')
evaluate_any_order q roles roles' custom custom' h = rw (
  evaluate_outcome q roles custom,
  evaluate_outcome q roles' custom',
  any-Perm (permits q) h,
  any-Perm (forbids q) h,
)
