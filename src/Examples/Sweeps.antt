-- ===== src/Examples/Sweeps.antt =====
-- Nodes a, b and d hold routes; only b is a member, and a has been absent for longer than 10.
use keel_mqtt_gateway.Prelude.{Bool, true, ◌≡◌, refl, List, [], ◌∷◌, Str, codes, All}
use keel_mqtt_gateway.Lifecycle.Sweep.{RoutingSweep, to_set, tick, IsOrphan, tick-IsOrphan}

abbrev a : Str
a = codes "a"

abbrev b : Str
b = codes "b"

abbrev holders_abd : List Str
holders_abd = a ∷ b ∷ codes "d" ∷ []

abbrev one_absent : RoutingSweep
one_absent = record { absent_since = (a, 5) ∷ []; flagged = [] }

abbrev purge_succeeds : Str → Bool
purge_succeeds node_id = true

tick_purges : (tick purge_succeeds 10 20 (b ∷ []) holders_abd one_absent).1 ≡ a ∷ []
unfolding tick
tick_purges = refl

tick-IsOrphan_example :
    All
      (IsOrphan 10 20 (to_set (b ∷ [])) one_absent)
      (tick purge_succeeds 10 20 (b ∷ []) holders_abd one_absent).1
tick-IsOrphan_example = tick-IsOrphan purge_succeeds 10 20 (b ∷ []) holders_abd one_absent
