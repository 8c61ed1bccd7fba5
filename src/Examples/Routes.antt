-- ===== src/Examples/Routes.antt =====
-- Routes of two nodes.
use keel_mqtt_gateway.Prelude.{
  ◌≡◌, refl, true, false, not, ◌&&◌, ◌||◌, some, [], ◌∷◌, List, Str, str_eq, codes, lookup,
}
use keel_mqtt_gateway.Routing.Reassert.{reassert_once}
use keel_mqtt_gateway.Routing.Reassert.Restored.{is_local, reassert_once_lem}
use keel_mqtt_gateway.Routing.Keys.{key_sep, Base64}
use keel_mqtt_gateway.Routing.Keys.Roundtrip.{IsFree}
use keel_mqtt_gateway.Routing.Table.{rebuild}
use keel_mqtt_gateway.Routing.Table.Members.{has}
use keel_mqtt_gateway.Routing.Table.Agreement.{
  Agrees, Write, subscribes, unsubscribes, unsubscribes_batch, run, run-Agrees,
}

abbrev n1 : Str
n1 = codes "n1"

abbrev topic_a : Str
topic_a = codes "a"

-- A codec that leaves the text as it is.
abbrev plain : Base64
plain = record { encode = λ s. s; decode = some; decode-encode = λ s. refl }

abbrev writes : List Write
writes =
    subscribes topic_a n1
    ∷ subscribes (codes "b") n1
    ∷ subscribes topic_a (codes "n2")
    ∷ unsubscribes (codes "b") n1
    ∷ unsubscribes_batch [] (codes "n2")
    ∷ []

nothing-Agrees : Agrees [] []
unfolding lookup has
nothing-Agrees t n h = refl

run-Agrees_example :
    let (m', keys') = run writes ([], []) in
    Agrees m' keys' × ((t n : Str) → IsFree key_sep n → has t n m' ≡ has t n (rebuild keys' []))
run-Agrees_example =
    run-Agrees writes [] [] (refl, (refl, (refl, (refl, (refl, tt))))) nothing-Agrees

-- A store that lost all, a client with one filter, and a channel that takes no event.
reassert_once_lem_example :
    let keys' = reassert_once (λ t. true) (λ t. false) [] n1 ((topic_a ∷ []) ∷ []) [] in
    has topic_a n1 (rebuild keys' []) ≡ (
      (str_eq n1 n1
        && (is_local topic_a ((topic_a ∷ []) ∷ []) && (not (has topic_a n1 []) && true)))
      || has topic_a n1 (rebuild [] []))
reassert_once_lem_example =
    reassert_once_lem (λ t. true) (λ t. false) [] n1 refl ((topic_a ∷ []) ∷ []) [] topic_a n1 refl
