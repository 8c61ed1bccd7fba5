-- ===== src/Session/Placement.antt =====
-- internal/session/placement.go: the owner of an offline session by rendezvous hashing.
pub mod Score
pub mod Stability
use Prim.Native.Nat.{bit_xor}
use keel_mqtt_gateway.Prelude.{
  ℕ, ◌*◌, ◌/◌, ◌%◌, ◌^◌, Bool, Option, none, some, List, [], ◌∷◌, Str, ltb, if◌then◌else◌,
}

abbrev pub u64_mod : ℕ
u64_mod = 2 ^ 64

fnv_step : ℕ → Str → ℕ
fnv_step h [] = h
fnv_step h (b ∷ s) = fnv_step (bit_xor h b * 1099511628211 % u64_mod) s

-- fnvHash64: FNV-1a, as hash/fnv defines it.
unfoldable pub fnv_hash64 : Str → ℕ
unfolding fnv_step
fnv_hash64 s = fnv_step 14695981039346656037 s

-- The finalizer, on uint64: x >> k is x / 2^k, and a product is taken modulo 2^64.
unfoldable pub finalize : ℕ → ℕ
finalize x0 =
    let x1 = bit_xor x0 (x0 / 2 ^ 30) in
    let x2 = x1 * 0xbf58476d1ce4e5b9 % u64_mod in
    let x3 = bit_xor x2 (x2 / 2 ^ 27) in
    let x4 = x3 * 0x94d049bb133111eb % u64_mod in bit_xor x4 (x4 / 2 ^ 31)

-- rendezvousScore.
unfoldable pub rendezvous_score : Str → Str → ℕ
unfolding fnv_hash64 finalize
rendezvous_score client_id node_id = finalize (bit_xor (fnv_hash64 client_id) (fnv_hash64 node_id))

-- The rounds of the loop after the first, with the best node so far and its score.
unfoldable pub best_of : Str → List Str → Str → ℕ → Str
unfolding rendezvous_score
best_of client_id [] best best_score = best
best_of client_id (node_id ∷ rest) best best_score =
    let score = rendezvous_score client_id node_id in
    let better = best_of client_id rest node_id score in
    let same = best_of client_id rest best best_score in
    if ltb best_score score then better else same

-- Owner: `none` is ok = false.
unfoldable pub owner : Str → List Str → Option Str
unfolding best_of rendezvous_score
owner client_id [] = none
owner client_id (node_id ∷ rest) =
    some (best_of client_id rest node_id (rendezvous_score client_id node_id))
