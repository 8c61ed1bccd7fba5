-- ===== src/Broker/PacketIds.antt =====
-- internal/broker/offline_packet_id.go: the search for a packet ID that no stored message uses,
-- and the IDs that counters stand for.
pub mod Search
use keel_mqtt_gateway.Prelude.{
  ℕ, suc, zero, ◌+◌, ◌-◌, ◌%◌, Bool, true, false, not, ◌&&◌, ◌||◌, if◌then◌else◌, leb,
}

-- The valid packet IDs are 1 to 65535.
abbrev pub packet_ids : ℕ
packet_ids = 65535

-- uint16((n-1)%65535) + 1, for a counter from 1 on.
abbrev pub id_of : ℕ → ℕ
id_of n = (n - 1) % packet_ids + 1

-- The loop of nextOfflinePacketCounter, with so many rounds left: the counter whose ID is free, 0
-- where none is. `used` says which IDs are the field of a stored message.
unfoldable pub search_from : (ℕ → Bool) → ℕ → ℕ → ℕ → ℕ
search_from used counter offset zero = 0
search_from used counter offset (suc rounds) =
    let later = search_from used counter (offset + 1) rounds in
    if not (used ((counter + offset) % packet_ids + 1)) then counter + offset + 1 else later

-- nextOfflinePacketCounter: without a prefix a full hash ends it at once.
unfoldable pub next_offline_packet_counter : Bool → ℕ → (ℕ → Bool) → ℕ → ℕ
unfolding search_from
next_offline_packet_counter prefixed fields used counter =
    if not prefixed && leb packet_ids fields then 0 else search_from used counter 0 packet_ids
