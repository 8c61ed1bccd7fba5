-- ===== src/Routing/Keys.antt =====
-- internal/cluster/routing/router.go: the keys under which routes, offline sessions and members of
-- shared groups are stored. The base64 codec is a parameter.
pub mod Roundtrip
use keel_mqtt_gateway.Prelude.{
  ℕ, zero, suc, ◌≡◌, Bool, not, Option, none, some, List, [], ◌∷◌, ◌++◌, Str, codes, has_prefix,
  is_nil, length, ◌==◌, if◌then◌else◌,
}

abbrev pub key_sep : ℕ
key_sep = 0

abbrev pub put_back : ℕ → Option (Str × Str) → Option (Str × Str)
put_back x none = none
put_back x (some (a, b)) = some (x ∷ a, b)

-- The text before and after the first separator: strings.IndexByte, and strings.Index of one byte.
unfoldable pub cut_first : ℕ → Str → Option (Str × Str)
cut_first c [] = none
cut_first c (x ∷ s) =
    let later = put_back x (cut_first c s) in if x == c then some ([], s) else later

abbrev or_here : ℕ → ℕ → Str → Option (Str × Str) → Option (Str × Str)
or_here c x s none = if x == c then some ([], s) else none
or_here c x s (some (a, b)) = some (x ∷ a, b)

-- The text before and after the last separator: strings.LastIndex.
unfoldable pub cut_last : ℕ → Str → Option (Str × Str)
cut_last c [] = none
cut_last c (x ∷ s) = or_here c x s (cut_last c s)

-- routeKey.
abbrev pub route_key : Str → Str → Str
route_key topic node_id = topic ++ key_sep ∷ node_id

-- parseRouteKey: the topic and the node; `none` is ok = false.
unfoldable pub parse_route_key : Str → Option (Str × Str)
unfolding cut_last
parse_route_key key = cut_last key_sep key

-- sharedOwnerKey.
abbrev pub shared_owner_key : Str → Str → Str
shared_owner_key node_id client_id = node_id ++ key_sep ∷ client_id

abbrev node_of : Option (Str × Str) → Option Str
node_of none = none
node_of (some (node_id, client_id)) = if is_nil node_id then none else some node_id

-- sharedOwnerNode: `none` where the separator is missing or comes first.
unfoldable pub shared_owner_node : Str → Option Str
unfolding cut_first
shared_owner_node key = node_of (cut_first key_sep key)

-- base64.RawURLEncoding: decoding reads back what was encoded.
pub record Base64 : Type 0 where
  pub encode : Str → Str
  pub decode : Str → Option Str
  pub decode-encode : (s : Str) → decode (encode s) ≡ some s

abbrev pub ownership_key_prefix : Str
ownership_key_prefix = codes "$offline/"

abbrev pub drop : ℕ → Str → Str
drop zero s = s
drop (suc n) [] = []
drop (suc n) (x ∷ s) = drop n s

-- i < 0 || i+1 >= len(rawString)
abbrev pub with_filter : Option (Str × Str) → Option (Str × Str)
with_filter none = none
with_filter (some (client_id, filter)) = if is_nil filter then none else some (client_id, filter)

unfoldable pub parts_of : Option Str → Option (Str × Str)
unfolding cut_first
parts_of none = none
parts_of (some raw) = with_filter (cut_first 0 raw)

module _ (base64 : Base64) where
  -- OwnershipKey.
  unfoldable pub ownership_key : Str → Str → Str
  ownership_key client_id filter = ownership_key_prefix ++ base64.encode (client_id ++ 0 ∷ filter)

  -- ownershipKeyParts: the client and its filter.
  unfoldable pub ownership_key_parts : Str → Option (Str × Str)
  unfolding has_prefix
  ownership_key_parts key =
      if not (has_prefix key ownership_key_prefix)
      then none
      else parts_of (base64.decode (drop (length ownership_key_prefix) key))
