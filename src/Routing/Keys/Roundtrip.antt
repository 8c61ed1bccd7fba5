-- ===== src/Routing/Keys/Roundtrip.antt =====
-- router.go: each key is read back as it was made, where its parts hold no separator.
use keel_mqtt_gateway.Prelude.{
  ℕ, ◌≡◌, refl, subst, ◌≢◌, ◌↔◌, ◌∙◌, ap, false, Option, none, some, [], ◌∷◌, ◌++◌, Str, any, ◌==◌,
  arith,
}
use keel_mqtt_gateway.Routing.Keys.{
  key_sep, cut_first, or_here, cut_last, route_key, parse_route_key, shared_owner_key,
  shared_owner_node, Base64, ownership_key, ownership_key_parts, parts_of, with_filter,
}

-- No byte of the text is the separator.
abbrev pub IsFree : ℕ → Str → Type 0
IsFree c s = any (λ x. x == c) s ≡ false

cut_last-none : (c : ℕ) (s : Str) → IsFree c s → cut_last c s ≡ none
unfolding cut_last
cut_last-none c [] h = refl
cut_last-none c (x ∷ s) h = ground (arith, cut_last-none c s)

pub cut_last_join : (c : ℕ) (a b : Str) → IsFree c b → cut_last c (a ++ c ∷ b) ≡ some (a, b)
unfolding cut_last
cut_last_join c [] b h = ground (arith, cut_last-none c b)
cut_last_join c (x ∷ a) b h = ap (or_here c x (a ++ c ∷ b)) (cut_last_join c a b h)

pub cut_first_join : (c : ℕ) (a b : Str) → IsFree c a → cut_first c (a ++ c ∷ b) ≡ some (a, b)
unfolding cut_first
cut_first_join c [] b h = ground arith
cut_first_join c (x ∷ a) b h = ground (arith, cut_first_join c a b)

-- What a key was cut into makes the key.
pub cut_last-some : (c : ℕ) (s a b : Str) → cut_last c s ≡ some (a, b) → s ≡ a ++ c ∷ b
unfolding cut_last
cut_last-some c [] a b e = cc
cut_last-some c (x ∷ s) a b e = later (cut_last c s) (λ a' b'. cut_last-some c s a' b') e
  where
    later :
        (o : Option (Str × Str))
        → ((a' b' : Str) → o ≡ some (a', b') → s ≡ a' ++ c ∷ b')
        → or_here c x s o ≡ some (a, b)
        → x ∷ s ≡ a ++ c ∷ b
    later none ih q = ground arith
    later (some (a', b')) ih q = ground (arith, ih a' b' refl)

cut_last-absent : (c : ℕ) (s : Str) → cut_last c s ≡ none → IsFree c s
unfolding cut_last
cut_last-absent c [] e = refl
cut_last-absent c (x ∷ s) e = later (cut_last c s) (cut_last-absent c s) e
  where
    later :
        (o : Option (Str × Str))
        → (o ≡ none → IsFree c s)
        → or_here c x s o ≡ none
        → IsFree c (x ∷ s)
    later none ih q = ground (arith, ih refl)
    later (some (a, b)) ih q = absurd (ground (arith, q))

-- No separator follows the last one.
pub cut_last-IsFree : (c : ℕ) (s a b : Str) → cut_last c s ≡ some (a, b) → IsFree c b
unfolding cut_last
cut_last-IsFree c [] a b e = absurd (ground (arith, e))
cut_last-IsFree c (x ∷ s) a b e = later (cut_last c s) refl (λ a'. cut_last-IsFree c s a' b) e
  where
    later :
        (o : Option (Str × Str))
        → cut_last c s ≡ o
        → ((a' : Str) → cut_last c s ≡ some (a', b) → IsFree c b)
        → or_here c x s o ≡ some (a, b)
        → IsFree c b
    later none k ih q = subst (IsFree c) (ground (arith, q)) (cut_last-absent c s k)
    later (some (a', b')) k ih q = ih a' (ground (arith, k, q))

-- A route key is read as a topic and a node exactly when it was made from them, where the node's ID
-- holds no NUL; the topic may hold any.
pub route_key_iff :
    (key topic node_id : Str)
    → IsFree key_sep node_id
    → (parse_route_key key ≡ some (topic, node_id)) ↔ (key ≡ route_key topic node_id)
unfolding parse_route_key
route_key_iff key t n h = (
  (λ e. cut_last-some key_sep key t n e),
  (λ e. ap (cut_last key_sep) e ∙ cut_last_join key_sep t n h),
)

with_filter-some : (c f : Str) → f ≢ [] → with_filter (some (c, f)) ≡ some (c, f)
with_filter-some c [] n = absurd (n refl)
with_filter-some c (x ∷ f) n = refl

-- The key of an offline session is read back as its client and filter, where the client ID holds no
-- NUL and the filter is not empty.
pub ownership_key_roundtrip :
    (base64 : Base64) (client_id filter : Str)
    → IsFree 0 client_id
    → filter ≢ []
    → ownership_key_parts base64 (ownership_key base64 client_id filter) ≡ some (client_id, filter)
unfolding ownership_key_parts ownership_key parts_of
ownership_key_roundtrip base64 c f h n =
    ap parts_of (base64.decode-encode (c ++ 0 ∷ f))
    ∙ ap with_filter (cut_first_join 0 c f h)
    ∙ with_filter-some c f n

-- The node of a shared group's member is read back from its key, where the node's ID is not empty
-- and holds no NUL.
pub shared_owner_key_roundtrip :
    (node_id client_id : Str)
    → IsFree key_sep node_id
    → node_id ≢ []
    → shared_owner_node (shared_owner_key node_id client_id) ≡ some node_id
unfolding shared_owner_node
shared_owner_key_roundtrip [] c h n = absurd (n refl)
shared_owner_key_roundtrip (x ∷ node) c h n = ground (arith, cut_first_join key_sep (x ∷ node) c h)
