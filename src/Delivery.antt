-- ===== src/Delivery.antt =====
-- `Envelope`, `Message` and `Reply` of src/envelope.rs, and the window of message ids of
-- src/cluster/delivery.rs.
pub mod Window
pub mod Redelivery
pub mod Remembering
use horsie_actor.Base.{
  ℕ, Bool, true, false, Option, none, some, List, [], ◌∷◌, ◌++◌, Text, Bytes, ◌==◌, nat_eq, any,
  ltb, length, if◌then◌else◌, retain, not,
}

pub record Reply : Type 0 where
  pub correlation : ℕ
  pub payload : Option Bytes

pub record Envelope : Type 0 where
  pub type_name : Text
  pub message_id : ℕ
  pub payload : Bytes

pub data Message : Type 0 where
  command : Envelope → Message
  reply : Reply → Message

-- The set and the queue, oldest id first.
pub record Dedup : Type 0 where
  pub seen : List ℕ
  pub order : List ℕ
  pub capacity : ℕ

unfoldable pub with_capacity : ℕ → Dedup
with_capacity capacity = record {
  seen = [];
  order = [];
  capacity = if ltb capacity 1 then 1 else capacity;
}

-- `HashSet` of the standard library: membership, insertion of a new value, removal.
unfoldable pub contains : List ℕ → ℕ → Bool
contains seen id = any (λ x. x == id) seen

unfoldable pub set_remove : List ℕ → ℕ → List ℕ
set_remove seen id = retain (λ x. not (x == id)) seen

-- The oldest id leaves both the queue and the set when the queue is over its bound.
evict : Dedup → List ℕ → Dedup
evict d [] = d
evict d (evicted ∷ rest) =
    if ltb d.capacity (length d.order)
    then record d { seen = set_remove d.seen evicted; order = rest }
    else d

unfoldable pub accept_id : Dedup → ℕ → Bool × Dedup
unfolding contains evict set_remove
accept_id d message_id =
    let pushed : Dedup = record d {
      seen = message_id ∷ d.seen;
      order = d.order ++ message_id ∷ [];
    } in
    if contains d.seen message_id then (false, d) else (true, evict pushed pushed.order)

unfoldable pub accept : Dedup → Envelope → Bool × Dedup
unfolding accept_id
accept d env = accept_id d env.message_id

unfoldable pub window_len : Dedup → ℕ
window_len d = length d.order
