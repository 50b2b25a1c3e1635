-- ===== src/Tests/Systems.antt =====
-- The theorems on src/system.rs at a node with counters.
use horsie_actor.Base.{
  ℕ, ◌+◌, ◌≡◌, ◌⊎◌, ◌<◌, refl, true, false, Option, none, some, List, length, ◌≤◌, [], ◌∷◌, Text,
  Bytes, codes, ok, err, arith, nat_eq, list_eq, if◌then◌else◌,
}
use horsie_actor.Map.{get, insert}
use horsie_actor.ActorPath.{ActorPath, child}
use horsie_actor.Shard.{Shard, shard_root_of}
use horsie_actor.Delivery.{Envelope, Message, accept, contains, with_capacity}
use horsie_actor.Delivery.Window.{IsWindow, Distinct, with_capacity-IsWindow}
use horsie_actor.Placement.{new, set_members}
use horsie_actor.Node.{ClusterNode}
use horsie_actor.Registry.{path_eq, empty_registry, get_or_create}
use horsie_actor.System.{
  System, Registered, Wire, DispatchError, unknown_shard_type, dedup_window, build_system,
  is_serving, is_placed_here, release_vacated_shards, dispatch, register_shard,
}
use horsie_actor.System.Vacated.{vacated}
use horsie_actor.System.Receiving.{Kept, Delivery}
use horsie_actor.System.Dispatching.{accepted, dispatch-Received}
use horsie_actor.System.Once.{without_repeats, dispatches-once}
use horsie_actor.System.Redelivering.{command_ids, dispatches, dispatch-redelivery, dispatch-lost}

abbrev Counters : Type 0
Counters = System ℕ ℕ ℕ ℕ

abbrev digit : ℕ → Text
digit n = (n + 48) ∷ []

abbrev counter_shard : Shard ℕ ℕ ℕ
counter_shard = record {
  type_name = codes "counter";
  entity_id = λ cmd. cmd;
  shard_id = λ cmd. 0;
  entity_to_string = digit;
  shard_to_string = digit;
}

abbrev counter : Registered ℕ ℕ ℕ
counter = record { shard = counter_shard; type_id = 1; command_type = 7 }

abbrev first_byte : Bytes → Option ℕ
first_byte [] = none
first_byte (b ∷ bytes) = some b

abbrev wire : Wire ℕ ℕ
wire = record { encode = λ node cmd. (some (cmd ∷ []), node); decode = first_byte }

abbrev plain : Counters
plain = build_system none

abbrev ready : Counters
ready = (register_shard plain counter wire).1

abbrev env : Envelope
env = record { type_name = codes "counter"; message_id = 6; payload = 5 ∷ [] }

plain_serves : is_serving plain ≡ true
unfolding is_serving build_system
plain_serves = refl

plain-IsWindow : IsWindow plain.seen
unfolding build_system
plain-IsWindow = with_capacity-IsWindow dedup_window

plain_accepts : (accept plain.seen env).0 ≡ true
unfolding build_system accept with_capacity
plain_accepts = refl

plain_has_room : 0 < plain.seen.capacity
unfolding build_system with_capacity
plain_has_room = omega arith

no_counter : get plain.shards env.type_name ≡ none
unfolding build_system get
no_counter = refl

dispatch-lost_example :
    let t = (register_shard (dispatch plain (Message.command env)).1 counter wire).1 in
    ((dispatch plain (Message.command env)).0 ≡ err (unknown_shard_type env.type_name))
    × (dispatch t (Message.command env) ≡ (ok tt, t))
    × (t.delivered ≡ plain.delivered)
dispatch-lost_example =
    dispatch-lost plain env counter wire plain_serves plain-IsWindow plain_accepts plain_has_room
      no_counter

ready_serves : is_serving ready ≡ true
unfolding is_serving build_system register_shard get insert
ready_serves = refl

ready-IsWindow : IsWindow ready.seen
unfolding build_system register_shard get insert
ready-IsWindow = with_capacity-IsWindow dedup_window

ready_accepts : (accept ready.seen env).0 ≡ true
unfolding build_system register_shard get insert accept with_capacity
ready_accepts = refl

ready_has_room : 1 < ready.seen.capacity
unfolding build_system register_shard get insert with_capacity
ready_has_room = omega arith

dispatch-Received_example :
    Kept (accepted ready env) (dispatch ready (Message.command env)).1
    × (((e : DispatchError) × ((dispatch ready (Message.command env)).0 ≡ err e)
          × ((dispatch ready (Message.command env)).1.delivered ≡ ready.delivered))
        ⊎ ((dispatch ready (Message.command env)).0 ≡ ok tt)
          × ((registered : Registered ℕ ℕ ℕ) × (get ready.shards env.type_name ≡ some registered)
              × Delivery
                  (accepted ready env)
                  registered
                  env.payload
                  (dispatch ready (Message.command env)).1))
dispatch-Received_example = dispatch-Received ready env ready_serves ready_accepts

abbrev other : Message
other = Message.command (record env { message_id = 8 })

dispatch-redelivery_example :
    let t = dispatches (dispatch ready (Message.command env)).1 (other ∷ []) in
    dispatch t (Message.command env) ≡ (ok tt, t)
dispatch-redelivery_example =
    dispatch-redelivery ready env (other ∷ []) ready_serves ready-IsWindow ready_accepts
      ready_has_room

-- Node 1, where node 2 is the one live member.
abbrev alone : ClusterNode ℕ
alone = record {
  local = 1;
  table = set_members new (2 ∷ []);
  serving = true;
  serving_sent = true;
  live_sent = [];
  counter = 0;
  waiting = [];
  correlations = 0;
}

abbrev region : ActorPath
region = record { segments = codes "system" ∷ codes "shard" ∷ codes "counter" ∷ [] }

abbrev shard_actor : ActorPath
shard_actor = child region (codes "0")

abbrev clustered : Counters
clustered = record {
  registry = (get_or_create empty_registry true region (codes "0") 7).1;
  shards = [];
  wires = [];
  cluster = some alone;
  seen = with_capacity dedup_window;
  delivered = [];
}

vacated_example :
    get (release_vacated_shards clustered).registry.live shard_actor
    ≡ elim (shard_root_of shard_actor) [
      | none ↦ get clustered.registry.live shard_actor
      | some p ↦ if is_placed_here alone p then get clustered.registry.live shard_actor else none
    ]
vacated_example = vacated clustered alone refl shard_actor

-- A command that comes three times, among others.
abbrev second_env : Envelope
second_env = record { type_name = codes "counter"; message_id = 7; payload = 6 ∷ [] }

abbrev stream : List Message
stream =
    Message.command env
    ∷ Message.command second_env
    ∷ Message.command env
    ∷ Message.reply (record { correlation = 2; payload = none })
    ∷ Message.command env
    ∷ []

ready_empty :
    (id : ℕ) → contains (command_ids stream) id ≡ true → contains ready.seen.order id ≡ false
unfolding build_system register_shard get insert with_capacity contains
ready_empty id h = refl

stream_fits : length stream ≤ ready.seen.capacity
unfolding build_system register_shard get insert with_capacity
stream_fits = omega arith

dispatches-once_example :
    (dispatches ready stream ≡ dispatches ready (without_repeats [] stream))
    × Distinct (command_ids (without_repeats [] stream))
dispatches-once_example =
    dispatches-once ready stream ready_serves ready-IsWindow ready_empty stream_fits

stream_once :
    without_repeats [] stream
    ≡ Message.command env
      ∷ Message.command second_env
      ∷ Message.reply (record { correlation = 2; payload = none })
      ∷ []
unfolding without_repeats contains
stream_once = refl
