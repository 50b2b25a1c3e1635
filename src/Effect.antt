-- ===== src/Effect.antt =====
-- src/actor.rs: what an actor asks of the runtime, and the trait `EventSourcedActor`; `Flow` of
-- src/behaviour.rs. `Ack` is the type of the reply handles.
use horsie_actor.Base.{
  Bool, true, false, ◌≡◌, Option, none, some, List, [], Result, ok, Text, Bytes,
}
use horsie_actor.PersistenceId.{PersistenceId}

pub data Flow : Type 0 where
  continue stop : Flow

pub record CommandEffect (Event Ack : Type 0) : Type 0 where
  pub events : List Event
  pub snapshot : Bool
  pub ack : Option Ack
  pub stop : Bool

module _ {Event Ack : Type 0} where
  unfoldable pub no_effect : CommandEffect Event Ack
  no_effect = record { events = []; snapshot = false; ack = none; stop = false }

  unfoldable pub persist : List Event → CommandEffect Event Ack
  persist events = record { events = events; snapshot = false; ack = none; stop = false }

  unfoldable pub and_snapshot : CommandEffect Event Ack → CommandEffect Event Ack
  and_snapshot e = record e { snapshot = true }

  unfoldable pub and_ack : CommandEffect Event Ack → Ack → CommandEffect Event Ack
  and_ack e ack = record e { ack = some ack }

  unfoldable pub and_stop : CommandEffect Event Ack → CommandEffect Event Ack
  and_stop e = record e { stop = true }

  unfoldable pub snapshot : CommandEffect Event Ack
  unfolding no_effect and_snapshot
  snapshot = and_snapshot no_effect

  unfoldable pub stop_effect : CommandEffect Event Ack
  unfolding no_effect and_stop
  stop_effect = and_stop no_effect

  unfoldable pub persist_and_stop : List Event → CommandEffect Event Ack
  unfolding persist and_stop
  persist_and_stop events = and_stop (persist events)

-- The serialization library, which is not part of the crate: both directions may fail, with a text.
pub record Serde (A : Type 0) : Type 0 where
  pub to_vec : A → Result Text Bytes
  pub from_slice : Bytes → Result Text A

-- What the serialization library is relied on for: what it writes it reads back.
abbrev pub RoundTrips : {A : Type 0} → Serde A → Type 0
RoundTrips {A} s = (a : A) (bytes : Bytes) → s.to_vec a ≡ ok bytes → s.from_slice bytes ≡ ok a

-- The trait, and how its events and states are serialized. A hook or a handler that may change the
-- actor returns it.
pub record EventSourcedActor (Inner Command Event State Ack : Type 0) : Type 0 where
  pub persistence_id : Inner → PersistenceId
  pub initial_state : State
  pub apply_event : State → Event → State
  pub handle_command : Inner → State → Command → Inner × CommandEffect Event Ack
  pub on_recovery_complete : Inner → State → Inner
  pub on_events_persisted : Inner → List Event → State → Inner
  pub event_serde : Serde Event
  pub state_serde : Serde State
