-- ===== src/System/Delivering.antt =====
-- `deliver_to_shard` and `start_shard_actor` of src/system.rs: a command that is sent on this node.
use horsie_actor.Base.{
  ℕ, none, some, Result, ok, err, map_err, ◌==◌, nat_eq, list_eq, if◌then◌else◌,
}
use horsie_actor.Map.{get}
use horsie_actor.ActorPath.{ActorPath}
use horsie_actor.Shard.{address_of, context_of}
use horsie_actor.Node.{ClusterNode, owns, next_message_id}
use horsie_actor.Node.Sending.{Outside, send}
use horsie_actor.Registry.{ActorOfError, unclaimed, type_collision, resolve}
use horsie_actor.ActorRef.{TellError, undeliverable, mailbox_closed}
use horsie_actor.System.{Registered, System, find_or_build, build_actor, link_send}

module _ {Command EntityId ShardId Deliver : Type 0} where
  -- The start of an actor of shard type `wanted`, by what is registered under its name.
  unfoldable pub start_shard_actor :
      System Command EntityId ShardId Deliver
      → Registered Command EntityId ShardId
      → ActorPath
      → Result ActorOfError ℕ × System Command EntityId ShardId Deliver
  unfolding resolve build_actor get
  start_shard_actor s wanted at = elim (resolve s.registry wanted.command_type at) [
    | some mailbox ↦ (ok mailbox, s)
    | none ↦ elim (get s.shards wanted.shard.type_name) [
      | none ↦ (err (unclaimed at), s)
      | some registered ↦
          if registered.type_id == wanted.type_id
          then find_or_build (λ e. e) unclaimed s registered at
          else (err (type_collision wanted.shard.type_name), s)
    ]
  ]

  -- The first part of `deliver_to_shard`, on the node that owns the shard.
  unfoldable pub deliver_here :
      System Command EntityId ShardId Deliver
      → Registered Command EntityId ShardId
      → Command
      → Result TellError (Unit {0}) × System Command EntityId ShardId Deliver
  unfolding start_shard_actor link_send address_of context_of
  deliver_here s wanted cmd =
      let (started, t) =
        start_shard_actor s wanted (address_of wanted.shard (context_of wanted.shard cmd)) in
      elim started [
        | err e ↦ (err undeliverable, t)
        | ok mailbox ↦
            let (sent, u) = link_send t mailbox cmd in
            (if sent then ok tt else err mailbox_closed, u)
      ]

  -- The rest of it, from a node that does not: encode, and send to the owner.
  unfoldable pub deliver_away :
      {W : Type 0}
      → Outside W
      → System Command EntityId ShardId Deliver
      → ClusterNode Deliver
      → Registered Command EntityId ShardId
      → Command
      → W
      → Result TellError (Unit {0}) × System Command EntityId ShardId Deliver × W
  unfolding get next_message_id send
  deliver_away out s node wanted cmd w = elim (get s.wires wanted.command_type) [
    | none ↦ (err undeliverable, s, w)
    | some wire ↦
        let (encoded, waits) = wire.encode node cmd in
        elim encoded [
          | none ↦ (err undeliverable, record s { cluster = some waits }, w)
          | some payload ↦
              let (message_id, counted) = next_message_id waits in
              let shard_id = wanted.shard.shard_to_string (wanted.shard.shard_id cmd) in
              let (result, later) = send out wanted.shard.type_name shard_id payload message_id w in
              (map_err (λ e. undeliverable) result, record s { cluster = some counted }, later)
        ]
  ]

  unfoldable pub deliver_to_shard :
      {W : Type 0}
      → Outside W
      → System Command EntityId ShardId Deliver
      → Registered Command EntityId ShardId
      → Command
      → W
      → Result TellError (Unit {0}) × System Command EntityId ShardId Deliver × W
  unfolding deliver_here deliver_away owns
  deliver_to_shard out s wanted cmd w =
      let (result, t) = deliver_here s wanted cmd in
      elim s.cluster [
        | none ↦ (result, t, w)
        | some node ↦
            if owns node wanted.shard.type_name
              (wanted.shard.shard_to_string (wanted.shard.shard_id cmd))
            then (result, t, w)
            else deliver_away out s node wanted cmd w
      ]
