-- ===== src/System.antt =====
-- The rest of src/system.rs: registering shard types, the release of shards that moved away, and the
-- delivery of commands, from this node and from others. `Command` holds the commands of every type;
-- a command type is a number (its `TypeId`). What a mailbox takes is kept in the order of arrival.
pub mod Vacated
pub mod Creating
pub mod Receiving
pub mod Dispatching
pub mod Redelivering
pub mod Once
pub mod Delivering
pub mod Watching
pub mod Hosting
pub mod Handles
use horsie_actor.Base.{
  ℕ, Bool, true, false, ◌&&◌, not, Option, none, some, List, [], ◌∷◌, ◌++◌, foldl, Text, Bytes,
  Result, ok, err, map_err, ok_or, ◌>>=◌, ◌==◌, nat_eq, list_eq, ltb, if◌then◌else◌,
}
use horsie_actor.Map.{Map, get, insert, keys}
use horsie_actor.ActorPath.{ActorPath, parent, name}
use horsie_actor.Shard.{
  Shard, EntityContext, PlacedShard, shard_root, shard_root_of, address_of, context_of,
}
use horsie_actor.Delivery.{Dedup, Envelope, Message, Reply, with_capacity, accept}
use horsie_actor.Placement.{owner_of}
use horsie_actor.Node.{ClusterNode, owns, next_message_id, deliver_reply}
use horsie_actor.Node.Sending.{TransportError, Outside, send}
use horsie_actor.Registry.{
  Registry, ActorOfError, unclaimed, type_collision, not_serving, empty_registry, is_alive, resolve,
  get_or_create, stop_at,
}

abbrev pub dedup_window : ℕ
dedup_window = 4096

pub data DispatchError : Type 0 where
  no_actor : ActorPath → DispatchError
  unknown_shard_type : Text → DispatchError
  decode_failed : Text → ℕ → DispatchError
  resolve_failed : ActorOfError → DispatchError
  mailbox_closed : DispatchError

-- Text order by bytes, and the derived order of `PlacedShard`.
abbrev pub text_ltb : Text → Text → Bool
text_ltb [] [] = false
text_ltb [] (y ∷ ys) = true
text_ltb (x ∷ xs) [] = false
text_ltb (x ∷ xs) (y ∷ ys) = if ltb x y then true else if x == y then text_ltb xs ys else false

abbrev pub placed_ltb : PlacedShard → PlacedShard → Bool
placed_ltb p q =
    if text_ltb p.type_name q.type_name
    then true
    else p.type_name == q.type_name && text_ltb p.shard_id q.shard_id

abbrev pub placed_beq : PlacedShard → PlacedShard → Bool
placed_beq p q = p.type_name == q.type_name && p.shard_id == q.shard_id

unfoldable pub placed_insert : PlacedShard → List PlacedShard → List PlacedShard
placed_insert p [] = p ∷ []
placed_insert p (q ∷ rest) =
    let later = placed_insert p rest in
    if placed_ltb p q then p ∷ q ∷ rest else if placed_beq p q then q ∷ rest else q ∷ later

-- The shards of the paths, as the set that is iterated in order.
unfoldable pub running : List ActorPath → List PlacedShard
unfolding placed_insert
running [] = []
running (p ∷ rest) =
    let others = running rest in
    elim (shard_root_of p) [ none ↦ others | some shard ↦ placed_insert shard others ]

-- Whether placement has the shard on this node.
unfoldable pub is_placed_here : {Deliver : Type 0} → ClusterNode Deliver → PlacedShard → Bool
unfolding owner_of
is_placed_here node p = elim (owner_of node.table p.type_name p.shard_id) [
  | none ↦ false
  | some owner ↦ owner == node.local
]

unfoldable pub release_one :
    {Deliver : Type 0} → ClusterNode Deliver → Registry → PlacedShard → Registry
unfolding is_placed_here stop_at shard_root
release_one node r p = if is_placed_here node p then r else (stop_at r (shard_root p)).1

-- The user's code: the shard type's extractors and how its commands cross a host. Encoding a command
-- registers the reply handles in it with the node.
pub record Wire (Command Deliver : Type 0) : Type 0 where
  pub encode : ClusterNode Deliver → Command → Option Bytes × ClusterNode Deliver
  pub decode : Bytes → Option Command

-- A shard type, with the numbers that stand for the type and for that of its commands.
pub record Registered (Command EntityId ShardId : Type 0) : Type 0 where
  pub shard : Shard Command EntityId ShardId
  pub type_id : ℕ
  pub command_type : ℕ

pub record System (Command EntityId ShardId Deliver : Type 0) : Type 0 where
  pub registry : Registry
  pub shards : Map Text (Registered Command EntityId ShardId)
  pub wires : Map ℕ (Wire Command Deliver)
  pub cluster : Option (ClusterNode Deliver)
  pub seen : Dedup
  pub delivered : List (ℕ × Command)

module _ {Command EntityId ShardId Deliver : Type 0} where
  unfoldable pub build_system :
      Option (ClusterNode Deliver) → System Command EntityId ShardId Deliver
  build_system cluster = record {
    registry = empty_registry;
    shards = [];
    wires = [];
    cluster = cluster;
    seen = with_capacity dedup_window;
    delivered = [];
  }

  unfoldable pub is_serving : System Command EntityId ShardId Deliver → Bool
  is_serving s = elim s.cluster [ none ↦ true | some node ↦ node.serving ]

  unfoldable pub require_serving :
      System Command EntityId ShardId Deliver → Result ActorOfError (Unit {0})
  unfolding is_serving
  require_serving s = if is_serving s then ok tt else err not_serving

  unfoldable pub release_vacated_shards :
      System Command EntityId ShardId Deliver → System Command EntityId ShardId Deliver
  unfolding release_one running
  release_vacated_shards s = elim s.cluster [
    | none ↦ s
    | some node ↦ record s {
      registry = foldl (release_one node) s.registry (running (keys s.registry.live));
    }
  ]

  -- `Link::send` to a mailbox of this process.
  unfoldable pub link_send :
      System Command EntityId ShardId Deliver
      → ℕ
      → Command
      → Bool × System Command EntityId ShardId Deliver
  unfolding is_alive
  link_send s mailbox cmd =
      if is_alive s.registry mailbox
      then (true, record s { delivered = s.delivered ++ (mailbox, cmd) ∷ [] })
      else (false, s)

  -- The recipe that registration makes.
  unfoldable pub build_actor :
      System Command EntityId ShardId Deliver
      → Registered Command EntityId ShardId
      → ActorPath
      → Result ActorOfError ℕ × System Command EntityId ShardId Deliver
  unfolding get_or_create parent name is_serving
  build_actor s registered at = elim (parent at) [
    | none ↦ (err (unclaimed at), s)
    | some above ↦ elim (name at) [
      | none ↦ (err (unclaimed at), s)
      | some last ↦
          let (result, r) =
            get_or_create s.registry (is_serving s) above last registered.command_type in
          (result, record s { registry = r })
    ]
  ]

  -- Find the actor, or build it and find it then.
  unfoldable pub find_or_build :
      {E : Type 0}
      → (ActorOfError → E)
      → (ActorPath → E)
      → System Command EntityId ShardId Deliver
      → Registered Command EntityId ShardId
      → ActorPath
      → Result E ℕ × System Command EntityId ShardId Deliver
  unfolding build_actor resolve
  find_or_build failed missing s registered at =
      elim (resolve s.registry registered.command_type at) [
        | some mailbox ↦ (ok mailbox, s)
        | none ↦
            let (result, t) = build_actor s registered at in
            elim result [
              | err e ↦ (err (failed e), t)
              | ok _ ↦ (ok_or (resolve t.registry registered.command_type at) (missing at), t)
            ]
      ]

  -- The receiver that registration makes: decode, find or build, deliver.
  unfoldable pub receive :
      System Command EntityId ShardId Deliver
      → Registered Command EntityId ShardId
      → ℕ
      → Bytes
      → Result DispatchError (Unit {0}) × System Command EntityId ShardId Deliver
  unfolding find_or_build link_send address_of context_of get
  receive s registered message_id payload =
      let unknown = decode_failed registered.shard.type_name message_id in
      elim (get s.wires registered.command_type) [
        | none ↦ (err unknown, s)
        | some wire ↦ elim (wire.decode payload) [
          | none ↦ (err unknown, s)
          | some cmd ↦
              let at = address_of registered.shard (context_of registered.shard cmd) in
              let (found, t) = find_or_build resolve_failed no_actor s registered at in
              elim found [
                | err e ↦ (err e, t)
                | ok mailbox ↦
                    let (sent, u) = link_send t mailbox cmd in
                    (if sent then ok tt else err mailbox_closed, u)
              ]
        ]
      ]

  unfoldable pub dispatch_command :
      System Command EntityId ShardId Deliver
      → Envelope
      → Result DispatchError (Unit {0}) × System Command EntityId ShardId Deliver
  unfolding require_serving accept receive get
  dispatch_command s env = elim (require_serving s) [
    | err e ↦ (err (resolve_failed e), s)
    | ok _ ↦
        let (new, seen) = accept s.seen env in
        let t : System Command EntityId ShardId Deliver = record s { seen = seen } in
        if new
        then elim (get t.shards env.type_name) [
          | none ↦ (err (unknown_shard_type env.type_name), t)
          | some registered ↦ receive t registered env.message_id env.payload
        ]
        else (ok tt, t)
  ]

  -- An answer is for a caller of this node, whatever the node's state; `deliver_reply` hands it over.
  unfoldable pub dispatch :
      System Command EntityId ShardId Deliver
      → Message
      → Result DispatchError (Unit {0}) × System Command EntityId ShardId Deliver
  unfolding dispatch_command deliver_reply
  dispatch s (Message.command env) = dispatch_command s env
  dispatch s (Message.reply reply) = elim s.cluster [
    | none ↦ (ok tt, s)
    | some node ↦ (ok tt, record s { cluster = some (deliver_reply node reply).1 })
  ]

  -- The wire is recorded before the name is looked at.
  unfoldable pub register_shard :
      System Command EntityId ShardId Deliver
      → Registered Command EntityId ShardId
      → Wire Command Deliver
      → Result ActorOfError (Unit {0}) × System Command EntityId ShardId Deliver
  unfolding get insert
  register_shard s registered wire =
      let t : System Command EntityId ShardId Deliver = record s {
        wires = insert s.wires registered.command_type wire;
      } in
      let type_name = registered.shard.type_name in
      elim (get t.shards type_name) [
        | some _ ↦ (err (type_collision type_name), t)
        | none ↦ (ok tt, record t { shards = insert t.shards type_name registered })
      ]
