-- ===== src/System/Handles.antt =====
-- What the holder of a system, or an actor with its context, asks of it: src/system.rs (`actor_of`,
-- `spawn_at`, `stop`, `hosted`, `shard_actor_of`) and `ActorContext` of src/runtime.rs. A reference is a
-- value here: its path, the type of its commands, and the link it starts with. The closure that routes
-- the commands of a shard type is a number, as in ActorRef.
use horsie_actor.Base.{
  ℕ, ◌+◌, ◌≡◌, ◌++◌, refl, ◌∙◌, Bool, true, Option, some, List, [], ◌∷◌, Text, Result, ok, err,
  arith, Bool-cases, Option-cases, inl, inr, ◌==◌, nat_eq, ◌&&◌,
}
use horsie_actor.Map.{get}
use horsie_actor.ActorPath.{ActorPath, root, child}
use horsie_actor.Shard.{region_of}
use horsie_actor.Registry.{
  Registry, path_eq, ActorOfError, is_alive, resolve, get_or_create, stop_at,
}
use horsie_actor.Registry.Instances.{Reach}
use horsie_actor.Registry.Reached.{Reach-IsRegistry}
use horsie_actor.Lifecycle.{Seen, sender_gone}
use horsie_actor.ActorRef.{TellError, Link, local, remote, World, tell}
use horsie_actor.ActorRef.Cached.{tell-open}
use horsie_actor.System.{System, Registered, is_serving}
use horsie_actor.System.Creating.{get_or_create-Creates}

-- `ActorRef`.
pub record Reference : Type 0 where
  pub command_type : ℕ
  pub path : ActorPath
  pub link : Option Link

-- `ActorContext`, of an actor whose commands are of the given type.
pub record ActorContext : Type 0 where
  pub command_type : ℕ
  pub self_tx : ℕ
  pub path : ActorPath

abbrev pub reference : ℕ → ActorPath → Option Link → Reference
reference command_type path link = record { command_type = command_type; path = path; link = link }

unfoldable pub self_ref : ActorContext → Reference
self_ref ctx = reference ctx.command_type ctx.path (some (local ctx.self_tx))

-- `ActorSystem::shard_actor_of`, whose link hands what it is sent to `deliver_to_shard`.
unfoldable pub shard_actor_of :
    {Command EntityId ShardId : Type 0} → Registered Command EntityId ShardId → ℕ → Reference
unfolding region_of
shard_actor_of registered route =
    reference registered.command_type (region_of registered.shard.type_name) (some (remote route))

module _ {Command EntityId ShardId Deliver : Type 0} where
  -- `ActorSystem::get_or_create`, as the callers see it.
  unfoldable pub child_of :
      System Command EntityId ShardId Deliver
      → ActorPath
      → Text
      → ℕ
      → Result ActorOfError Reference × System Command EntityId ShardId Deliver
  unfolding get_or_create is_serving
  child_of s parent name command_type =
      let (made, r) = get_or_create s.registry (is_serving s) parent name command_type in
      let t : System Command EntityId ShardId Deliver = record s { registry = r } in
      elim made [
        | err e ↦ (err e, t)
        | ok mailbox ↦ (ok (reference command_type (child parent name) (some (local mailbox))), t)
      ]

  -- `ActorSystem::actor_of`.
  unfoldable pub actor_of :
      System Command EntityId ShardId Deliver
      → Text
      → ℕ
      → Result ActorOfError Reference × System Command EntityId ShardId Deliver
  unfolding child_of root
  actor_of s name command_type = child_of s root name command_type

  -- `ActorContext::actor_of`.
  unfoldable pub actor_of_context :
      System Command EntityId ShardId Deliver
      → ActorContext
      → Text
      → ℕ
      → Result ActorOfError Reference × System Command EntityId ShardId Deliver
  unfolding child_of
  actor_of_context s ctx name command_type = child_of s ctx.path name command_type

  -- `ActorSystem::spawn_at`: the actor gets a mailbox that no entry is filed for, which its reference
  -- links to. The second result is what its stop signal shows from then on: the sender, which
  -- `runtime::spawn_at` returns, is dropped here.
  unfoldable pub spawn_at :
      System Command EntityId ShardId Deliver
      → ActorPath
      → ℕ
      → Reference × List Seen × System Command EntityId ShardId Deliver
  spawn_at s path command_type = (
    reference command_type path (some (local s.registry.next_mailbox)),
    sender_gone ∷ [],
    record s { registry = record s.registry { next_mailbox = s.registry.next_mailbox + 1 } },
  )

  -- `ActorSystem::stop`.
  unfoldable pub stop :
      System Command EntityId ShardId Deliver
      → ActorPath
      → Bool × System Command EntityId ShardId Deliver
  unfolding stop_at
  stop s path = let (was_here, r) = stop_at s.registry path in (was_here, record s { registry = r })

-- A mailbox that is resolved has not ended.
resolve-is_alive :
    (s : Registry) (ty : ℕ) (p : ActorPath) (m : ℕ) → resolve s ty p ≡ some m → is_alive s m ≡ true
unfolding resolve
resolve-is_alive s ty p m h = elim (Option-cases (get s.live p)) [
  | inl e ↦ ground (arith, h, e)
  | inr (x, e) ↦ elim (Bool-cases (x.command_type == ty && is_alive s x.mailbox)) [
    | inr other ↦ ground (arith, h, e, other)
    | inl both ↦
        let mine : some x.mailbox ≡ some m = ground (arith, h, e, both) in
        let same : x.mailbox ≡ m = ground (arith, mine) in
        let alive : is_alive s x.mailbox ≡ true = ground (arith, both) in rw same at alive
  ]
]

module _ {Command EntityId ShardId Deliver W : Type 0}
    (ship : ℕ → Command → W → Result TellError (Unit {0}) × W) where
  -- In a run of the registry, an actor that is found or created under a parent is resolved at the
  -- child's path, and a command that is told to the reference that was given is put in the mailbox that is
  -- resolved there, whatever else the world holds; the reference keeps its link.
  pub child_of-tell :
      (s : System Command EntityId ShardId Deliver) (parent : ActorPath) (name : Text) (ty : ℕ)
      (r : Reference) (cmd : Command) (w : World Command W)
      → Reach s.registry
      → (child_of s parent name ty).0 ≡ ok r
      → w.registry ≡ (child_of s parent name ty).1.registry
      → (m : ℕ) × (resolve w.registry ty (child parent name) ≡ some m)
        × (tell ship true r.command_type r.path r.link cmd w
            ≡ (ok tt, r.link, record w { delivered = w.delivered ++ (m, cmd) ∷ [] }))
  unfolding child_of
  child_of-tell s parent name ty r cmd w reach made same =
      elim (get_or_create-Creates s.registry (is_serving s) parent name ty
        (Reach-IsRegistry reach)) [
          | inr (e, refused) ↦ absurd (ground (arith, rw (child_of, refused) at made))
          | inl (m, done, found) ↦
              let at : reference ty (child parent name) (some (local m)) ≡ r =
                ground (arith, rw (child_of, done) at made) in
              let registry : w.registry
                  ≡ (get_or_create s.registry (is_serving s) parent name ty).1 =
                same ∙ rw (child_of, done) refl in
              let here : resolve w.registry ty (child parent name) ≡ some m = rw registry found in
              (
                m,
                here,
                rw (← at) (
                    tell-open ship true ty (child parent name) m cmd w
                      (resolve-is_alive w.registry ty (child parent name) m here)),
              )
        ]
