-- ===== src/Registry.antt =====
-- The registry of src/system.rs, which files every actor of a node under its path, and the end of an
-- actor's task in src/runtime.rs. A mailbox is a number, given out in the order of creation; what an
-- entry holds beside its command type (the cached link, the stop signal and the termination signal)
-- all belong to one mailbox. `halt`, `stop_at` and `finish` are whole here, with nothing between their
-- steps; Interleaved has their steps apart, where what other tasks do comes between.
pub mod Prefixes
pub mod Shrinking
pub mod Stopping
pub mod Order
pub mod Sweeping
pub mod Enough
pub mod Instances
pub mod Creation
pub mod Reached
pub mod Typed
pub mod Interleaved
use horsie_actor.Base.{
  ℕ, zero, suc, ◌+◌, Bool, true, false, ◌&&◌, not, Option, none, some, List, [], ◌∷◌, ◌++◌, map,
  foldl, any, retain, length, Text, Result, ok, err, EqTest, ◌==◌, nat_eq, list_eq, list_beq,
  list_beq_iff, if◌then◌else◌, arith, ◌≡◌, ◌↔◌,
}
use horsie_actor.Map.{Map, get, insert, remove, keys}
use horsie_actor.ActorPath.{ActorPath, path_beq, child, starts_with, is_valid_name}
use horsie_actor.Shard.{PlacedShard, shard_root, shard_root_of}

pub path_beq_iff : (p q : ActorPath) → (path_beq p q ≡ true) ↔ (p ≡ q)
path_beq_iff p q = ground (arith, list_beq_iff p.segments q.segments)

instance abbrev pub path_eq : EqTest ActorPath
path_eq = record { test = path_beq; test_iff = path_beq_iff }

pub data ActorOfError : Type 0 where
  unclaimed : ActorPath → ActorOfError
  type_collision : Text → ActorOfError
  invalid_name : Text → ActorOfError
  path_taken : ActorPath → ActorOfError
  not_serving : ActorOfError

-- One actor of the node: the type of its commands, and its mailbox.
pub record RegistryEntry : Type 0 where
  pub command_type : ℕ
  pub mailbox : ℕ

-- `live` is the map of the source. The tasks are beside it: which mailbox was given out for which
-- path, and which have ended, in the order in which they did.
pub record Registry : Type 0 where
  pub live : Map ActorPath RegistryEntry
  pub next_mailbox : ℕ
  pub spawned : List (ℕ × ActorPath)
  pub ended : List (ActorPath × ℕ)

abbrev pub empty_registry : Registry
empty_registry = record { live = []; next_mailbox = 0; spawned = []; ended = [] }

unfoldable pub has_ended : Registry → ℕ → Bool
has_ended s mailbox = any (λ e. e.1 == mailbox) s.ended

unfoldable pub is_alive : Registry → ℕ → Bool
unfolding has_ended
is_alive s mailbox = not (has_ended s mailbox)

-- `SystemInner::resolve`, for a caller whose commands are of the given type.
unfoldable pub resolve : Registry → ℕ → ActorPath → Option ℕ
unfolding is_alive
resolve s command_type path = elim (get s.live path) [
  | none ↦ none
  | some e ↦ if e.command_type == command_type && is_alive s e.mailbox then some e.mailbox else none
]

unfoldable pub hosted : Registry → ℕ
hosted s = length s.live

unfoldable pub check_name : Text → Result ActorOfError (Unit {0})
check_name name = if is_valid_name name then ok tt else err (invalid_name name)

-- `spawn_at` with the insertion of the new actor's entry.
unfoldable pub spawn : Registry → ℕ → ActorPath → ℕ × Registry
spawn s command_type path = (
  s.next_mailbox,
  record s {
    live = insert s.live path (record { command_type = command_type; mailbox = s.next_mailbox });
    next_mailbox = s.next_mailbox + 1;
    spawned = (s.next_mailbox, path) ∷ s.spawned;
  },
)

-- What `get_or_create` does under its lock.
unfoldable pub find_or_spawn : Registry → ℕ → ActorPath → Result ActorOfError ℕ × Registry
unfolding spawn is_alive
find_or_spawn s command_type path =
    let (mailbox, t) = spawn s command_type path in
    elim (get s.live path) [
      | none ↦ (ok mailbox, t)
      | some existing ↦
          if existing.command_type == command_type
          then (if is_alive s existing.mailbox then (ok existing.mailbox, s) else (ok mailbox, t))
          else (err (path_taken path), s)
    ]

unfoldable pub get_or_create :
    Registry → Bool → ActorPath → Text → ℕ → Result ActorOfError ℕ × Registry
unfolding find_or_spawn check_name
get_or_create s serving parent name command_type =
    if not serving then (err not_serving, s) else elim (check_name name) [
      | err e ↦ (err e, s)
      | ok _ ↦ find_or_spawn s command_type (child parent name)
    ]

-- Drop the entry for the path if it is still that of the mailbox.
unfoldable pub retire : Registry → ActorPath → ℕ → Registry
retire s path mailbox = elim (get s.live path) [
  | none ↦ s
  | some e ↦ if e.mailbox == mailbox then record s { live = remove s.live path } else s
]

-- Every live path strictly under the given one.
unfoldable pub doomed : Registry → ActorPath → List ActorPath
doomed s path = retain (λ p. starts_with p path && not (p == path)) (keys s.live)

abbrev pub end_task : Registry → ActorPath → ℕ → Registry
end_task s path mailbox = record s { ended = s.ended ++ (path, mailbox) ∷ [] }

abbrev pub unregister : Registry → ActorPath → Registry
unregister s path = record s { live = remove s.live path }

-- `halt`, when nothing else runs while it waits: the entry goes, and the actor's task, told to stop,
-- runs to its end: it retires, stops what is below it, and ends. Each halt takes an entry, so the number of entries is fuel enough.
unfoldable pub halt : ℕ → Registry → ActorPath → Registry
unfolding retire doomed
halt zero s path = s
halt (suc fuel) s path = elim (get s.live path) [
  | none ↦ s
  | some e ↦
      let quiet = retire (unregister s path) path e.mailbox in
      end_task (foldl (halt fuel) quiet (doomed quiet path)) path e.mailbox
]

unfoldable pub stop_descendants : Registry → ActorPath → Registry
unfolding halt doomed
stop_descendants s path = foldl (halt (length s.live)) s (doomed s path)

abbrev pub is_here : Option RegistryEntry → Bool
is_here none = false
is_here (some e) = true

-- `stop_at`, when nothing else runs while it waits.
unfoldable pub stop_at : Registry → ActorPath → Bool × Registry
unfolding halt stop_descendants
stop_at s path = (is_here (get s.live path), stop_descendants (halt (length s.live) s path) path)

-- The end of `run_actor`, for an actor that stops by itself, when nothing else runs meanwhile.
unfoldable pub finish : Registry → ActorPath → ℕ → Registry
unfolding retire stop_descendants
finish s path mailbox = end_task (stop_descendants (retire s path mailbox) path) path mailbox
