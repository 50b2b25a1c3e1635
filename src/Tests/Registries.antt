-- ===== src/Tests/Registries.antt =====
-- The theorems on the registry and on references at a pool with one worker.
use horsie_actor.Base.{
  ℕ, ◌≡◌, refl, true, none, some, [], ◌∷◌, ◌++◌, codes, Text, Result, err, list_eq, ◌+◌, ◌&&◌, not,
  ◌==◌, nat_eq, List, Bool, false, ltb, All, if◌then◌else◌,
}
use horsie_actor.Map.{get, insert}
use horsie_actor.ActorPath.{ActorPath, child, starts_with, is_valid_name}
use horsie_actor.Effect.{Flow}
use horsie_actor.Lifecycle.{Wait, Race, received, completed, run_actor}
use horsie_actor.Lifecycle.Ending.{run_actor-ends}
use horsie_actor.Registry.{
  Registry, RegistryEntry, path_eq, empty_registry, is_alive, has_ended, get_or_create, resolve,
  stop_at, unregister, is_here,
}
use horsie_actor.Registry.Order.{WasLive, ChildrenFirst}
use horsie_actor.Registry.Sweeping.{stop_at-ended}
use horsie_actor.Registry.Instances.{Reach, Steps, stay, then, start, next, creates, was_spawned}
use horsie_actor.Registry.Interleaved as Interleaved
use horsie_actor.Registry.Interleaved.{Tasks}
use horsie_actor.Registry.Typed.{resolve-one_type}
use horsie_actor.ActorRef.{TellError, World, undeliverable}

abbrev pool : ActorPath
pool = record { segments = codes "pool" ∷ [] }

abbrev worker : ActorPath
worker = record { segments = codes "pool" ∷ codes "w" ∷ [] }

abbrev top : ActorPath
top = record { segments = [] }

abbrev with_pool : Registry
with_pool = (get_or_create empty_registry true top (codes "pool") 7).1

abbrev with_worker : Registry
with_worker = (get_or_create with_pool true pool (codes "w") 8).1

with_worker-Reach : Reach with_worker
with_worker-Reach =
    next (next start (creates true top (codes "pool") 7)) (creates true pool (codes "w") 8)

worker_spawned : was_spawned with_worker 1 worker ≡ true
unfolding get_or_create is_valid_name get insert child
worker_spawned = refl

worker_alive : is_alive with_worker 1 ≡ true
unfolding get_or_create is_valid_name get insert child is_alive
worker_alive = refl

abbrev worker_mailbox : ℕ
worker_mailbox = 1

-- The worker is asked to stop, and while it still runs another is made.
abbrev without_worker : Registry
without_worker = unregister with_worker worker

abbrev with_heir : Registry
with_heir = (get_or_create without_worker true pool (codes "w") 8).1

abbrev heir : Tasks
heir = record { registry = with_heir; leaving = 1 ∷ [] }

abbrev heir_mailbox : ℕ
heir_mailbox = 2

abbrev worker_type : ℕ
worker_type = 8

abbrev second : Text
second = codes "x"

abbrev with_second : Registry
with_second = (get_or_create with_worker true pool second 9).1

with_second-Steps : Steps with_worker with_second
with_second-Steps = (then) stay (creates true pool second 9)

worker_found : resolve with_worker 8 worker ≡ some worker_mailbox
unfolding get_or_create is_valid_name get insert child is_alive resolve
worker_found = refl

still_found : resolve with_second 8 worker ≡ some worker_mailbox
unfolding get_or_create is_valid_name get insert child is_alive resolve
still_found = refl

resolve-one_type_example : worker_type ≡ worker_type
resolve-one_type_example =
    resolve-one_type with_worker-Reach with_second-Steps worker worker_mailbox worker_type
      worker_type worker_found still_found

stop_at-ended_example :
    ((r : ActorPath)
      → get (stop_at with_worker pool).1.live r
        ≡ (if starts_with r pool then none else get with_worker.live r))
    × ((r : ActorPath) (x : RegistryEntry)
        → starts_with r pool ≡ true
        → get with_worker.live r ≡ some x
        → has_ended (stop_at with_worker pool).1 x.mailbox ≡ true)
    × ((new : List (ActorPath × ℕ)) × ((stop_at with_worker pool).1.ended
          ≡ with_worker.ended ++ new)
        × All (WasLive with_worker) new
        × All (λ e. starts_with e.0 pool ≡ true) new
        × ChildrenFirst new)
    × ((stop_at with_worker pool).0 ≡ is_here (get with_worker.live pool))
stop_at-ended_example = stop_at-ended with_worker pool

abbrev nowhere : ℕ → ℕ → ℕ → Result TellError (Unit {0}) × ℕ
nowhere link cmd w = (err undeliverable, w)

abbrev world : World ℕ ℕ
world = record { registry = with_heir; delivered = []; outside = 0 }

-- An adder that stops at ten.
abbrev add : ℕ → ℕ → Flow × ℕ
add total n = (elim (ltb (total + n) 10) [ true ↦ Flow.continue | false ↦ Flow.stop ], total + n)

abbrev turns : List (Wait ℕ × Race)
turns = (received 2, completed) ∷ (received 3, completed) ∷ []

abbrev last_turn : Wait ℕ × Race
last_turn = (received 5, completed)

abbrev unread : List (Wait ℕ × Race)
unread = (received 4, completed) ∷ []

abbrev starts : ℕ → Bool × ℕ
starts total = (true, total)

run_actor-ends_example :
    let (over, t) = run_actor add starts pool 0 0 (turns ++ last_turn ∷ unread) with_worker in
    (over ≡ true)
    × (is_alive t 0 ≡ false)
    × ((r : ActorPath) → starts_with r pool && not (r == pool) ≡ true → get t.live r ≡ none)
    × ((x : RegistryEntry) → get t.live pool ≡ some x → (x.mailbox == 0) ≡ false)
run_actor-ends_example = run_actor-ends add starts pool 0 0 turns last_turn unread with_worker refl
