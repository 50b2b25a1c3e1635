-- ===== src/Registry/Creation.antt =====
-- The invariant of the registry in src/system.rs where an actor is found or created.
use horsie_actor.Base.{
  ℕ, ◌≡◌, ◌⊎◌, refl, ap, ◌∙◌, Bool, true, false, ◌&&◌, none, some, Text, ◌==◌, nat_eq, arith,
  Bool-cases, Option-cases, Result-cases, inl, inr, All-map,
}
use horsie_actor.Map.{get, get-insert}
use horsie_actor.ActorPath.{ActorPath, child}
use horsie_actor.Registry.{
  Registry, RegistryEntry, path_eq, path_beq_iff, has_ended, is_alive, check_name, spawn,
  find_or_spawn, get_or_create,
}
use horsie_actor.Registry.Instances.{was_spawned, IsRegistry}

find_or_spawn-free :
    (s : Registry) (ty : ℕ) (path : ActorPath)
    → get s.live path ≡ none
    → (find_or_spawn s ty path).1 ≡ (spawn s ty path).1
unfolding find_or_spawn
find_or_spawn-free s ty path e = rw (e, find_or_spawn)

find_or_spawn-ended :
    (s : Registry) (ty : ℕ) (path : ActorPath) (x : RegistryEntry)
    → get s.live path ≡ some x
    → has_ended s x.mailbox ≡ true
    → ((find_or_spawn s ty path).1 ≡ s) ⊎ ((find_or_spawn s ty path).1 ≡ (spawn s ty path).1)
unfolding find_or_spawn is_alive
find_or_spawn-ended s ty path x e over = elim (Bool-cases (x.command_type == ty)) [
  | inl same ↦ inr (rw (e, find_or_spawn, same, over))
  | inr other ↦ inl (rw (e, find_or_spawn, other))
]

find_or_spawn-alive :
    (s : Registry) (ty : ℕ) (path : ActorPath) (x : RegistryEntry)
    → get s.live path ≡ some x
    → has_ended s x.mailbox ≡ false
    → (find_or_spawn s ty path).1 ≡ s
unfolding find_or_spawn is_alive
find_or_spawn-alive s ty path x e alive = elim (Bool-cases (x.command_type == ty)) [
  | inl same ↦ rw (e, find_or_spawn, same, alive)
  | inr other ↦ rw (e, find_or_spawn, other)
]

find_or_spawn-spawns :
    (s : Registry) (ty : ℕ) (path : ActorPath)
    → ((find_or_spawn s ty path).1 ≡ s) ⊎ ((find_or_spawn s ty path).1 ≡ (spawn s ty path).1)
find_or_spawn-spawns s ty path = elim (Option-cases (get s.live path)) [
  | inl e ↦ inr (find_or_spawn-free s ty path e)
  | inr (y, e) ↦ elim (Bool-cases (has_ended s y.mailbox)) [
    | inl over ↦ find_or_spawn-ended s ty path y e over
    | inr alive ↦ inl (find_or_spawn-alive s ty path y e alive)
  ]
]

-- Creation leaves the registry as it is, or gives out the next mailbox at the child's path.
pub get_or_create-spawns :
    (s : Registry) (serving : Bool) (parent : ActorPath) (name : Text) (ty : ℕ)
    → ((get_or_create s serving parent name ty).1 ≡ s)
      ⊎ ((get_or_create s serving parent name ty).1 ≡ (spawn s ty (child parent name)).1)
unfolding get_or_create
get_or_create-spawns s false parent name ty = inl refl
get_or_create-spawns s true parent name ty = elim (Result-cases (check_name name)) [
  | inl (a, e) ↦ rw (e, get_or_create) (find_or_spawn-spawns s ty (child parent name))
  | inr (a, e) ↦ inl (rw (e, get_or_create))
]

-- `find_or_spawn` gives a path out again only when nothing is registered there, or what is has ended.
find_or_spawn-free_path :
    (s : Registry) (ty : ℕ) (path : ActorPath)
    → ((find_or_spawn s ty path).1 ≡ s)
      ⊎ (((find_or_spawn s ty path).1 ≡ (spawn s ty path).1)
          × ((x : RegistryEntry) → get s.live path ≡ some x → has_ended s x.mailbox ≡ true))
find_or_spawn-free_path s ty path = elim (Option-cases (get s.live path)) [
  | inl e ↦ inr (find_or_spawn-free s ty path e, λ x h. ground (arith, e, h))
  | inr (y, e) ↦ elim (Bool-cases (has_ended s y.mailbox)) [
    | inr alive ↦ inl (find_or_spawn-alive s ty path y e alive)
    | inl over ↦ elim (find_or_spawn-ended s ty path y e over) [
      | inl same ↦ inl same
      | inr new ↦ inr (new, λ x h. ground (arith, e, h, over))
    ]
  ]
]

pub get_or_create-free :
    (s : Registry) (serving : Bool) (parent : ActorPath) (name : Text) (ty : ℕ)
    → ((get_or_create s serving parent name ty).1 ≡ s)
      ⊎ (((get_or_create s serving parent name ty).1 ≡ (spawn s ty (child parent name)).1)
          × ((x : RegistryEntry)
              → get s.live (child parent name) ≡ some x
              → has_ended s x.mailbox ≡ true))
unfolding get_or_create
get_or_create-free s false parent name ty = inl refl
get_or_create-free s true parent name ty = elim (Result-cases (check_name name)) [
  | inl (a, e) ↦ rw (e, get_or_create) (find_or_spawn-free_path s ty (child parent name))
  | inr (a, e) ↦ inl (rw (e, get_or_create))
]

-- The mailbox is out, by the given test, or it is what is registered at the path.
abbrev pub IsHeld : (ℕ → Bool) → Registry → ℕ → ActorPath → Type 0
IsHeld out s m p =
    (out m ≡ true) ⊎ ((x : RegistryEntry) × (get s.live p ≡ some x) × (x.mailbox ≡ m))

pub spawn-IsHeld :
    (out : ℕ → Bool) (s : Registry) (ty : ℕ) (path : ActorPath)
    → ((x : RegistryEntry) → get s.live path ≡ some x → out x.mailbox ≡ true)
    → ((m : ℕ) (p : ActorPath) → was_spawned s m p ≡ true → IsHeld out s m p)
    → (m : ℕ) (p : ActorPath) → was_spawned (spawn s ty path).1 m p ≡ true
    → IsHeld out (spawn s ty path).1 m p
unfolding spawn
spawn-IsHeld out s ty path free old m p h =
    let entry : RegistryEntry = record { command_type = ty; mailbox = s.next_mailbox } in
    let at = get-insert s.live path p entry in
    elim (Bool-cases (s.next_mailbox == m && path == p)) [
      | inl new ↦ inr (entry, ground (arith, at, new), ground (arith, new))
      | inr other ↦ elim (old m p (ground (arith, h, other))) [
        | inl over ↦ inl over
        | inr (x, live, same) ↦ elim (Bool-cases (path == p)) [
          | inr apart ↦ inr (x, ground (arith, at, apart, live), same)
          | inl here ↦
              let there : get s.live path ≡ some x =
                ap (get s.live) ((path_beq_iff path p).0 here) ∙ live in
              inl (rw (← same) (free x there))
        ]
      ]
    ]

spawn-IsRegistry :
    (s : Registry) (ty : ℕ) (path : ActorPath)
    → ((x : RegistryEntry) → get s.live path ≡ some x → has_ended s x.mailbox ≡ true)
    → IsRegistry s
    → IsRegistry (spawn s ty path).1
unfolding spawn has_ended
spawn-IsRegistry s ty path free i = record {
  files = record {
    fresh = (omega arith, All-map s.spawned (λ e h. omega (arith, h)) i.files.fresh);
    ended_fresh = All-map s.ended (λ e h. omega (arith, h)) i.files.ended_fresh;
    filed = λ p x live. ground (
      arith,
      live,
      path_beq_iff path p,
      i.files.filed p x,
      get-insert s.live path p (record { command_type = ty; mailbox = s.next_mailbox }),
    );
  };
  tracked = spawn-IsHeld (has_ended s) s ty path free i.tracked;
}

pub find_or_spawn-IsRegistry :
    (s : Registry) (ty : ℕ) (path : ActorPath)
    → IsRegistry s
    → IsRegistry (find_or_spawn s ty path).1
find_or_spawn-IsRegistry s ty path i = elim (Option-cases (get s.live path)) [
  | inl e ↦
      rw (find_or_spawn-free s ty path e)
        (spawn-IsRegistry s ty path (λ x h. ground (arith, e, h)) i)
  | inr (y, e) ↦ elim (Bool-cases (has_ended s y.mailbox)) [
    | inl over ↦ elim (find_or_spawn-ended s ty path y e over) [
      | inl same ↦ rw same i
      | inr new ↦ rw new (spawn-IsRegistry s ty path (λ x h. ground (arith, e, h, over)) i)
    ]
    | inr alive ↦ rw (find_or_spawn-alive s ty path y e alive) i
  ]
]

pub get_or_create-IsRegistry :
    (s : Registry) (serving : Bool) (parent : ActorPath) (name : Text) (ty : ℕ)
    → IsRegistry s
    → IsRegistry (get_or_create s serving parent name ty).1
unfolding get_or_create
get_or_create-IsRegistry s false parent name ty i = i
get_or_create-IsRegistry s true parent name ty i = elim (Result-cases (check_name name)) [
  | inl (a, e) ↦ rw (e, get_or_create) (find_or_spawn-IsRegistry s ty (child parent name) i)
  | inr (a, e) ↦ rw (e, get_or_create) i
]
