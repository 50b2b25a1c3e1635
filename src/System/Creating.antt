-- ===== src/System/Creating.antt =====
-- What creating an actor leaves in the registry of src/system.rs, and its recipe's use by a delivery.
use horsie_actor.Base.{
  ℕ, ◌<◌, ◌≡◌, ◌⊎◌, refl, Bool, true, false, some, List, [], ◌∷◌, any, Text, Result, ok, err, ◌==◌,
  nat_eq, nat_beq_iff, ==_refl, arith, Bool-cases, Option-cases, Result-cases, inl, inr, All,
}
use horsie_actor.Map.{get, get-insert_self}
use horsie_actor.ActorPath.{ActorPath, child}
use horsie_actor.Registry.{
  Registry, path_eq, ActorOfError, has_ended, is_alive, resolve, check_name, spawn, find_or_spawn,
  get_or_create, path_taken, not_serving,
}
use horsie_actor.Registry.Instances.{IsRegistry, Reach}
use horsie_actor.Registry.Reached.{Reach-IsRegistry}

ended-below :
    (bound : ℕ) (xs : List (ActorPath × ℕ))
    → All (λ e. e.1 < bound) xs
    → any (λ e. e.1 == bound) xs ≡ false
ended-below bound [] a = refl
ended-below bound (x ∷ xs) a = ground (arith, nat_beq_iff x.1 bound, ended-below bound xs a.1)

-- A mailbox is found again once it is found.
resolve-find_or_spawn :
    (s : Registry) (ty : ℕ) (path : ActorPath) (m : ℕ)
    → resolve s ty path ≡ some m
    → find_or_spawn s ty path ≡ (ok m, s)
unfolding resolve find_or_spawn
resolve-find_or_spawn s ty path m h = elim (Option-cases (get s.live path)) [
  | inl e ↦ absurd (ground (arith, h, e))
  | inr (x, e) ↦ elim (Bool-cases (x.command_type == ty)) [
    | inr other ↦ absurd (ground (arith, h, e, other))
    | inl same ↦ elim (Bool-cases (is_alive s x.mailbox)) [
      | inr over ↦ absurd (ground (arith, h, e, same, over))
      | inl alive ↦ rw (e, same, alive, find_or_spawn) (ground (arith, h, e, same, alive))
    ]
  ]
]

spawn-resolve :
    (s : Registry) (ty : ℕ) (path : ActorPath)
    → IsRegistry s
    → resolve (spawn s ty path).1 ty path ≡ some s.next_mailbox
unfolding resolve spawn is_alive has_ended
spawn-resolve s ty path i =
    rw
      (
        get-insert_self s.live path (record { command_type = ty; mailbox = s.next_mailbox }),
        resolve,
        ==_refl ty,
        ended-below s.next_mailbox s.ended i.files.ended_fresh,
      )
      refl

-- Creation at a path gives a mailbox that is resolved there, or changes nothing.
abbrev pub Creates : Registry → ℕ → ActorPath → Result ActorOfError ℕ × Registry → Type 0
Creates s ty path made =
    ((m : ℕ) × (made.0 ≡ ok m) × (resolve made.1 ty path ≡ some m))
    ⊎ ((e : ActorOfError) × (made ≡ (err e, s)))

find_or_spawn-Creates :
    (s : Registry) (ty : ℕ) (path : ActorPath)
    → IsRegistry s
    → Creates s ty path (find_or_spawn s ty path)
unfolding find_or_spawn
find_or_spawn-Creates s ty path i = elim (Option-cases (get s.live path)) [
  | inl e ↦ inl (
    s.next_mailbox,
    rw (e, find_or_spawn) refl,
    rw (e, find_or_spawn) (spawn-resolve s ty path i),
  )
  | inr (x, e) ↦ elim (Bool-cases (x.command_type == ty)) [
    | inr other ↦ inr (path_taken path, rw (e, other, find_or_spawn) refl)
    | inl same ↦ elim (Bool-cases (is_alive s x.mailbox)) [
      | inr over ↦ inl (
        s.next_mailbox,
        rw (e, same, over, find_or_spawn) refl,
        rw (e, same, over, find_or_spawn) (spawn-resolve s ty path i),
      )
      | inl alive ↦
          let found : resolve s ty path ≡ some x.mailbox =
            unfold resolve in rw (e, resolve, same, alive) refl in
          let at = resolve-find_or_spawn s ty path x.mailbox found in
          inl (x.mailbox, rw at refl, rw at found)
    ]
  ]
]

pub get_or_create-Creates :
    (s : Registry) (serving : Bool) (parent : ActorPath) (name : Text) (ty : ℕ)
    → IsRegistry s
    → Creates s ty (child parent name) (get_or_create s serving parent name ty)
unfolding get_or_create
get_or_create-Creates s false parent name ty i = inr (not_serving, refl)
get_or_create-Creates s true parent name ty i = elim (Result-cases (check_name name)) [
  | inl (a, e) ↦ rw (e, get_or_create) (find_or_spawn-Creates s ty (child parent name) i)
  | inr (a, e) ↦ inr (a, rw (e, get_or_create) refl)
]

get_or_create-found :
    (s : Registry) (serving : Bool) (parent : ActorPath) (name : Text) (ty m n : ℕ) (t : Registry)
    → (get_or_create s serving parent name ty).0 ≡ ok m
    → resolve t ty (child parent name) ≡ some n
    → get_or_create t serving parent name ty ≡ (ok n, t)
unfolding get_or_create
get_or_create-found s false parent name ty m n t h k = absurd (ground (arith, h))
get_or_create-found s true parent name ty m n t h k = elim (Result-cases (check_name name)) [
  | inl (a, e) ↦ rw (e, get_or_create) (resolve-find_or_spawn t ty (child parent name) n k)
  | inr (a, e) ↦ absurd (ground (arith, h, e))
]

-- On the registry of a run, asking for an actor by parent, name and command type gives a mailbox
-- that is resolved at the child's path from then on, and asking again gives the same mailbox and
-- changes nothing; or it is an error that left the registry as it was.
pub get_or_create-twice :
    (s : Registry) (serving : Bool) (parent : ActorPath) (name : Text) (ty : ℕ)
    → Reach s
    → let t = (get_or_create s serving parent name ty).1 in
      ((m : ℕ) × ((get_or_create s serving parent name ty).0 ≡ ok m)
        × (resolve t ty (child parent name) ≡ some m)
        × (get_or_create t serving parent name ty ≡ (ok m, t)))
      ⊎ ((e : ActorOfError) × (get_or_create s serving parent name ty ≡ (err e, s)))
get_or_create-twice s serving parent name ty r =
    let t = (get_or_create s serving parent name ty).1 in
    elim (get_or_create-Creates s serving parent name ty (Reach-IsRegistry r)) [
      | inl (m, made, found) ↦
          inl (m, made, found, get_or_create-found s serving parent name ty m m t made found)
      | inr (e, made) ↦ inr (e, made)
    ]
