-- ===== src/Registry/Interleaved.antt =====
-- The registry of src/system.rs while actors are on their way out: `halt` takes the entry and raises the
-- signal, then waits; the task of the actor (`run_actor` of src/runtime.rs) retires, waits for what is
-- below it, and ends. Here each of these is a step of its own, and anything falls between.
pub mod Serial
use horsie_actor.Base.{
  ℕ, ◌≡◌, refl, sym, ap, ◌∙◌, Bool, true, ◌||◌, some, List, [], ◌∷◌, any, Text, ◌==◌, nat_eq,
  ==_refl, nat_beq_iff, arith, Bool-cases, inl, inr,
}
use horsie_actor.Map.{get}
use horsie_actor.ActorPath.{ActorPath, child}
use horsie_actor.Registry.{
  Registry, RegistryEntry, path_eq, empty_registry, has_ended, get_or_create, spawn, retire,
  end_task, unregister,
}
use horsie_actor.Registry.Order.{any-append}
use horsie_actor.Registry.Instances.{was_spawned, retire-kept, retire-live}
use horsie_actor.Registry.Creation.{IsHeld, spawn-IsHeld, get_or_create-free}

-- `leaving` are the mailboxes whose actor was asked to stop, or has retired by itself.
pub record Tasks : Type 0 where
  pub registry : Registry
  pub leaving : List ℕ

abbrev pub is_leaving : List ℕ → ℕ → Bool
is_leaving leaving m = any (λ n. n == m) leaving

-- The actor has ended, or it is on its way out.
abbrev pub is_out : Tasks → ℕ → Bool
is_out v m = has_ended v.registry m || is_leaving v.leaving m

-- An actor is created or found; a `halt` takes an entry and asks its actor to stop; a task whose serving
-- is over retires; a task is over, be it by a panic.
pub data Step (v : Tasks) : Tasks → Type 0 where
  creates :
      (serving : Bool) (parent : ActorPath) (name : Text) (command_type : ℕ)
      → Step v
          (record v { registry = (get_or_create v.registry serving parent name command_type).1 })
  asks :
      (p : ActorPath) (x : RegistryEntry)
      → get v.registry.live p ≡ some x
      → Step v (record { registry = unregister v.registry p; leaving = x.mailbox ∷ v.leaving })
  retires :
      (p : ActorPath) (m : ℕ)
      → Step v (record { registry = retire v.registry p m; leaving = m ∷ v.leaving })
  ends : (p : ActorPath) (m : ℕ) → Step v (record v { registry = end_task v.registry p m })

pub data Reach : Tasks → Type 0 where
  start : Reach (record { registry = empty_registry; leaving = [] })
  next : {v w : Tasks} → Reach v → Step v w → Reach w

-- What was given out is out, or registered at its path.
abbrev pub IsManned : Tasks → Type 0
IsManned v =
    (m : ℕ) (p : ActorPath) → was_spawned v.registry m p ≡ true → IsHeld (is_out v) v.registry m p

creates-IsManned :
    (v : Tasks) (serving : Bool) (parent : ActorPath) (name : Text) (ty : ℕ)
    → IsManned v
    → IsManned (record v { registry = (get_or_create v.registry serving parent name ty).1 })
unfolding spawn
creates-IsManned v serving parent name ty i =
    elim (get_or_create-free v.registry serving parent name ty) [
      | inl same ↦ rw same i
      | inr (new, free) ↦ rw new (
          unfold has_ended in
          spawn-IsHeld (is_out v) v.registry ty (child parent name)
            (λ x there. ground (arith, free x there)) i)
    ]

retires-IsManned :
    (v : Tasks) (p : ActorPath) (m : ℕ)
    → IsManned v
    → IsManned (record { registry = retire v.registry p m; leaving = m ∷ v.leaving })
unfolding has_ended
retires-IsManned v p m i n r h =
    let (spawned, ended, _) = retire-kept v.registry p m in
    elim (Bool-cases (m == n)) [
      | inl ours ↦ inl (ground (arith, ours))
      | inr apart ↦ elim (i n r (rw spawned at h)) [
        | inl out ↦ inl (rw ended (ground (arith, out)))
        | inr (x, live, same) ↦ elim (retire-live v.registry p m r) [
          | inl kept ↦ inr (x, kept ∙ live, same)
          | inr (here, (y, found, mine), gone) ↦
              let entry : some y ≡ some x = sym found ∙ (ap (get v.registry.live) here ∙ live) in
              ground (arith, entry, mine, same, apart, nat_beq_iff m n)
        ]
      ]
    ]

unregister-retire :
    (s : Registry) (p : ActorPath) (x : RegistryEntry)
    → get s.live p ≡ some x
    → retire s p x.mailbox ≡ unregister s p
unfolding retire
unregister-retire s p x e = rw (e, retire, ==_refl x.mailbox) refl

asks-IsManned :
    (v : Tasks) (p : ActorPath) (m : ℕ) (t : Registry)
    → retire v.registry p m ≡ t
    → IsManned v
    → IsManned (record { registry = t; leaving = m ∷ v.leaving })
asks-IsManned v p m t e i = rw (← e) (retires-IsManned v p m i)

pub Step-IsManned : {v w : Tasks} → Step v w → IsManned v → IsManned w
Step-IsManned {v} (creates serving parent name ty) i = creates-IsManned v serving parent name ty i
Step-IsManned {v} (asks p x e) i =
    asks-IsManned v p x.mailbox (unregister v.registry p) (unregister-retire v.registry p x e) i
Step-IsManned {v} (retires p m) i = retires-IsManned v p m i
Step-IsManned {v} (ends p m) i = λ n r h. elim (i n r h) [
  | inl out ↦ inl (
      unfold has_ended in
      rw (any-append (λ e. e.1 == n) v.registry.ended ((p, m) ∷ [])) (ground (arith, out)))
  | inr there ↦ inr there
]

pub Reach-IsManned : {v : Tasks} → Reach v → IsManned v
Reach-IsManned start = λ m p h. ground (arith, h)
Reach-IsManned (next r step) = Step-IsManned step (Reach-IsManned r)
