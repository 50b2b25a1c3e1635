-- ===== src/Registry/Typed.antt =====
-- The type of a mailbox's commands in src/system.rs: `resolve` hands a mailbox, as a channel of the
-- caller's command type, to whoever asks at its path.
use horsie_actor.Base.{
  ℕ, ◌<◌, ◌≤◌, ◌≡◌, sym, ◌∙◌, ◌&&◌, some, ◌==◌, nat_eq, nat_beq_iff, arith, Bool-cases,
  Option-cases, inl, inr,
}
use horsie_actor.Map.{get, get-insert}
use horsie_actor.ActorPath.{ActorPath, child}
use horsie_actor.Registry.{
  Registry, RegistryEntry, path_eq, is_alive, resolve, spawn, retire, finish,
}
use horsie_actor.Registry.Order.{Sweep}
use horsie_actor.Registry.Sweeping.{stop_at-Sweep, stop_descendants-Sweep}
use horsie_actor.Registry.Instances.{
  Reach, Step, Steps, stay, then, creates, finishes, stops, retire-kept, retire-live, spawned-below,
}
use horsie_actor.Registry.Creation.{get_or_create-spawns}
use horsie_actor.Registry.Reached.{Reach-IsRegistry}

-- An entry for a mailbox that had been given out before is the entry of before.
record IsLater (s t : Registry) : Type 0 where
  grows : s.next_mailbox ≤ t.next_mailbox
  was_there :
      (p : ActorPath) (x : RegistryEntry)
      → get t.live p ≡ some x
      → x.mailbox < s.next_mailbox
      → get s.live p ≡ some x

IsLater-trans : {s t u : Registry} → IsLater s t → IsLater t u → IsLater s u
IsLater-trans {s} {t} {u} a b = record {
  grows = omega (arith, a.grows, b.grows);
  was_there = λ p x h old. a.was_there p x (b.was_there p x h (omega (arith, old, a.grows))) old;
}

IsLater-refl : (s : Registry) → IsLater s s
IsLater-refl s = record { grows = omega arith; was_there = λ p x h old. h }

Sweep-IsLater : {top : ActorPath} {s t : Registry} → Sweep top s t → IsLater s t
Sweep-IsLater {s} {t} w = record {
  grows = rw w.next_mailbox (omega arith);
  was_there = λ p x h old. elim (w.shrinks p) [
    | inl gone ↦ ground (arith, gone, h)
    | inr kept ↦ sym kept ∙ h
  ];
}

retire-IsLater : (s : Registry) (p : ActorPath) (m : ℕ) → IsLater s (retire s p m)
retire-IsLater s p m = record {
  grows = let (_, _, same) = retire-kept s p m in rw same (omega arith);
  was_there = λ r x h old. elim (retire-live s p m r) [
    | inl same ↦ sym same ∙ h
    | inr (_, _, gone) ↦ ground (arith, gone, h)
  ];
}

spawn-IsLater : (s : Registry) (ty : ℕ) (path : ActorPath) → IsLater s (spawn s ty path).1
unfolding spawn
spawn-IsLater s ty path = record {
  grows = omega arith;
  was_there = λ p x h old. ground (
    arith,
    h,
    old,
    get-insert s.live path p (record { command_type = ty; mailbox = s.next_mailbox }),
  );
}

finish-IsLater : (s : Registry) (p : ActorPath) (m : ℕ) → IsLater s (finish s p m)
unfolding finish
finish-IsLater s p m =
    let swept =
      IsLater-trans (retire-IsLater s p m)
        (Sweep-IsLater (stop_descendants-Sweep (retire s p m) p)) in
    record { grows = swept.grows; was_there = swept.was_there }

Step-IsLater : {s t : Registry} → Step s t → IsLater s t
Step-IsLater {s} (creates serving parent name ty) =
    elim (get_or_create-spawns s serving parent name ty) [
      | inl same ↦ rw same (IsLater-refl s)
      | inr new ↦ rw new (spawn-IsLater s ty (child parent name))
    ]
Step-IsLater {s} (finishes p m given) = finish-IsLater s p m
Step-IsLater {s} (stops p) = Sweep-IsLater (stop_at-Sweep s p)

Steps-IsLater : {s t : Registry} → Steps s t → IsLater s t
Steps-IsLater {s} stay = IsLater-refl s
Steps-IsLater (then steps step) = IsLater-trans (Steps-IsLater steps) (Step-IsLater step)

-- What is resolved is the registered mailbox, asked for by its own type.
pub resolve-entry :
    (s : Registry) (ty : ℕ) (p : ActorPath) (m : ℕ)
    → resolve s ty p ≡ some m
    → (x : RegistryEntry) × (get s.live p ≡ some x) × (x.mailbox ≡ m) × (x.command_type ≡ ty)
unfolding resolve
resolve-entry s ty p m h = elim (Option-cases (get s.live p)) [
  | inl e ↦ ground (arith, h, e)
  | inr (x, e) ↦ elim (Bool-cases (x.command_type == ty && is_alive s x.mailbox)) [
    | inl both ↦
        (x, e, ground (arith, h, e, both), ground (arith, both, nat_beq_iff x.command_type ty))
    | inr other ↦ ground (arith, h, e, other)
  ]
]

-- In a run of the registry from its empty state, a mailbox that is found at a path for commands of
-- one type is, however actors are created, ended and stopped after that, found there for commands
-- of no other type.
pub resolve-one_type :
    {s t : Registry}
    → Reach s
    → Steps s t
    → (p : ActorPath) (m ty other : ℕ) → resolve s ty p ≡ some m
    → resolve t other p ≡ some m
    → other ≡ ty
resolve-one_type {s} {t} r steps p m ty other before after =
    let (x, there, mine, typed) = resolve-entry s ty p m before in
    let (y, here, same, as_other) = resolve-entry t other p m after in
    let files = (Reach-IsRegistry r).files in
    let old =
      spawned-below s.next_mailbox x.mailbox p s.spawned files.fresh (files.filed p x there) in
    let entry = (Steps-IsLater steps).was_there p y here (omega (arith, old, mine, same)) in
    let one : some x ≡ some y = sym there ∙ entry in ground (arith, one, typed, as_other)
