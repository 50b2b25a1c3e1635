-- ===== src/Registry/Instances.antt =====
-- Every registry of src/system.rs that creating, ending and stopping actors leads to.
use horsie_actor.Base.{
  ℕ, ◌<◌, ◌≡◌, ◌⊎◌, refl, sym, ◌∙◌, Bool, true, ◌&&◌, none, some, List, [], ◌∷◌, any, Text, ◌==◌,
  nat_eq, nat_beq_iff, arith, Bool-cases, Option-cases, inl, inr, All, All-append, All-map,
}
use horsie_actor.Map.{get, get-remove}
use horsie_actor.ActorPath.{ActorPath}
use horsie_actor.Registry.{
  Registry, RegistryEntry, path_eq, path_beq_iff, empty_registry, has_ended, get_or_create, retire,
  stop_at, finish,
}
use horsie_actor.Registry.Order.{Sweep, WasLive, any-append}

-- The mailbox was given out for the path.
abbrev pub was_spawned : Registry → ℕ → ActorPath → Bool
was_spawned s m p = any (λ e. e.0 == m && e.1 == p) s.spawned

-- The mailbox has ended, or it is what is registered at the path.
abbrev pub IsTracked : Registry → ℕ → ActorPath → Type 0
IsTracked s m p =
    (has_ended s m ≡ true) ⊎ ((x : RegistryEntry) × (get s.live p ≡ some x) × (x.mailbox ≡ m))

-- Mailboxes are given out once, and what is registered was given out for its path.
pub record IsFiled (s : Registry) : Type 0 where
  pub fresh : All (λ e. e.0 < s.next_mailbox) s.spawned
  pub ended_fresh : All (λ e. e.1 < s.next_mailbox) s.ended
  pub filed :
      (p : ActorPath) (x : RegistryEntry) → get s.live p ≡ some x → was_spawned s x.mailbox p ≡ true

-- Whatever was given out and has not ended is registered at its path.
pub record IsRegistry (s : Registry) : Type 0 where
  pub files : IsFiled s
  pub tracked : (m : ℕ) (p : ActorPath) → was_spawned s m p ≡ true → IsTracked s m p

-- An actor is created or found, one that was created ends by itself, or a path is stopped.
pub data Step (s : Registry) : Registry → Type 0 where
  creates :
      (serving : Bool) (parent : ActorPath) (name : Text) (command_type : ℕ)
      → Step s (get_or_create s serving parent name command_type).1
  finishes : (p : ActorPath) (m : ℕ) → was_spawned s m p ≡ true → Step s (finish s p m)
  stops : (p : ActorPath) → Step s (stop_at s p).1

pub data Reach : Registry → Type 0 where
  start : Reach empty_registry
  next : {s t : Registry} → Reach s → Step s t → Reach t

-- What creating, ending and stopping actors makes of a registry, in any number of steps.
pub data Steps (s : Registry) : Registry → Type 0 where
  stay : Steps s s
  then : {t u : Registry} → Steps s t → Step t u → Steps s u

pub spawned-below :
    (bound m : ℕ) (p : ActorPath) (xs : List (ℕ × ActorPath))
    → All (λ e. e.0 < bound) xs
    → any (λ e. e.0 == m && e.1 == p) xs ≡ true
    → m < bound
spawned-below bound m p [] a h = ground arith
spawned-below bound m p (x ∷ xs) a h =
    ground (arith, nat_beq_iff x.0 m, spawned-below bound m p xs a.1)

pub Sweep-IsTracked :
    {top : ActorPath} {s t : Registry}
    → Sweep top s t
    → (m : ℕ) (p : ActorPath) → IsTracked s m p
    → IsTracked t m p
unfolding has_ended
Sweep-IsTracked {s} {t} w m p (inl over) =
    inl (rw (w.ended, any-append (λ e. e.1 == m) s.ended w.new) (ground (arith, over)))
Sweep-IsTracked {s} {t} w m p (inr (x, live, same)) = elim (w.shrinks p) [
  | inr kept ↦ inr (x, kept ∙ live, same)
  | inl gone ↦
      let new : any (λ e. e.1 == m) w.new ≡ true = rw (← same) (w.complete p x live gone) in
      inl (rw (w.ended, any-append (λ e. e.1 == m) s.ended w.new) (ground (arith, new)))
]

Sweep-ended_fresh :
    {top : ActorPath} {s t : Registry}
    → Sweep top s t
    → IsFiled s
    → All (λ e. e.1 < s.next_mailbox) t.ended
Sweep-ended_fresh {s} {t} w i = rw w.ended (
    All-append (λ e. e.1 < s.next_mailbox) s.ended w.new i.ended_fresh
      (All-map w.new below w.were_live))
  where
    below : (e : ActorPath × ℕ) → WasLive s e → e.1 < s.next_mailbox
    below e (x, live, same) =
        rw (← same)
          (spawned-below s.next_mailbox x.mailbox e.0 s.spawned i.fresh (i.filed e.0 x live))

pub Sweep-IsFiled : {top : ActorPath} {s t : Registry} → Sweep top s t → IsFiled s → IsFiled t
Sweep-IsFiled {s} {t} w i = record {
  fresh = rw (w.spawned, w.next_mailbox) i.fresh;
  ended_fresh = rw w.next_mailbox (Sweep-ended_fresh w i);
  filed = λ p x live. elim (w.shrinks p) [
    | inl gone ↦ ground (arith, gone, live)
    | inr kept ↦ rw w.spawned (i.filed p x (sym kept ∙ live))
  ];
}

pub Sweep-IsRegistry :
    {top : ActorPath} {s t : Registry} → Sweep top s t → IsRegistry s → IsRegistry t
Sweep-IsRegistry w i = record {
  files = Sweep-IsFiled w i.files;
  tracked = λ m p h. Sweep-IsTracked w m p (i.tracked m p (rw w.spawned at h));
}

pub retire-kept :
    (s : Registry) (p : ActorPath) (m : ℕ)
    → ((retire s p m).spawned ≡ s.spawned)
      × ((retire s p m).ended ≡ s.ended)
      × ((retire s p m).next_mailbox ≡ s.next_mailbox)
unfolding retire
retire-kept s p m = elim (Option-cases (get s.live p)) [
  | inl e ↦ ground (arith, e)
  | inr (x, e) ↦ ground (arith, e)
]

pub retire-live :
    (s : Registry) (p : ActorPath) (m : ℕ) (r : ActorPath)
    → (get (retire s p m).live r ≡ get s.live r)
      ⊎ ((p ≡ r)
          × ((x : RegistryEntry) × (get s.live p ≡ some x) × (x.mailbox ≡ m))
          × (get (retire s p m).live r ≡ none))
unfolding retire
retire-live s p m r = elim (Option-cases (get s.live p)) [
  | inl e ↦ inl (rw (e, retire))
  | inr (x, e) ↦ elim (Bool-cases (x.mailbox == m)) [
    | inr other ↦ inl (rw (e, retire, other))
    | inl ours ↦ elim (Bool-cases (p == r)) [
      | inr apart ↦ inl (rw (e, retire, ours) (get-remove s.live p r ∙ rw apart refl))
      | inl here ↦ inr (
        (path_beq_iff p r).0 here,
        (x, e, (nat_beq_iff x.mailbox m).0 ours),
        rw (e, retire, ours) (get-remove s.live p r ∙ rw here refl),
      )
    ]
  ]
]
