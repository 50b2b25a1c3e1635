-- ===== src/Registry/Sweeping.antt =====
-- The order in which actors end when src/system.rs stops a subtree, and that all of them do.
use horsie_actor.Base.{
  ℕ, zero, suc, ◌≤◌, ◌≡◌, ◌⊎◌, refl, sym, ap, ◌∙◌, true, false, ◌&&◌, not, none, some, List, [],
  ◌∷◌, ◌++◌, foldl, any, retain, length, ◌==◌, nat_eq, arith, Bool-cases, Option-cases, inl, inr,
  ==_refl, if◌then◌else◌, All, All-append, All-map,
}
use mathlib.Core.List.{append_assoc}
use horsie_actor.Map.{get, remove, keys, get-remove}
use horsie_actor.ActorPath.{ActorPath, starts_with}
use horsie_actor.Registry.{
  Registry, RegistryEntry, path_eq, path_beq_iff, doomed, unregister, end_task, halt,
  stop_descendants, stop_at, has_ended, is_here,
}
use horsie_actor.Registry.Prefixes.{starts_with_refl, starts_with_antisym}
use horsie_actor.Registry.Stopping.{halt_found, halt_missing, halt-get, stop_at-get}
use horsie_actor.Registry.Shrinking.{length-halt-le, length-remove-lt, get_empty}
use horsie_actor.Registry.Order.{
  Sweep-trans, Sweep-refl, Sweep-weaken, ChildrenFirst, ChildrenFirst-append, WasLive, IsQuiet,
  Sweep, any-append,
}

abbrev Sweeps : ℕ → Type 0
Sweeps fuel = (s : Registry) (p : ActorPath) → length s.live ≤ fuel → Sweep p s (halt fuel s p)

foldl-Sweep :
    (fuel : ℕ)
    → Sweeps fuel
    → (top : ActorPath) (s : Registry) (ps : List ActorPath)
    → All (λ p. starts_with p top ≡ true) ps
    → length s.live ≤ fuel
    → Sweep top s (foldl (halt fuel) s ps)
foldl-Sweep fuel h top s [] under fits = Sweep-refl top s
foldl-Sweep fuel h top s (p ∷ ps) under fits =
    Sweep-trans (Sweep-weaken top p under.0 (h s p fits))
      (foldl-Sweep fuel h top (halt fuel s p) ps under.1 (omega (arith, length-halt-le fuel s p)))

some_injective : {x y : RegistryEntry} → some x ≡ some y → x ≡ y
some_injective h = ground (arith, h)

doomed-under :
    (p : ActorPath) (ps : List ActorPath)
    → All (λ q. starts_with q p ≡ true) (retain (λ q. starts_with q p && not (q == p)) ps)
doomed-under p [] = tt
doomed-under p (q ∷ ps) = ground (arith, doomed-under p ps)

-- An actor ends after everything that was below it.
module _ (s t : Registry) (p : ActorPath) (e : RegistryEntry) (there : get s.live p ≡ some e)
    (w : Sweep p (unregister s p) t)
    (gone : (r : ActorPath) → starts_with r p ≡ true → get t.live r ≡ none) where
  was_registered : (x : ActorPath × ℕ) → WasLive (unregister s p) x → WasLive s x
  was_registered x (entry, live, same) =
      (entry, ground (arith, live, get-remove s.live p x.0), same)

  not_above :
      (x : ActorPath × ℕ)
      → starts_with x.0 p ≡ true
      → WasLive (unregister s p) x
      → starts_with p x.0 ≡ false
  not_above x under (entry, live, same) = elim (Bool-cases (starts_with p x.0)) [
    | inr other ↦ other
    | inl over ↦
        let equal : p ≡ x.0 = starts_with_antisym p x.0 over under in
        ground (arith, live, get-remove s.live p x.0, (path_beq_iff p x.0).1 equal)
  ]

  all_not_above :
      (xs : List (ActorPath × ℕ))
      → All (λ x. starts_with x.0 p ≡ true) xs
      → All (WasLive (unregister s p)) xs
      → All
          (λ (x : ActorPath × ℕ).
            All (λ (q : ActorPath × ℕ). starts_with q.0 x.0 ≡ false) ((p, e.mailbox) ∷ []))
          xs
  all_not_above [] a b = tt
  all_not_above (x ∷ xs) a b = ((not_above x a.0 b.0, tt), all_not_above xs a.1 b.1)

  gone_or_kept : (r : ActorPath) → (get t.live r ≡ none) ⊎ (get t.live r ≡ get s.live r)
  gone_or_kept r = elim (Bool-cases (starts_with r p)) [
    | inl under ↦ inl (gone r under)
    | inr other ↦ elim (w.shrinks r) [
      | inl out ↦ inl out
      | inr same ↦ elim (Bool-cases (p == r)) [
        | inl equal ↦ inl (ground (arith, same, equal, get-remove s.live p r))
        | inr differ ↦ inr (ground (arith, same, differ, get-remove s.live p r))
      ]
    ]
  ]

  has_ended_too :
      (r : ActorPath) (x : RegistryEntry)
      → get s.live r ≡ some x
      → get t.live r ≡ none
      → any (λ q. q.1 == x.mailbox) (w.new ++ (p, e.mailbox) ∷ []) ≡ true
  has_ended_too r x live out = elim (Bool-cases (p == r)) [
    | inl equal ↦
        let same : p ≡ r = (path_beq_iff p r).0 equal in
        let entry : e ≡ x = some_injective (sym there ∙ (ap (get s.live) same ∙ live)) in
        rw (any-append (λ q. q.1 == x.mailbox) w.new ((p, e.mailbox) ∷ []), entry)
          (ground (arith, ==_refl x.mailbox))
    | inr differ ↦
        let kept : get (remove s.live p) r ≡ some x =
          ground (arith, live, differ, get-remove s.live p r) in
        rw (any-append (λ q. q.1 == x.mailbox) w.new ((p, e.mailbox) ∷ []))
          (ground (arith, w.complete r x kept out))
  ]

  Sweep-end : Sweep p s (end_task t p e.mailbox)
  Sweep-end = record {
    new = w.new ++ (p, e.mailbox) ∷ [];
    ended =
        ap (λ z. z ++ (p, e.mailbox) ∷ []) w.ended
        ∙ append_assoc s.ended w.new ((p, e.mailbox) ∷ []);
    spawned = w.spawned;
    next_mailbox = w.next_mailbox;
    within =
        All-append (λ x. starts_with x.0 p ≡ true) w.new ((p, e.mailbox) ∷ []) w.within
          (starts_with_refl p, tt);
    ordered =
        ChildrenFirst-append w.new ((p, e.mailbox) ∷ []) w.ordered (tt, tt)
          (all_not_above w.new w.within w.were_live);
    were_live =
        All-append (WasLive s) w.new ((p, e.mailbox) ∷ [])
          (All-map w.new was_registered w.were_live) ((e, there, refl), tt);
    quiet = All-append (IsQuiet t) w.new ((p, e.mailbox) ∷ []) w.quiet (gone, tt);
    shrinks = gone_or_kept;
    complete = has_ended_too;
  }

pub halt-Sweep : (fuel : ℕ) → Sweeps fuel
halt-Sweep zero s p fits = rw (halt_missing zero s p (get_empty s.live p fits)) (Sweep-refl p s)
halt-Sweep (suc fuel) s p fits = elim (Option-cases (get s.live p)) [
  | inl e ↦ rw (halt_missing (suc fuel) s p e) (Sweep-refl p s)
  | inr (x, e) ↦
      let rest = unregister s p in
      let small : length rest.live ≤ fuel = omega (arith, length-remove-lt s.live p x e) in
      let below : List ActorPath = doomed rest p in
      let swept : Sweep p rest (foldl (halt fuel) rest below) =
        foldl-Sweep fuel (halt-Sweep fuel) p rest below
          (unfold doomed in doomed-under p (keys rest.live)) small in
      let gone : (r : ActorPath)
          → starts_with r p ≡ true
          → get (foldl (halt fuel) rest below).live r ≡ none =
        λ r under. ground (
          arith,
          e,
          under,
          halt-get (suc fuel) s p r fits,
          ap (λ z. get z.live r) (halt_found fuel s p x e),
        ) in
      rw (halt_found fuel s p x e) (Sweep-end s (foldl (halt fuel) rest below) p x e swept gone)
]

pub stop_descendants-Sweep : (s : Registry) (p : ActorPath) → Sweep p s (stop_descendants s p)
unfolding stop_descendants
stop_descendants-Sweep s p =
    foldl-Sweep (length s.live) (halt-Sweep (length s.live)) p s (doomed s p)
      (unfold doomed in doomed-under p (keys s.live)) (omega arith)

pub stop_at-Sweep : (s : Registry) (p : ActorPath) → Sweep p s (stop_at s p).1
unfolding stop_at
stop_at-Sweep s p =
    Sweep-trans (halt-Sweep (length s.live) s p (omega arith))
      (stop_descendants-Sweep (halt (length s.live) s p) p)

Sweep-has_ended :
    {top : ActorPath} {s t : Registry}
    → Sweep top s t
    → (r : ActorPath) (x : RegistryEntry) → get s.live r ≡ some x
    → get t.live r ≡ none
    → has_ended t x.mailbox ≡ true
unfolding has_ended
Sweep-has_ended {s} {t} w r x live gone =
    rw (w.ended, any-append (λ e. e.1 == x.mailbox) s.ended w.new)
      (ground (arith, w.complete r x live gone))

-- A stop at a path, run with nothing between its steps, leaves nothing live there or below, and every
-- other path as it was. Each actor that was live there or below has ended, each that ended was live
-- there or below, and none ended before one that was below it. The stop reports whether an actor was at
-- the path itself.
pub stop_at-ended :
    (s : Registry) (p : ActorPath)
    → ((r : ActorPath)
        → get (stop_at s p).1.live r ≡ (if starts_with r p then none else get s.live r))
      × ((r : ActorPath) (x : RegistryEntry)
          → starts_with r p ≡ true
          → get s.live r ≡ some x
          → has_ended (stop_at s p).1 x.mailbox ≡ true)
      × ((new : List (ActorPath × ℕ)) × ((stop_at s p).1.ended ≡ s.ended ++ new)
          × All (WasLive s) new
          × All (λ e. starts_with e.0 p ≡ true) new
          × ChildrenFirst new)
      × ((stop_at s p).0 ≡ is_here (get s.live p))
stop_at-ended s p =
    let w = stop_at-Sweep s p in
    let (lives, found) = stop_at-get s p in
    (
      lives,
      λ r x under live. Sweep-has_ended w r x live (lives r ∙ rw under refl),
      (w.new, w.ended, w.were_live, w.within, w.ordered),
      found,
    )
