-- ===== src/Registry/Reached.antt =====
-- The invariant of the registry in src/system.rs: an actor that has not ended is the one that is
-- registered at its path, where stops and ends are done in one go.
use horsie_actor.Base.{
  ℕ, ◌<◌, ◌≡◌, ◌⊎◌, sym, ap, ◌∙◌, true, false, some, [], ◌∷◌, ◌==◌, nat_eq, nat_beq_iff, arith,
  Bool-cases, inl, inr, All-append,
}
use horsie_actor.Map.{get}
use horsie_actor.ActorPath.{ActorPath}
use horsie_actor.Registry.{
  Registry, path_eq, empty_registry, has_ended, retire, end_task, stop_descendants, finish,
}
use horsie_actor.Registry.Order.{any-append}
use horsie_actor.Registry.Sweeping.{stop_at-Sweep, stop_descendants-Sweep}
use horsie_actor.Registry.Instances.{
  was_spawned, IsTracked, IsFiled, IsRegistry, Step, creates, finishes, stops, Reach, start, next,
  spawned-below, Sweep-IsTracked, Sweep-IsFiled, Sweep-IsRegistry, retire-kept, retire-live,
}
use horsie_actor.Registry.Creation.{get_or_create-IsRegistry}

pub retire-IsFiled : (s : Registry) (p : ActorPath) (m : ℕ) → IsFiled s → IsFiled (retire s p m)
retire-IsFiled s p m i =
    let (spawned, ended, next_mailbox) = retire-kept s p m in
    record {
      fresh = rw (spawned, next_mailbox) i.fresh;
      ended_fresh = rw (ended, next_mailbox) i.ended_fresh;
      filed = λ r x live. elim (retire-live s p m r) [
        | inl same ↦ rw spawned (i.filed r x (sym same ∙ live))
        | inr (_, _, gone) ↦ ground (arith, gone, live)
      ];
    }

retire-IsTracked :
    (s : Registry) (p : ActorPath) (m n : ℕ) (r : ActorPath)
    → (m == n) ≡ false
    → IsTracked s n r
    → IsTracked (retire s p m) n r
unfolding has_ended
retire-IsTracked s p m n r apart (inl over) = inl (rw (retire-kept s p m).1 over)
retire-IsTracked s p m n r apart (inr (x, live, same)) = elim (retire-live s p m r) [
  | inl kept ↦ inr (x, kept ∙ live, same)
  | inr (here, (y, found, ours), gone) ↦
      let entry : some y ≡ some x = sym found ∙ (ap (get s.live) here ∙ live) in
      ground (arith, entry, ours, same, apart, nat_beq_iff m n)
]

end-IsTracked :
    (s : Registry) (p : ActorPath) (m n : ℕ) (r : ActorPath)
    → ((m == n) ≡ true) ⊎ IsTracked s n r
    → IsTracked (end_task s p m) n r
unfolding has_ended
end-IsTracked s p m n r (inl ours) =
    inl (any-append (λ e. e.1 == n) s.ended ((p, m) ∷ []) ∙ ground (arith, ours))
end-IsTracked s p m n r (inr (inl over)) =
    inl (any-append (λ e. e.1 == n) s.ended ((p, m) ∷ []) ∙ ground (arith, over))
end-IsTracked s p m n r (inr (inr there)) = inr there

finish-IsRegistry :
    (s : Registry) (p : ActorPath) (m : ℕ)
    → was_spawned s m p ≡ true
    → IsRegistry s
    → IsRegistry (finish s p m)
unfolding finish
finish-IsRegistry s p m given i =
    let retired = retire s p m in
    let quiet = stop_descendants retired p in
    let swept = stop_descendants-Sweep retired p in
    let files = Sweep-IsFiled swept (retire-IsFiled s p m i.files) in
    let (spawned, ended, next_mailbox) = retire-kept s p m in
    record {
      files = record {
        fresh = files.fresh;
        ended_fresh =
            All-append (λ e. e.1 < quiet.next_mailbox) quiet.ended ((p, m) ∷ []) files.ended_fresh
              (
                rw (swept.next_mailbox, next_mailbox)
                    (spawned-below s.next_mailbox m p s.spawned i.files.fresh given),
                tt,
              );
        filed = files.filed;
      };
      tracked = λ n r h. elim (Bool-cases (m == n)) [
        | inl ours ↦ end-IsTracked quiet p m n r (inl ours)
        | inr apart ↦ end-IsTracked quiet p m n r (
            inr (
              Sweep-IsTracked swept n r (
                retire-IsTracked s p m n r apart
                  (i.tracked n r (rw (swept.spawned, spawned) at h)))))
      ];
    }

empty-IsRegistry : IsRegistry empty_registry
empty-IsRegistry = record {
  files = record { fresh = tt; ended_fresh = tt; filed = λ p x h. unfold get in ground (arith, h) };
  tracked = λ m p h. ground (arith, h);
}

pub Step-IsRegistry : {s t : Registry} → Step s t → IsRegistry s → IsRegistry t
Step-IsRegistry {s} (creates serving parent name ty) i =
    get_or_create-IsRegistry s serving parent name ty i
Step-IsRegistry {s} (finishes p m given) i = finish-IsRegistry s p m given i
Step-IsRegistry {s} (stops p) i = Sweep-IsRegistry (stop_at-Sweep s p) i

pub Reach-IsRegistry : {s : Registry} → Reach s → IsRegistry s
Reach-IsRegistry start = empty-IsRegistry
Reach-IsRegistry (next r step) = Step-IsRegistry step (Reach-IsRegistry r)
