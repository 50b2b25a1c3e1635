-- ===== src/Delivery/Remembering.antt =====
-- The window of src/cluster/delivery.rs beside a receiver that forgets no id.
use horsie_actor.Base.{
  ℕ, ◌≤◌, ◌≡◌, true, false, List, [], ◌∷◌, ◌==◌, nat_eq, length, arith, Bool-cases, inl, inr,
  ==_iff,
}
use horsie_actor.Delivery.{Dedup, contains, accept_id}
use horsie_actor.Delivery.Window.{
  IsWindow, pushed_order, accept_id_lem, contains-cons, contains-push,
}
use horsie_actor.Delivery.Redelivery.{Held, pushed-Held, remembered, fresh-Held}

-- What was given lately is held for as long as the later ids come, and of those the window has no
-- other.
pub record Follows (d : Dedup) (given later : List ℕ) : Type 0 where
  pub window : IsWindow d
  pub few : length later ≤ d.capacity
  pub held : (id : ℕ) → contains given id ≡ true → Held d.order d.capacity id (length later)
  pub fresh :
      (id : ℕ) → contains given id ≡ false → contains later id ≡ true → contains d.order id ≡ false

Held-fewer :
    {order : List ℕ} {capacity id more less : ℕ}
    → Held order capacity id more
    → less ≤ more
    → Held order capacity id less
Held-fewer h e = record {
  before = h.before;
  after = h.after;
  splits = h.splits;
  room = omega (arith, h.room, e);
}

contains-pushed_order :
    (capacity x id : ℕ) (order : List ℕ)
    → (x == id) ≡ false
    → contains order id ≡ false
    → contains (pushed_order capacity order x) id ≡ false
unfolding pushed_order contains
contains-pushed_order capacity x id [] other none_there = ground (arith, other)
contains-pushed_order capacity x id (oldest ∷ rest) other none_there =
    ground (arith, other, none_there, contains-push rest x id)

-- One that was given already is refused.
pub Follows-old :
    (d : Dedup) (given later : List ℕ) (id : ℕ)
    → Follows d given (id ∷ later)
    → contains given id ≡ true
    → ((accept_id d id).0 ≡ false) × Follows d given later
unfolding contains
Follows-old d given later id f old = (
  remembered d id [] f.window (Held-fewer (f.held id old) (omega arith)),
  record {
    window = f.window;
    few = omega (arith, f.few);
    held = λ x h. Held-fewer (f.held x h) (omega arith);
    fresh = λ x new there. f.fresh x new (ground (arith, there));
  },
)

-- One that was not is taken, and is one of those that were from then on.
pub Follows-new :
    (d : Dedup) (given later : List ℕ) (id : ℕ)
    → Follows d given (id ∷ later)
    → contains given id ≡ false
    → ((accept_id d id).0 ≡ true) × Follows (accept_id d id).1 (id ∷ given) later
Follows-new d given later id f new =
    let absent = f.fresh id new (ground (arith, contains-cons id id later)) in
    elim (accept_id_lem d id f.window) [
      | inl (held, e) ↦ absurd (ground (arith, held, absent))
      | inr (none_held, p) ↦ (
        p.0,
        record {
          window = p.3;
          few = rw p.2 (omega (arith, f.few));
          held = λ x h.
              rw (p.1, p.2)
                (elim (Bool-cases (id == x)) [
                  | inl same ↦
                      rw (← (==_iff id x).0 same)
                        (fresh-Held d.order d.capacity id (length later) (omega (arith, f.few)))
                  | inr other ↦
                      let before = f.held x (ground (arith, h, other, contains-cons id x given)) in
                      rw before.splits (
                        pushed-Held before.before before.after d.capacity x id (length later)
                          before.room)
                ]);
          fresh = λ x unseen there.
              let apart : (id == x) ≡ false = ground (arith, unseen, contains-cons id x given) in
              rw p.1 (
                contains-pushed_order d.capacity id x d.order apart (
                  f.fresh x (ground (arith, unseen, contains-cons id x given))
                    (ground (arith, there, contains-cons id x later))));
        },
      )
    ]
