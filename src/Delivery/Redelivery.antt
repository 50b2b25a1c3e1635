-- ===== src/Delivery/Redelivery.antt =====
-- A redelivery in src/cluster/delivery.rs: how long the window remembers an id.
use horsie_actor.Base.{
  ℕ, suc, ◌+◌, ◌<◌, ◌≡◌, refl, ap, true, false, List, [], ◌∷◌, ◌++◌, nat_eq, length, length-append,
  arith, inl, inr,
}
use mathlib.Core.List.{append_assoc}
use native.Mathlib.Decide.{dec_lt}
use horsie_actor.Delivery.{Dedup, contains, accept_id}
use horsie_actor.Delivery.Window.{IsWindow, pushed_order, accept_id_lem}

-- The deliveries that follow, in order.
abbrev pub deliveries : Dedup → List ℕ → Dedup
deliveries d [] = d
deliveries d (id ∷ rest) = deliveries (accept_id d id).1 rest

-- The window holds the id, and has room for `more` new ones before it leaves.
pub record Held (order : List ℕ) (capacity id more : ℕ) : Type 0 where
  pub before : List ℕ
  pub after : List ℕ
  pub splits : order ≡ before ++ id ∷ after
  pub room : length after + more < capacity

pub pushed-Held :
    (before after : List ℕ) (capacity id x more : ℕ)
    → length after + suc more < capacity
    → Held (pushed_order capacity (before ++ id ∷ after) x) capacity id more
unfolding pushed_order
pushed-Held [] after capacity id x more room = record {
  before = [];
  after = after ++ x ∷ [];
  splits = ground arith;
  room = omega (arith, length-append after (x ∷ []));
}
pushed-Held (oldest ∷ before) after capacity id x more room =
    elim (dec_lt capacity (length (before ++ id ∷ after) + 2)) [
      | yes over ↦ record {
        before = before;
        after = after ++ x ∷ [];
        splits = ground (arith, append_assoc before (id ∷ after) (x ∷ []));
        room = omega (arith, length-append after (x ∷ []));
      }
      | no under ↦ record {
        before = oldest ∷ before;
        after = after ++ x ∷ [];
        splits = ground (arith, append_assoc before (id ∷ after) (x ∷ []));
        room = omega (arith, length-append after (x ∷ []));
      }
    ]

Held-contains : (before after : List ℕ) (id : ℕ) → contains (before ++ id ∷ after) id ≡ true
unfolding contains
Held-contains [] after id = ground arith
Held-contains (x ∷ before) after id = ground (arith, Held-contains before after id)

pub remembered :
    (d : Dedup) (id : ℕ) (ids : List ℕ)
    → IsWindow d
    → Held d.order d.capacity id (length ids)
    → (accept_id (deliveries d ids) id).0 ≡ false
remembered d id [] w h =
    let there : contains d.order id ≡ true = rw h.splits (Held-contains h.before h.after id) in
    elim (accept_id_lem d id w) [ inl (held, e) ↦ ap (λ r. r.0) e | inr (new, p) ↦ ground arith ]
remembered d id (x ∷ ids) w h = elim (accept_id_lem d x w) [
  | inl (held, e) ↦
      let same : (accept_id d x).1 ≡ d = ap (λ r. r.1) e in
      rw same (
        remembered d id ids w (record {
          before = h.before;
          after = h.after;
          splits = h.splits;
          room = omega (arith, h.room);
        }))
  | inr (new, p) ↦
      remembered (accept_id d x).1 id ids p.3
        (rw (p.1, p.2, h.splits) (pushed-Held h.before h.after d.capacity id x (length ids) h.room))
]

pub fresh-Held :
    (order : List ℕ) (capacity id more : ℕ)
    → more < capacity
    → Held (pushed_order capacity order id) capacity id more
unfolding pushed_order
fresh-Held [] capacity id more h = record {
  before = [];
  after = [];
  splits = refl;
  room = omega arith;
}
fresh-Held (oldest ∷ rest) capacity id more h = elim (dec_lt capacity (length rest + 2)) [
  | yes over ↦ record { before = rest; after = []; splits = ground arith; room = omega arith }
  | no under ↦ record {
    before = oldest ∷ rest;
    after = [];
    splits = ground arith;
    room = omega arith;
  }
]

-- An id that was accepted is refused again after any further deliveries, new or repeated, that are
-- fewer than the capacity.
pub redelivery :
    (d : Dedup) (id : ℕ) (ids : List ℕ)
    → IsWindow d
    → (accept_id d id).0 ≡ true
    → length ids < d.capacity
    → (accept_id (deliveries (accept_id d id).1 ids) id).0 ≡ false
redelivery d id ids w new few = elim (accept_id_lem d id w) [
  | inl (held, e) ↦ ground (arith, ap (λ r. r.0) e)
  | inr (fresh, p) ↦
      remembered (accept_id d id).1 id ids p.3
        (rw (p.1, p.2) (fresh-Held d.order d.capacity id (length ids) few))
]
