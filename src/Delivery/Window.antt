-- ===== src/Delivery/Window.antt =====
-- The window of src/cluster/delivery.rs: its set and its queue agree, it is bounded, and it knows
-- again what it accepted last, as many ids as its capacity holds.
use horsie_actor.Base.{
  ℕ, suc, ◌+◌, ◌≤◌, ◌<◌, ◌≡◌, refl, ◌∙◌, Bool, true, false, List, [], ◌∷◌, ◌++◌, ◌==◌, nat_eq, ltb,
  length, length-append, if◌then◌else◌, arith, Bool-cases, inl, inr, ◌⊎◌,
}
use native.Mathlib.Decide.{dec_lt}
use horsie_actor.Delivery.{Dedup, with_capacity, contains, set_remove, accept_id}

abbrev pub Distinct : List ℕ → Type 0
Distinct [] = Unit {0}
Distinct (x ∷ xs) = (contains xs x ≡ false) × Distinct xs

-- The set and the queue hold the same ids, none twice, and never more than the capacity.
pub record IsWindow (d : Dedup) : Type 0 where
  pub same : (id : ℕ) → contains d.seen id ≡ contains d.order id
  pub distinct : Distinct d.order
  pub bounded : length d.order ≤ d.capacity
  pub room : 0 < d.capacity

pub contains-push :
    (xs : List ℕ) (y id : ℕ)
    → contains (xs ++ y ∷ []) id ≡ (if y == id then true else contains xs id)
unfolding contains
contains-push [] y id = ground arith
contains-push (x ∷ xs) y id = ground (arith, contains-push xs y id)

contains-set_remove :
    (xs : List ℕ) (y id : ℕ)
    → contains (set_remove xs y) id ≡ (if y == id then false else contains xs id)
unfolding contains set_remove
contains-set_remove [] y id = ground arith
contains-set_remove (x ∷ xs) y id = ground (arith, contains-set_remove xs y id)

Distinct-push :
    (xs : List ℕ) (y : ℕ) → Distinct xs → contains xs y ≡ false → Distinct (xs ++ y ∷ [])
unfolding contains
Distinct-push [] y d h = (refl, tt)
Distinct-push (x ∷ xs) y d h =
    (ground (arith, contains-push xs y x, d.0), Distinct-push xs y d.1 (ground arith))

-- What a new id does to the queue: it goes to the end, and the oldest one leaves if the bound is
-- passed.
unfoldable pub pushed_order : ℕ → List ℕ → ℕ → List ℕ
pushed_order capacity [] id = id ∷ []
pushed_order capacity (oldest ∷ rest) id =
    if ltb capacity (suc (suc (length rest))) then rest ++ id ∷ [] else oldest ∷ (rest ++ id ∷ [])

abbrev window : List ℕ → List ℕ → ℕ → Dedup
window seen order capacity = record { seen = seen; order = order; capacity = capacity }

module _ (seen : List ℕ) (oldest : ℕ) (rest : List ℕ) (capacity id : ℕ)
    (fresh : contains seen id ≡ false) where
  accept_evicts :
      capacity < length rest + 2
      → accept_id (window seen (oldest ∷ rest) capacity) id
        ≡ (true, window (set_remove (id ∷ seen) oldest) (rest ++ id ∷ []) capacity)
  unfolding accept_id
  accept_evicts over = ground (arith, fresh, length-append rest (id ∷ []))

  accept_grows :
      length rest + 2 ≤ capacity
      → accept_id (window seen (oldest ∷ rest) capacity) id
        ≡ (true, window (id ∷ seen) (oldest ∷ (rest ++ id ∷ [])) capacity)
  unfolding accept_id
  accept_grows under = ground (arith, fresh, length-append rest (id ∷ []))

accept_first :
    (seen : List ℕ) (capacity id : ℕ)
    → contains seen id ≡ false
    → 0 < capacity
    → accept_id (window seen [] capacity) id ≡ (true, window (id ∷ seen) (id ∷ []) capacity)
unfolding accept_id
accept_first seen capacity id fresh h = ground (arith, fresh)

pub contains-cons :
    (x id : ℕ) (xs : List ℕ) → contains (x ∷ xs) id ≡ (if x == id then true else contains xs id)
unfolding contains
contains-cons x id xs = refl

-- What a fresh id leads to: it is accepted and pushed, and the window stays one.
abbrev pub Pushed : List ℕ → ℕ → ℕ → Bool × Dedup → Type 0
Pushed order capacity id r =
    (r.0 ≡ true)
    × (r.1.order ≡ pushed_order capacity order id)
    × (r.1.capacity ≡ capacity)
    × IsWindow r.1

fresh-Pushed :
    (seen order : List ℕ) (capacity id : ℕ)
    → IsWindow (window seen order capacity)
    → contains order id ≡ false
    → Pushed order capacity id (accept_id (window seen order capacity) id)
unfolding pushed_order
fresh-Pushed seen [] capacity id w h = rw (accept_first seen capacity id (w.same id ∙ h) w.room) (
  refl,
  refl,
  refl,
  record {
    same = λ x. ground (arith, contains-cons id x seen, contains-cons id x [], w.same x);
    distinct = (h, tt);
    bounded = w.room;
    room = w.room;
  },
)
fresh-Pushed seen (oldest ∷ rest) capacity id w h =
    let fresh : contains seen id ≡ false = w.same id ∙ h in
    let tail : contains rest id ≡ false = ground (arith, contains-cons oldest id rest) in
    elim (dec_lt capacity (length rest + 2)) [
      | yes over ↦ rw (accept_evicts seen oldest rest capacity id fresh over) (
        refl,
        ground arith,
        refl,
        record {
          same = λ x. ground (
            arith,
            contains-set_remove (id ∷ seen) oldest x,
            contains-cons id x seen,
            contains-push rest id x,
            w.same x,
            contains-cons oldest x rest,
            w.distinct.0,
            h,
            contains-cons oldest id rest,
          );
          distinct = Distinct-push rest id w.distinct.1 tail;
          bounded = omega (arith, length-append rest (id ∷ []), w.bounded);
          room = w.room;
        },
      )
      | no under ↦ rw (accept_grows seen oldest rest capacity id fresh (omega arith)) (
        refl,
        ground arith,
        refl,
        record {
          same = λ x. ground (
            arith,
            contains-cons id x seen,
            contains-cons oldest x (rest ++ id ∷ []),
            contains-push rest id x,
            w.same x,
            contains-cons oldest x rest,
          );
          distinct = (
            ground
                (arith, contains-push rest id oldest, w.distinct.0, contains-cons oldest id rest),
            Distinct-push rest id w.distinct.1 tail,
          );
          bounded = omega (arith, length-append rest (id ∷ []));
          room = w.room;
        },
      )
    ]

-- An id is accepted exactly if the window does not hold it. A repeat changes nothing; a new id goes
-- to the end of the queue, pushing the oldest one out if the bound is passed; and either way the
-- set and the queue go on to hold the same ids, none twice, and never more than the capacity.
pub accept_id_lem :
    (d : Dedup) (id : ℕ)
    → IsWindow d
    → ((contains d.order id ≡ true) × (accept_id d id ≡ (false, d)))
      ⊎ ((contains d.order id ≡ false) × Pushed d.order d.capacity id (accept_id d id))
accept_id_lem d id w = elim (Bool-cases (contains d.order id)) [
  | inl held ↦
      let known : contains d.seen id ≡ true = w.same id ∙ held in
      inl (held, unfold accept_id in ground (arith, known))
  | inr new ↦ inr (new, fresh-Pushed d.seen d.order d.capacity id w new)
]

pub with_capacity-IsWindow : (n : ℕ) → IsWindow (with_capacity n)
unfolding with_capacity contains
with_capacity-IsWindow n = record {
  same = λ id. refl;
  distinct = tt;
  bounded = omega arith;
  room = ground arith;
}
