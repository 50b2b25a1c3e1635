-- ===== src/Asking/Table.antt =====
-- What the table of callers of src/cluster/node.rs keeps when a row comes or goes.
use horsie_actor.Base.{
  ℕ, ◌≢◌, List, [], ◌∷◌, ◌==◌, nat_eq, ==_iff, All, arith, if_both, ltb, length, Bool-cases, inl,
  inr,
}
use horsie_actor.Map.{Map, remove, btree_insert}
use horsie_actor.Node.{pop_over, waiting_capacity}

module _ {Deliver : Type 0} (P : ℕ × Deliver → Type 0) where
  pub All-btree_insert :
      (m : Map ℕ Deliver) (k : ℕ) (v : Deliver) → All P m → P (k, v) → All P (btree_insert m k v)
  unfolding btree_insert
  All-btree_insert [] k v h here = (here, tt)
  All-btree_insert ((i, w) ∷ rest) k v h here =
      if_both (All P) (ltb k i) (λ _. (here, h))
        (λ _.
          if_both (All P) (k == i) (λ _. (here, h.1))
            (λ _. (h.0, All-btree_insert rest k v h.1 here)))

  pub All-pop_over : (m : Map ℕ Deliver) → All P m → All P (pop_over m)
  unfolding pop_over
  All-pop_over [] h = tt
  All-pop_over (oldest ∷ rest) h =
      if_both (All P) (ltb waiting_capacity (length (oldest ∷ rest))) (λ _. All-pop_over rest h.1)
        (λ _. h)

-- The key that is removed is not there.
pub remove-absent : {V : Type 0} (m : Map ℕ V) (k : ℕ) → All (λ e. k ≢ e.0) (remove m k)
unfolding remove
remove-absent [] k = tt
remove-absent ((j, v) ∷ m) k = elim (Bool-cases (j == k)) [
  | inl same ↦ rw same (remove-absent m k)
  | inr other ↦ rw other ((λ e. ground (arith, other, e, ==_iff j k)), remove-absent m k)
]

pub All-both :
    {A : Type 0} {P Q R : A → Type 0} (xs : List A)
    → ((a : A) → P a → Q a → R a)
    → All P xs
    → All Q xs
    → All R xs
All-both [] f p q = tt
All-both (x ∷ xs) f p q = (f x p.0 q.0, All-both xs f p.1 q.1)
