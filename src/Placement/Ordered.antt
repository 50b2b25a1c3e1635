-- ===== src/Placement/Ordered.antt =====
-- The set of members in src/cluster/placement.rs: the list that is iterated depends on what is in
-- the set only.
use horsie_actor.Base.{
  ℕ, ◌≡◌, ◌<◌, refl, Bool, true, List, [], ◌∷◌, ◌==◌, nat_eq, any, if◌then◌else◌, arith, foldl,
}
use horsie_actor.Placement.{set_insert, collect}

unfoldable pub holds : List ℕ → ℕ → Bool
holds xs n = any (λ x. x == n) xs

-- Strictly ascending.
abbrev pub Ascends : List ℕ → Type 0
Ascends [] = Unit {0}
Ascends (x ∷ []) = Unit {0}
Ascends (x ∷ y ∷ ys) = (x < y) × Ascends (y ∷ ys)

pub holds-set_insert :
    (xs : List ℕ) (x n : ℕ) → holds (set_insert xs x) n ≡ (if x == n then true else holds xs n)
unfolding holds set_insert
holds-set_insert [] x n = ground arith
holds-set_insert (y ∷ ys) x n = ground (arith, holds-set_insert ys x n)

set_insert-Ascends : (xs : List ℕ) (x : ℕ) → Ascends xs → Ascends (set_insert xs x)
unfolding set_insert
set_insert-Ascends [] x a = tt
set_insert-Ascends (y ∷ []) x a = ground arith
set_insert-Ascends (y ∷ z ∷ zs) x a = ground (arith, set_insert-Ascends (z ∷ zs) x a.1)

collect_from :
    (seen nodes : List ℕ)
    → Ascends seen
    → Ascends (foldl set_insert seen nodes)
      × ((n : ℕ)
          → holds (foldl set_insert seen nodes) n ≡ (if holds nodes n then true else holds seen n))
unfolding holds
collect_from seen [] a = (a, λ n. refl)
collect_from seen (x ∷ nodes) a =
    let ih = collect_from (set_insert seen x) nodes (set_insert-Ascends seen x a) in
    (ih.0, λ n. ground (arith, ih.1 n, holds-set_insert seen x n))

pub collect-Ascends : (nodes : List ℕ) → Ascends (collect nodes)
unfolding collect
collect-Ascends nodes = (collect_from [] nodes tt).0

pub holds-collect : (nodes : List ℕ) (n : ℕ) → holds (collect nodes) n ≡ holds nodes n
unfolding collect holds
holds-collect nodes n = ground (arith, (collect_from [] nodes tt).1 n)

-- What stands in the rest of an ascending list is above its head.
pub holds_above : (x : ℕ) (xs : List ℕ) (n : ℕ) → Ascends (x ∷ xs) → holds xs n ≡ true → x < n
unfolding holds
holds_above x [] n a h = ground arith
holds_above x (y ∷ ys) n a h = ground (arith, holds_above y ys n a.1)

pub Ascends-tail : (x : ℕ) (xs : List ℕ) → Ascends (x ∷ xs) → Ascends xs
Ascends-tail x [] a = tt
Ascends-tail x (y ∷ ys) a = a.1

pub Ascends-skip : (x y : ℕ) (ys : List ℕ) → Ascends (x ∷ y ∷ ys) → Ascends (x ∷ ys)
Ascends-skip x y [] a = tt
Ascends-skip x y (z ∷ zs) a = ground arith
