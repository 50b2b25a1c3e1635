-- ===== src/Map.antt =====
-- `HashMap`, `BTreeMap` and `HashSet` where the program looks up, inserts, removes and iterates:
-- a list of entries, clients of which have `map_laws`. A new key goes to the front.
use horsie_actor.Base.{
  ℕ, nat_eq, ltb, ◌≤◌, ◌≡◌, Option, none, some, List, [], ◌∷◌, map, arith, EqTest, ◌==◌,
  if◌then◌else◌, length, All, if_both, Bool-cases, inl, inr, ==_iff,
}
use mathlib.Core.Path.{subst}

abbrev pub Map {ℓ} : Type ℓ → Type ℓ → Type ℓ
Map K V = List (K × V)

abbrev pub keys {ℓ} : {K V : Type ℓ} → Map K V → List K
keys = map λ e. e.0

-- `BTreeMap::insert`: keys ascend, and a value is replaced.
unfoldable pub btree_insert : {V : Type 0} → Map ℕ V → ℕ → V → Map ℕ V
btree_insert [] k v = (k, v) ∷ []
btree_insert ((i, w) ∷ rest) k v =
    let later = btree_insert rest k v in
    if ltb k i then (k, v) ∷ (i, w) ∷ rest else if k == i then (k, v) ∷ rest else (i, w) ∷ later

module _ {ℓ} {K V : Type ℓ} ⦃e : EqTest K⦄ where
  unfoldable pub get : Map K V → K → Option V
  get [] k = none
  get ((j, v) ∷ m) k = if j == k then some v else get m k

  unfoldable pub remove : Map K V → K → Map K V
  remove [] k = []
  remove ((j, v) ∷ m) k = let rest = remove m k in if j == k then rest else (j, v) ∷ rest

  unfoldable pub insert : Map K V → K → V → Map K V
  unfolding remove
  insert m k v = (k, v) ∷ remove m k

  pub get-remove : (m : Map K V) (k j : K) → get (remove m k) j ≡ (if k == j then none else get m j)
  unfolding get remove
  get-remove [] k j = ground arith
  get-remove ((i, v) ∷ m) k j =
      ground (arith, get-remove m k j, e.test_iff i k, e.test_iff i j, e.test_iff k j)

  pub get-insert :
      (m : Map K V) (k j : K) (v : V) → get (insert m k v) j ≡ (if k == j then some v else get m j)
  unfolding get insert
  get-insert m k j v = ground (arith, get-remove m k j)

  pub get-insert_self : (m : Map K V) (k : K) (v : V) → get (insert m k v) k ≡ some v
  get-insert_self m k v = ground (arith, get-insert m k k v, e.test_iff k k)

  pub length-remove-le : (m : Map K V) (k : K) → length (remove m k) ≤ length m
  unfolding remove
  length-remove-le [] k = omega arith
  length-remove-le ((j, v) ∷ m) k = ground (arith, length-remove-le m k)

  pub All-remove {κ} : (P : K × V → Type κ) (m : Map K V) (k : K) → All P m → All P (remove m k)
  unfolding remove
  All-remove P [] k h = tt
  All-remove P ((j, v) ∷ m) k h =
      if_both (All P) (j == k) (λ _. All-remove P m k h.1) (λ _. (h.0, All-remove P m k h.1))

  pub All-get {κ} :
      (P : K × V → Type κ) (m : Map K V) (k : K) (v : V) → All P m → get m k ≡ some v → P (k, v)
  unfolding get
  All-get P [] k v h e = cc
  All-get P ((j, w) ∷ m) k v h e = elim (Bool-cases (j == k)) [
    | inl same ↦
        let value : some w ≡ some v = rw same at e in
        let here : w ≡ v = cc in subst P (λ i. ((==_iff j k).0 same i, here i)) h.0
    | inr other ↦ All-get P m k v h.1 (rw other at e)
  ]

pub ruleset map_laws = (get-remove, get-insert)
