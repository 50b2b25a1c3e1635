-- ===== src/Store/Ordered.antt =====
-- The ordered map of src/cluster/store.rs (`BTreeMap`): insertion, retention, and the last entry.
use horsie_actor.Base.{
  ℕ, suc, ◌+◌, ◌≤◌, ◌≡◌, refl, Bool, false, none, some, [], ◌∷◌, retain, arith, ◌==◌, nat_eq,
  nat_beq_iff, ltb, if◌then◌else◌, Bool-cases, inl, inr, All,
}
use horsie_actor.Map.{Map, get, btree_insert}
use horsie_actor.Store.{last_value}

module _ {V : Type 0} where
  pub get-btree_insert :
      (m : Map ℕ V) (k j : ℕ) (v : V)
      → get (btree_insert m k v) j ≡ (if k == j then some v else get m j)
  unfolding get btree_insert
  get-btree_insert [] k j v = refl
  get-btree_insert ((i, w) ∷ m) k j v = ground (arith, get-btree_insert m k j v)

  pub get-retain :
      (keep : ℕ → Bool) (m : Map ℕ V) (j : ℕ)
      → get (retain (λ e. keep e.0) m) j ≡ (if keep j then get m j else none)
  unfolding get
  get-retain keep [] j = ground arith
  get-retain keep ((i, w) ∷ m) j = ground (arith, get-retain keep m j)

  -- Every index is at least the bound.
  abbrev pub From : ℕ → Map ℕ V → Type 0
  From bound m = All (λ e. bound ≤ e.0) m

  abbrev pub Ascending : Map ℕ V → Type 0
  Ascending [] = Unit
  Ascending ((k, v) ∷ m) = From (suc k) m × Ascending m

  From-weaken : (a b : ℕ) (m : Map ℕ V) → a ≤ b → From b m → From a m
  From-weaken a b [] h f = tt
  From-weaken a b (e ∷ m) h f = (omega (arith, f.0), From-weaken a b m h f.1)

  From-btree_insert :
      (bound : ℕ) (m : Map ℕ V) (k : ℕ) (v : V)
      → bound ≤ k
      → From bound m
      → From bound (btree_insert m k v)
  unfolding btree_insert
  From-btree_insert bound [] k v h f = (h, tt)
  From-btree_insert bound ((j, w) ∷ m) k v h f = elim (Bool-cases (ltb k j)) [
    | inl below ↦ rw (below, btree_insert) (h, f)
    | inr above ↦ elim (Bool-cases (k == j)) [
      | inl same ↦ rw (above, same, btree_insert) (h, f.1)
      | inr apart ↦ rw (above, apart, btree_insert) (f.0, From-btree_insert bound m k v h f.1)
    ]
  ]

  pub Ascending-btree_insert :
      (m : Map ℕ V) (k : ℕ) (v : V) → Ascending m → Ascending (btree_insert m k v)
  unfolding btree_insert
  Ascending-btree_insert [] k v a = (tt, tt)
  Ascending-btree_insert ((j, w) ∷ m) k v a = elim (Bool-cases (ltb k j)) [
    | inl below ↦
        let less : suc k ≤ j = ground (arith, below) in
        rw (below, btree_insert) ((less, From-weaken (suc k) (suc j) m (omega arith) a.0), a)
    | inr above ↦ elim (Bool-cases (k == j)) [
      | inl same ↦
          let eq : k ≡ j = (nat_beq_iff k j).0 same in
          rw (above, same, btree_insert) (From-weaken (suc k) (suc j) m (omega arith) a.0, a.1)
      | inr apart ↦
          let more : suc j ≤ k = ground (arith, above, apart) in
          rw (above, apart, btree_insert)
            (From-btree_insert (suc j) m k v more a.0, Ascending-btree_insert m k v a.1)
    ]
  ]

  From-retain :
      (bound : ℕ) (keep : ℕ → Bool) (m : Map ℕ V)
      → From bound m
      → From bound (retain (λ e. keep e.0) m)
  From-retain bound keep [] f = tt
  From-retain bound keep (e ∷ m) f = elim (Bool-cases (keep e.0)) [
    | inl k ↦ rw k (f.0, From-retain bound keep m f.1)
    | inr k ↦ rw k (From-retain bound keep m f.1)
  ]

  pub Ascending-retain :
      (keep : ℕ → Bool) (m : Map ℕ V) → Ascending m → Ascending (retain (λ e. keep e.0) m)
  Ascending-retain keep [] a = tt
  Ascending-retain keep ((j, w) ∷ m) a = elim (Bool-cases (keep j)) [
    | inl k ↦ rw k (From-retain (suc j) keep m a.0, Ascending-retain keep m a.1)
    | inr k ↦ rw k (Ascending-retain keep m a.1)
  ]

  -- Every index is at most the bound.
  abbrev pub UpTo : ℕ → Map ℕ V → Type 0
  UpTo bound m = All (λ e. e.0 ≤ bound) m

  pub UpTo-btree_insert :
      (bound : ℕ) (m : Map ℕ V) (k : ℕ) (v : V)
      → k ≤ bound
      → UpTo bound m
      → UpTo bound (btree_insert m k v)
  unfolding btree_insert
  UpTo-btree_insert bound [] k v h f = (h, tt)
  UpTo-btree_insert bound ((j, w) ∷ m) k v h f = elim (Bool-cases (ltb k j)) [
    | inl below ↦ rw (below, btree_insert) (h, f)
    | inr above ↦ elim (Bool-cases (k == j)) [
      | inl same ↦ rw (above, same, btree_insert) (h, f.1)
      | inr apart ↦ rw (above, apart, btree_insert) (f.0, UpTo-btree_insert bound m k v h f.1)
    ]
  ]

  pub last_value-btree_insert :
      (m : Map ℕ V) (k : ℕ) (v : V)
      → Ascending m
      → UpTo k m
      → last_value (btree_insert m k v) ≡ some v
  unfolding last_value btree_insert
  last_value-btree_insert [] k v a u = refl
  last_value-btree_insert ((j, w) ∷ []) k v a u = ground arith
  last_value-btree_insert ((j, w) ∷ (i, x) ∷ m) k v a u =
      let above : ltb k j ≡ false = ground (arith, u.0) in
      let apart : (k == j) ≡ false = ground (arith, u.1.0, a.0.0) in
      rw (above, apart, btree_insert)
        (ground (arith, last_value-btree_insert ((i, x) ∷ m) k v a.1 u.1))

  retain_none : (k : ℕ) (m : Map ℕ V) → From (suc k) m → retain (λ e. ltb e.0 (k + 1)) m ≡ []
  retain_none k [] f = refl
  retain_none k (e ∷ m) f = ground (arith, f.0, retain_none k m f.1)

  From-get : (bound k : ℕ) (m : Map ℕ V) (v : V) → From bound m → get m k ≡ some v → bound ≤ k
  unfolding get
  From-get bound k [] v f h = absurd (ground (arith, h))
  From-get bound k ((j, w) ∷ m) v f h = elim (Bool-cases (j == k)) [
    | inl same ↦ ground (arith, same, f.0)
    | inr apart ↦ From-get bound k m v f.1 (ground (arith, h, apart))
  ]

  pub last_value-cut :
      (m : Map ℕ V) (k : ℕ) (v : V)
      → Ascending m
      → get m k ≡ some v
      → last_value (retain (λ e. ltb e.0 (k + 1)) m) ≡ some v
  unfolding last_value get
  last_value-cut [] k v a h = absurd (ground (arith, h))
  last_value-cut ((j, w) ∷ m) k v a h = elim (Bool-cases (j == k)) [
    | inl same ↦
        let eq : j ≡ k = (nat_beq_iff j k).0 same in
        let later : From (suc k) m = From-weaken (suc k) (suc j) m (omega arith) a.0 in
        ground (arith, h, same, retain_none k m later)
    | inr apart ↦
        let there : get m k ≡ some v = ground (arith, h, apart) in
        ground (arith, From-get (suc j) k m v a.0 there, last_value-cut m k v a.1 there)
  ]
