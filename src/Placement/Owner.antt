-- ===== src/Placement/Owner.antt =====
-- `owner_of` of src/cluster/placement.rs: what the live set determines about who hosts a shard.
use horsie_actor.Base.{
  ◌↔◌, ℕ, ◌≡◌, ◌≤◌, ◌<◌, refl, sym, ap, ◌∙◌, ◌⊎◌, inl, inr, Bool, true, false, none, some, List, [],
  ◌∷◌, Text, leb, ◌==◌, nat_eq, arith, Bool-cases,
}
use horsie_actor.Placement.{
  PlacementTable, set_members, collect, max_from, max_by_key, score, owner_of,
}
use horsie_actor.Placement.Ordered.{
  holds, Ascends, Ascends-skip, Ascends-tail, collect-Ascends, holds-collect,
}

-- `n` does not win over `m`: its score is lower, or it is the same and its number is not higher.
abbrev pub Yields : (ℕ → ℕ) → ℕ → ℕ → Type 0
Yields key n m = (key n < key m) ⊎ ((key n ≡ key m) × (n ≤ m))

unfoldable pub IsBest : (ℕ → ℕ) → (ℕ → Bool) → ℕ → Type 0
IsBest key member m = (member m ≡ true) × ((n : ℕ) → member n ≡ true → Yields key n m)

pub IsBest-unique :
    (key : ℕ → ℕ) (member : ℕ → Bool) (m n : ℕ) → IsBest key member m → IsBest key member n → m ≡ n
unfolding IsBest
IsBest-unique key member m n p q = ground (arith, p.1 n q.0, q.1 m p.0)

Yields-trans : (key : ℕ → ℕ) (a b c : ℕ) → Yields key a b → Yields key b c → Yields key a c
Yields-trans key a b c p q = ground arith

IsBest-wins :
    (key : ℕ → ℕ) (best x : ℕ) (xs : List ℕ) (m : ℕ)
    → Yields key best x
    → IsBest key (holds (x ∷ xs)) m
    → IsBest key (holds (best ∷ x ∷ xs)) m
unfolding IsBest holds
IsBest-wins key best x xs m y p = (
  ground arith,
  λ n h. elim (Bool-cases (best == n)) [
    | inl e ↦ Yields-trans key n x m (ground (arith, e)) (p.1 x (ground arith))
    | inr e ↦ p.1 n (ground (arith, e))
  ],
)

IsBest-stays :
    (key : ℕ → ℕ) (best x : ℕ) (xs : List ℕ) (m : ℕ)
    → Yields key x best
    → IsBest key (holds (best ∷ xs)) m
    → IsBest key (holds (best ∷ x ∷ xs)) m
unfolding IsBest holds
IsBest-stays key best x xs m y p = (
  ground arith,
  λ n h. elim (Bool-cases (x == n)) [
    | inl e ↦ Yields-trans key n best m (ground (arith, e)) (p.1 best (ground arith))
    | inr e ↦ p.1 n (ground (arith, e))
  ],
)

max_from-wins :
    (key : ℕ → ℕ) (best x : ℕ) (xs : List ℕ)
    → leb (key best) (key x) ≡ true
    → max_from key best (x ∷ xs) ≡ max_from key x xs
unfolding max_from
max_from-wins key best x xs e = rw e

max_from-stays :
    (key : ℕ → ℕ) (best x : ℕ) (xs : List ℕ)
    → leb (key best) (key x) ≡ false
    → max_from key best (x ∷ xs) ≡ max_from key best xs
unfolding max_from
max_from-stays key best x xs e = rw e

one-IsBest : (key : ℕ → ℕ) (best : ℕ) → IsBest key (holds (best ∷ [])) (max_from key best [])
unfolding IsBest holds max_from
one-IsBest key best = (ground arith, λ n h. ground arith)

max_from-IsBest :
    (key : ℕ → ℕ) (best : ℕ) (xs : List ℕ)
    → Ascends (best ∷ xs)
    → IsBest key (holds (best ∷ xs)) (max_from key best xs)
max_from-IsBest key best [] a = one-IsBest key best
max_from-IsBest key best (x ∷ xs) a = elim (Bool-cases (leb (key best) (key x))) [
  | inl e ↦ rw (max_from-wins key best x xs e) (
      IsBest-wins key best x xs (max_from key x xs) (ground arith)
        (max_from-IsBest key x xs (Ascends-tail best (x ∷ xs) a)))
  | inr e ↦ rw (max_from-stays key best x xs e) (
      IsBest-stays key best x xs (max_from key best xs) (ground arith)
        (max_from-IsBest key best xs (Ascends-skip best x xs a)))
]

-- `max_by_key` over an ascending list: none of no member, and else the best of them.
max_by_key-IsBest :
    (key : ℕ → ℕ) (xs : List ℕ)
    → Ascends xs
    → ((max_by_key key xs ≡ none) × (xs ≡ []))
      ⊎ ((m : ℕ) × ((max_by_key key xs ≡ some m) × IsBest key (holds xs) m))
unfolding max_by_key
max_by_key-IsBest key [] a = inl (refl, refl)
max_by_key-IsBest key (x ∷ xs) a = inr (max_from key x xs, (refl, max_from-IsBest key x xs a))

IsBest-same :
    (key : ℕ → ℕ) (p q : ℕ → Bool) (m : ℕ) → ((n : ℕ) → p n ≡ q n) → IsBest key p m → IsBest key q m
unfolding IsBest
IsBest-same key p q m same b = (sym (same m) ∙ b.0, λ n h. b.1 n (same n ∙ h))

holds-nil : (xs : List ℕ) (n : ℕ) → xs ≡ [] → holds xs n ≡ false
unfolding holds
holds-nil [] n e = refl
holds-nil (x ∷ xs) n e = ground (arith, e)

owner_of-cases :
    (t : PlacementTable) (nodes : List ℕ) (type_name shard_id : Text)
    → ((owner_of (set_members t nodes) type_name shard_id ≡ none)
        × ((n : ℕ) → holds nodes n ≡ false))
      ⊎ ((m : ℕ) × ((owner_of (set_members t nodes) type_name shard_id ≡ some m)
            × IsBest (score type_name shard_id) (holds nodes) m))
unfolding owner_of set_members
owner_of-cases t nodes type_name shard_id =
    elim (max_by_key-IsBest key (collect nodes) (collect-Ascends nodes)) [
      | inl p ↦ inl (p.0, λ n. sym (holds-collect nodes n) ∙ holds-nil (collect nodes) n p.1)
      | inr (m, p) ↦ inr (
        m,
        (p.0, IsBest-same key (holds (collect nodes)) (holds nodes) m (holds-collect nodes) p.1),
      )
    ]
  where
    key : ℕ → ℕ
    key = score type_name shard_id

IsBest-not_empty :
    (key : ℕ → ℕ) (nodes : List ℕ) (m : ℕ)
    → IsBest key (holds nodes) m
    → ¬ ((n : ℕ) → holds nodes n ≡ false)
unfolding IsBest
IsBest-not_empty key nodes m b empty = ground (arith, b.0, empty m)

some-injective : (m n : ℕ) → some m ≡ some n → m ≡ n
some-injective m n e = ground arith

IsBest-owner :
    (t : PlacementTable) (nodes : List ℕ) (type_name shard_id : Text) (m : ℕ)
    → owner_of (set_members t nodes) type_name shard_id ≡ some m
    → IsBest (score type_name shard_id) (holds nodes) m
IsBest-owner t nodes type_name shard_id m e = elim (owner_of-cases t nodes type_name shard_id) [
  | inl p ↦ ground (arith, p.0, e)
  | inr (n, p) ↦ rw (some-injective n m (sym p.0 ∙ e)) at p.1
]

owner-IsBest :
    (t : PlacementTable) (nodes : List ℕ) (type_name shard_id : Text) (m : ℕ)
    → IsBest (score type_name shard_id) (holds nodes) m
    → owner_of (set_members t nodes) type_name shard_id ≡ some m
owner-IsBest t nodes type_name shard_id m b = elim (owner_of-cases t nodes type_name shard_id) [
  | inl p ↦ absurd (IsBest-not_empty (score type_name shard_id) nodes m b p.1)
  | inr (n, p) ↦ p.0 ∙ ap some (IsBest-unique (score type_name shard_id) (holds nodes) n m p.1 b)
]

none_empty :
    (t : PlacementTable) (nodes : List ℕ) (type_name shard_id : Text)
    → owner_of (set_members t nodes) type_name shard_id ≡ none
    → (n : ℕ) → holds nodes n ≡ false
none_empty t nodes type_name shard_id e = elim (owner_of-cases t nodes type_name shard_id) [
  | inl p ↦ p.1
  | inr (n, p) ↦ ground (arith, p.0, e)
]

empty_none :
    (t : PlacementTable) (nodes : List ℕ) (type_name shard_id : Text)
    → ((n : ℕ) → holds nodes n ≡ false)
    → owner_of (set_members t nodes) type_name shard_id ≡ none
empty_none t nodes type_name shard_id empty = elim (owner_of-cases t nodes type_name shard_id) [
  | inl p ↦ p.0
  | inr (n, p) ↦ absurd (IsBest-not_empty (score type_name shard_id) nodes n p.1 empty)
]

-- For any nodes set as the members, the owner of a shard is `m` exactly when `m` is one of the
-- nodes, and every other node has a lower score for the shard, or the same score and a lower number.
-- There is no owner exactly when no node was set.
pub owner_of_iff :
    (t : PlacementTable) (nodes : List ℕ) (type_name shard_id : Text)
    → ((m : ℕ)
        → (owner_of (set_members t nodes) type_name shard_id ≡ some m)
          ↔ IsBest (score type_name shard_id) (holds nodes) m)
      × ((owner_of (set_members t nodes) type_name shard_id ≡ none)
          ↔ ((n : ℕ) → holds nodes n ≡ false))
owner_of_iff t nodes type_name shard_id = (
  λ m. (IsBest-owner t nodes type_name shard_id m, owner-IsBest t nodes type_name shard_id m),
  (none_empty t nodes type_name shard_id, empty_none t nodes type_name shard_id),
)

-- Two tables that were given the same set of nodes, in whatever order and however often each is
-- named, name the same owner for every shard, whatever members they had before.
pub owner_of_agrees :
    (s t : PlacementTable) (nodes others : List ℕ) (type_name shard_id : Text)
    → ((n : ℕ) → holds nodes n ≡ holds others n)
    → owner_of (set_members s nodes) type_name shard_id
      ≡ owner_of (set_members t others) type_name shard_id
owner_of_agrees s t nodes others type_name shard_id same =
    elim (owner_of-cases s nodes type_name shard_id) [
      | inl p ↦ p.0 ∙ sym (empty_none t others type_name shard_id (λ n. sym (same n) ∙ p.1 n))
      | inr (m, p) ↦
          p.0
          ∙ sym (
              owner-IsBest t others type_name shard_id m
                (IsBest-same (score type_name shard_id) (holds nodes) (holds others) m same p.1))
    ]

-- If every one of `rest` is one of `nodes`, and the node that owns a shard among `nodes` is still
-- one of `rest`, it owns the shard among `rest`: losing members moves only the shards they hosted,
-- and a member that joins takes shards for itself only.
pub owner_of_stays :
    (t : PlacementTable) (nodes rest : List ℕ) (type_name shard_id : Text) (m : ℕ)
    → ((n : ℕ) → holds rest n ≡ true → holds nodes n ≡ true)
    → owner_of (set_members t nodes) type_name shard_id ≡ some m
    → holds rest m ≡ true
    → owner_of (set_members t rest) type_name shard_id ≡ some m
unfolding IsBest
owner_of_stays t nodes rest type_name shard_id m sub owned stays =
    owner-IsBest t rest type_name shard_id m
      (stays, λ n h. (IsBest-owner t nodes type_name shard_id m owned).1 n (sub n h))
