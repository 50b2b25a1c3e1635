-- ===== src/Placement.antt =====
-- src/cluster/placement.rs: which live member hosts a shard. A node is its number (`NodeId` of
-- src/envelope.rs), and the set of members is a strictly ascending list, as it is iterated.
pub mod Ordered
pub mod Owner
use horsie_actor.Base.{
  ℕ, ◌*◌, ◌%◌, bit_xor, Bool, true, false, Option, none, some, List, [], ◌∷◌, Text, ltb, leb, ◌==◌,
  nat_eq, if◌then◌else◌, foldl, u64_mod, u64_to_be_bytes,
}

pub record PlacementTable : Type 0 where
  pub members : List ℕ

unfoldable pub new : PlacementTable
new = record { members = [] }

-- `BTreeSet` of the standard library, as the list that it iterates over.
unfoldable pub set_insert : List ℕ → ℕ → List ℕ
set_insert [] x = x ∷ []
set_insert (y ∷ ys) x =
    if ltb x y then x ∷ y ∷ ys else if x == y then y ∷ ys else y ∷ set_insert ys x

unfoldable pub collect : List ℕ → List ℕ
unfolding set_insert
collect = foldl set_insert []

unfoldable pub set_members : PlacementTable → List ℕ → PlacementTable
unfolding collect
set_members t nodes = record { members = collect nodes }

-- `Iterator::max_by_key` of the standard library: of equal keys the last wins.
unfoldable pub max_from {ℓ} : {A : Type ℓ} → (A → ℕ) → A → List A → A
max_from key best [] = best
max_from key best (x ∷ xs) = max_from key (if leb (key best) (key x) then x else best) xs

unfoldable pub max_by_key {ℓ} : {A : Type ℓ} → (A → ℕ) → List A → Option A
unfolding max_from
max_by_key key [] = none
max_by_key key (x ∷ xs) = some (max_from key x xs)

abbrev pub offset : ℕ
offset = 0xcbf29ce484222325

abbrev pub prime : ℕ
prime = 0x00000100000001b3

abbrev pub separator : ℕ
separator = 0xff

unfoldable pub eat : ℕ → ℕ → ℕ
eat hash byte = (bit_xor hash byte * prime) % u64_mod

unfoldable pub score : Text → Text → ℕ → ℕ
unfolding eat u64_to_be_bytes
score type_name shard_id node =
    let typed = eat (foldl eat offset type_name) separator in
    let sharded = eat (foldl eat typed shard_id) separator in
    foldl eat sharded (u64_to_be_bytes node)

unfoldable pub owner_of : PlacementTable → Text → Text → Option ℕ
unfolding max_by_key score
owner_of t type_name shard_id = max_by_key (score type_name shard_id) t.members
