-- ===== src/Units/Placements.antt =====
-- The tests of src/cluster/placement.rs.
use horsie_actor.Base.{
  ℕ, zero, suc, ◌≡◌, refl, Bool, true, false, not, Option, none, some, List, [], ◌∷◌, ◌++◌, map,
  Text, codes, ◌==◌, nat_eq, ltb, retain, length,
}
use horsie_actor.Placement.{PlacementTable, new, set_members, owner_of}
use horsie_actor.Units.{all_hold, decimal}

abbrev table_with : List ℕ → PlacementTable
table_with nodes = set_members new nodes

abbrev shards : ℕ → List Text
shards zero = []
shards (suc n) = shards n ++ (b'c' ∷ decimal n) ∷ []

abbrev owner : PlacementTable → Text → Option ℕ
owner t shard = owner_of t (codes "counter") shard

abbrev is_node : Option ℕ → Option ℕ → Bool
is_node none none = true
is_node (some a) (some b) = a == b
is_node _ _ = false

abbrev two_nodes_with_the_same_live_set_agree_on_every_shard : Bool
two_nodes_with_the_same_live_set_agree_on_every_shard =
    let a = table_with (1 ∷ 2 ∷ 3 ∷ []) in
    let b = table_with (3 ∷ 1 ∷ 2 ∷ []) in
    all_hold (map (λ shard. is_node (owner a shard) (owner b shard)) (shards 200))

abbrev the_mapping_is_fixed : Bool
the_mapping_is_fixed =
    let three = table_with (1 ∷ 2 ∷ 3 ∷ []) in
    let five = table_with (1 ∷ 2 ∷ 3 ∷ 4 ∷ 5 ∷ []) in
    all_hold (
      is_node (owner three (codes "c0")) (some 3)
      ∷ is_node (owner three (codes "c1")) (some 1)
      ∷ is_node (owner three (codes "c2")) (some 1)
      ∷ is_node (owner three (codes "c3")) (some 2)
      ∷ is_node (owner three (codes "c4")) (some 3)
      ∷ is_node (owner_of five (codes "counter") (codes "7")) (some 1)
      ∷ is_node (owner_of five (codes "session") (codes "7")) (some 5)
      ∷ is_node (owner_of five (codes "supervisor") (codes "7")) (some 5)
      ∷ [])

abbrev losing_a_member_only_moves_its_own_shards : Bool
losing_a_member_only_moves_its_own_shards =
    let t = table_with (1 ∷ 2 ∷ 3 ∷ []) in
    let fewer = set_members t (1 ∷ 2 ∷ []) in
    let moved = retain (λ shard. not (is_node (owner fewer shard) (owner t shard))) (shards 200) in
    let were_on_three = retain (λ shard. is_node (owner t shard) (some 3)) (shards 200) in
    length moved == length were_on_three

abbrev gaining_a_member_moves_only_what_lands_on_it : Bool
gaining_a_member_moves_only_what_lands_on_it =
    let t = table_with (1 ∷ 2 ∷ 3 ∷ []) in
    let larger = set_members t (1 ∷ 2 ∷ 3 ∷ 4 ∷ []) in
    let moved = retain (λ shard. not (is_node (owner larger shard) (owner t shard))) (shards 200) in
    all_hold (not (length moved == 0) ∷ map (λ shard. is_node (owner larger shard) (some 4)) moved)

abbrev nothing_is_hosted_when_nothing_is_live : Bool
nothing_is_hosted_when_nothing_is_live = is_node (owner new (codes "c1")) none

abbrev given : ℕ → ℕ
given node =
    length (
      retain (λ shard. is_node (owner (table_with (1 ∷ 2 ∷ 3 ∷ [])) shard) (some node))
        (shards 300))

abbrev shards_spread_across_the_members : Bool
shards_spread_across_the_members =
    all_hold (ltb 50 (given 1) ∷ ltb 50 (given 2) ∷ ltb 50 (given 3) ∷ [])

abbrev the_fields_cannot_run_together : Bool
the_fields_cannot_run_together =
    let t = table_with (1 ∷ 2 ∷ 3 ∷ 4 ∷ 5 ∷ 6 ∷ 7 ∷ []) in
    not (is_node (owner_of t (codes "ab") (codes "c")) (owner_of t (codes "a") (codes "bc")))

-- The mapping is the one that is pinned, and the table passes its other tests at small numbers.
small-pass :
    all_hold (
      the_mapping_is_fixed ∷ nothing_is_hosted_when_nothing_is_live ∷ the_fields_cannot_run_together
      ∷ [])
    ≡ true
unfolding owner_of set_members new
small-pass = refl

-- Nodes that were told the members in two orders agree on every one of 200 shards.
agree-pass : two_nodes_with_the_same_live_set_agree_on_every_shard ≡ true
unfolding owner_of set_members new
agree-pass = refl

losing-pass : losing_a_member_only_moves_its_own_shards ≡ true
unfolding owner_of set_members new
losing-pass = refl

gaining-pass : gaining_a_member_moves_only_what_lands_on_it ≡ true
unfolding owner_of set_members new
gaining-pass = refl

-- Of 300 shards each of three nodes is given more than 50.
spread-pass : shards_spread_across_the_members ≡ true
unfolding owner_of set_members new
spread-pass = refl
