-- ===== src/Tests/Routes.antt =====
-- The theorems on placement, delivery and paths at concrete inputs.
use horsie_actor.Base.{
  ℕ, ◌≡◌, ◌↔◌, ◌⊎◌, refl, true, false, none, some, List, [], ◌∷◌, ok, codes, Text,
}
use horsie_actor.ActorPath.{ActorPath, child, starts_with, parse, to_string, split}
use horsie_actor.ActorPath.Display.{AllValid, parse-eq-ok}
use horsie_actor.Shard.{PlacedShard, shard_root, shard_root_of}
use horsie_actor.Shard.Grammar.{shard_root_of_iff}
use horsie_actor.Delivery.{with_capacity, contains, accept_id}
use horsie_actor.Delivery.Window.{Pushed, with_capacity-IsWindow, accept_id_lem}
use horsie_actor.Placement.{new, set_members, score, owner_of}
use horsie_actor.Placement.Ordered.{holds}
use horsie_actor.Placement.Owner.{IsBest, owner_of_iff}

abbrev counter : Text
counter = codes "counter"

abbrev shard : Text
shard = codes "c0"

abbrev usual : List ℕ
usual = 1 ∷ 2 ∷ 3 ∷ []

owner_of_iff_example :
    ((m : ℕ)
      → (owner_of (set_members new usual) counter shard ≡ some m)
        ↔ IsBest (score counter shard) (holds usual) m)
    × ((owner_of (set_members new usual) counter shard ≡ none) ↔ ((n : ℕ) → holds usual n ≡ false))
owner_of_iff_example = owner_of_iff new usual counter shard

three_owns : owner_of (set_members new usual) counter shard ≡ some 3
unfolding owner_of set_members
three_owns = refl

accept_id_example :
    ((contains (with_capacity 2).order 7 ≡ true)
      × (accept_id (with_capacity 2) 7 ≡ (false, with_capacity 2)))
    ⊎ ((contains (with_capacity 2).order 7 ≡ false)
        × Pushed
            (with_capacity 2).order
            (with_capacity 2).capacity
            7
            (accept_id (with_capacity 2) 7))
accept_id_example = accept_id_lem (with_capacity 2) 7 (with_capacity-IsWindow 2)

abbrev worker : ActorPath
worker = record { segments = codes "pool" ∷ codes "w1" ∷ [] }

worker_parses : parse (codes "/pool/w1") ≡ ok worker
unfolding parse split
worker_parses = refl

parse-eq-ok_example : (to_string worker ≡ codes "/pool/w1") × AllValid worker.segments
parse-eq-ok_example = parse-eq-ok (codes "/pool/w1") worker worker_parses

abbrev placed : PlacedShard
placed = record { type_name = codes "session"; shard_id = codes "17" }

abbrev entity : ActorPath
entity = child (shard_root placed) (codes "acct-7")

shard_root_of_iff_example :
    (shard_root_of entity ≡ some placed) ↔ (starts_with entity (shard_root placed) ≡ true)
shard_root_of_iff_example = shard_root_of_iff entity placed
