-- ===== src/Units/Shards.antt =====
-- The tests of src/shard.rs.
use horsie_actor.Base.{
  ℕ, ◌≡◌, refl, Bool, true, false, not, ◌&&◌, Option, none, some, [], ◌∷◌, ◌++◌, Text, codes, ◌==◌,
  nat_eq, list_eq,
}
use horsie_actor.ActorPath.{
  ActorPath, root, child, split_last, parent, zip_all, starts_with, to_string, path_beq,
}
use horsie_actor.Shard.{
  Shard, EntityContext, region_of, address_of, context_of, shard_root, shard_root_of,
}
use horsie_actor.Units.{all_hold, decimal}

abbrev Bucket : Type 0
Bucket = ℕ

record Tenanted : Type 0 where
  account : Text
  session : Text

record Open : Type 0 where
  at : Bucket
  id : Tenanted

abbrev shown : Bucket → Text
shown n = decimal n

abbrev session_shard : Shard Open Tenanted Bucket
session_shard = record {
  type_name = codes "session";
  entity_id = λ cmd. cmd.id;
  shard_id = λ cmd. cmd.at;
  entity_to_string = λ id. id.account ++ (b'|' ∷ id.session);
  shard_to_string = shown;
}

abbrev command : Bucket → Text → Open
command at account = record { at = at; id = record { account = account; session = codes "sess-3" } }

abbrev entity : EntityContext Tenanted Bucket
entity = context_of session_shard (command 17 (codes "acct-7"))

abbrev address : ActorPath
address = address_of session_shard entity

abbrev an_address_is_region_shard_entity : Bool
an_address_is_region_shard_entity = all_hold (
    (to_string address == codes "/system/shard/session/17/acct-7|sess-3")
    ∷ starts_with address (region_of (codes "session"))
    ∷ [])

abbrev is_at : Option ActorPath → ActorPath → Bool
is_at none q = false
is_at (some p) q = path_beq p q

abbrev a_child_of_a_shard_actor_lives_under_it : Bool
a_child_of_a_shard_actor_lives_under_it =
    is_at (parent (child address (codes "agent-main"))) address

abbrev a_command_decides_which_actor_it_is_for : Bool
a_command_decides_which_actor_it_is_for = all_hold (
    (entity.type_name == codes "session")
    ∷ (entity.shard_id == 17)
    ∷ (entity.entity_id.account == codes "acct-7")
    ∷ (entity.entity_id.session == codes "sess-3")
    ∷ [])

abbrev is_in_17 : ActorPath → Bool
is_in_17 path = elim (shard_root_of path) [
  | none ↦ false
  | some shard ↦ all_hold (
      (shard.type_name == codes "session")
      ∷ (shard.shard_id == codes "17")
      ∷ (to_string (shard_root shard) == codes "/system/shard/session/17")
      ∷ [])
]

abbrev a_shard_address_says_which_shard_it_is_in : Bool
a_shard_address_says_which_shard_it_is_in =
    is_in_17 address && is_in_17 (child address (codes "agent-main"))

abbrev is_ordinary : ActorPath → Bool
is_ordinary path = elim (shard_root_of path) [ none ↦ true | some shard ↦ false ]

abbrev an_ordinary_address_is_not_a_shard_address : Bool
an_ordinary_address_is_not_a_shard_address = all_hold (
    is_ordinary root
    ∷ is_ordinary (child (child root (codes "acct-7")) (codes "session-3"))
    ∷ is_ordinary (region_of (codes "session"))
    ∷ is_ordinary (
        child (child (child (child root (codes "system")) (codes "shards")) (codes "session"))
          (codes "17"))
    ∷ [])

abbrev address_for : Text → ActorPath
address_for account = address_of session_shard (context_of session_shard (command 3 account))

abbrev one_entity_is_one_address : Bool
one_entity_is_one_address =
    path_beq (address_for (codes "acct-7")) (address_for (codes "acct-7"))
    && not (path_beq (address_for (codes "acct-7")) (address_for (codes "acct-9")))

-- Shard addresses pass their tests.
shards-pass :
    all_hold (
      an_address_is_region_shard_entity ∷ a_child_of_a_shard_actor_lives_under_it
      ∷ a_command_decides_which_actor_it_is_for ∷ a_shard_address_says_which_shard_it_is_in
      ∷ an_ordinary_address_is_not_a_shard_address ∷ one_entity_is_one_address ∷ [])
    ≡ true
unfolding root child split_last parent zip_all starts_with to_string region_of address_of context_of
    shard_root shard_root_of
shards-pass = refl
