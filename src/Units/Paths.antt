-- ===== src/Units/Paths.antt =====
-- The tests of src/path.rs.
use horsie_actor.Base.{
  ◌≡◌, refl, Bool, true, false, not, Option, none, some, [], ◌∷◌, Text, ok, err, codes, ◌==◌,
  nat_eq, list_eq,
}
use horsie_actor.ActorPath.{
  ActorPath, invalid_path, root, child, split, parse, split_last, parent, is_root, name, zip_all,
  starts_with, is_valid_name, to_string, path_beq,
}
use horsie_actor.Units.{all_hold}

abbrev is_text : Option Text → Option Text → Bool
is_text none none = true
is_text (some a) (some b) = a == b
is_text _ _ = false

abbrev is_path : Option ActorPath → Option ActorPath → Bool
is_path none none = true
is_path (some a) (some b) = path_beq a b
is_path _ _ = false

abbrev root_displays_as_a_single_slash : Bool
root_displays_as_a_single_slash = all_hold (
    (to_string root == codes "/")
    ∷ is_root root
    ∷ is_text (name root) none
    ∷ is_path (parent root) none
    ∷ [])

abbrev a_path_displays_as_its_segments : Bool
a_path_displays_as_its_segments =
    let path = child (child root (codes "acct-7")) (codes "session-3") in
    all_hold (
      (to_string path == codes "/acct-7/session-3")
      ∷ is_text (name path) (some (codes "session-3"))
      ∷ (path.segments == (codes "acct-7" ∷ codes "session-3" ∷ []))
      ∷ [])

abbrev or_root : Option ActorPath → ActorPath
or_root none = root
or_root (some p) = p

abbrev parent_walks_back_up_to_root : Bool
parent_walks_back_up_to_root =
    let above = or_root (parent (child (child root (codes "a")) (codes "b"))) in
    all_hold ((to_string above == codes "/a") ∷ is_path (parent above) (some root) ∷ [])

abbrev the_same_name_under_different_parents_differs : Bool
the_same_name_under_different_parents_differs = not (
    path_beq (child (child root (codes "owner-a")) (codes "worker"))
      (child (child root (codes "owner-b")) (codes "worker")))

abbrev a_prefix_is_the_path_or_an_ancestor : Bool
a_prefix_is_the_path_or_an_ancestor =
    let path = child (child (child root (codes "a")) (codes "b")) (codes "c") in
    all_hold (
      starts_with path root
      ∷ starts_with path (child root (codes "a"))
      ∷ starts_with path path
      ∷ not (starts_with path (child root (codes "b")))
      ∷ not (starts_with (child root (codes "a")) path)
      ∷ [])

abbrev a_prefix_is_matched_by_segment_not_by_string : Bool
a_prefix_is_matched_by_segment_not_by_string =
    not (starts_with (child root (codes "ab")) (child root (codes "a")))

abbrev comes_back : Text → Bool
comes_back text = elim (parse text) [ err e ↦ false | ok path ↦ to_string path == text ]

abbrev is_invalid : Text → Bool
is_invalid text = elim (parse text) [ ok path ↦ false | err (invalid_path t) ↦ t == text ]

abbrev a_path_round_trips_through_its_display : Bool
a_path_round_trips_through_its_display = all_hold (
    comes_back (codes "/")
    ∷ comes_back (codes "/acct-7")
    ∷ comes_back (codes "/acct-7/session-3/agent-main")
    ∷ is_invalid []
    ∷ is_invalid (codes "acct-7")
    ∷ is_invalid (codes "/a//b")
    ∷ is_invalid (codes "/a/")
    ∷ [])

abbrev a_name_may_not_be_empty_or_contain_a_separator : Bool
a_name_may_not_be_empty_or_contain_a_separator = all_hold (
    is_valid_name (codes "session-3")
    ∷ not (is_valid_name [])
    ∷ not (is_valid_name (codes "a/b"))
    ∷ [])

-- Paths pass their tests.
paths-pass :
    all_hold (
      root_displays_as_a_single_slash ∷ a_path_displays_as_its_segments
      ∷ parent_walks_back_up_to_root ∷ the_same_name_under_different_parents_differs
      ∷ a_prefix_is_the_path_or_an_ancestor ∷ a_prefix_is_matched_by_segment_not_by_string
      ∷ a_path_round_trips_through_its_display ∷ a_name_may_not_be_empty_or_contain_a_separator
      ∷ [])
    ≡ true
unfolding root child split parse split_last parent is_root name zip_all starts_with is_valid_name
    to_string
paths-pass = refl
