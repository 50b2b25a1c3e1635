-- ===== src/Units/Windows.antt =====
-- The tests of src/cluster/delivery.rs.
use horsie_actor.Base.{ℕ, ◌≡◌, refl, Bool, true, false, not, List, [], ◌∷◌, codes, ◌==◌, nat_eq}
use horsie_actor.Delivery.{
  Dedup, Envelope, with_capacity, contains, set_remove, accept_id, accept, window_len,
}
use horsie_actor.Units.{all_hold}

abbrev env : ℕ → Envelope
env message_id = record { type_name = codes "counter"; message_id = message_id; payload = [] }

-- The window after deliveries of these ids, and whether each of them was new.
abbrev taken : Dedup → List ℕ → Dedup
taken d [] = d
taken d (id ∷ ids) = taken (accept d (env id)).1 ids

abbrev all_new : Dedup → List ℕ → Bool
all_new d [] = true
all_new d (id ∷ ids) =
    let rest = all_new (accept d (env id)).1 ids in
    elim (accept d (env id)).0 [ true ↦ rest | false ↦ false ]

abbrev a_redelivered_envelope_is_applied_once : Bool
a_redelivered_envelope_is_applied_once =
    let (new, d) = accept (with_capacity 128) (env 1) in
    all_hold (new ∷ not (accept d (env 1)).0 ∷ [])

abbrev one_to_ten : List ℕ
one_to_ten = 1 ∷ 2 ∷ 3 ∷ 4 ∷ 5 ∷ 6 ∷ 7 ∷ 8 ∷ 9 ∷ 10 ∷ []

abbrev distinct_messages_are_all_accepted : Bool
distinct_messages_are_all_accepted = all_hold (
    all_new (with_capacity 128) one_to_ten
    ∷ (window_len (taken (with_capacity 128) one_to_ten) == 10)
    ∷ [])

abbrev the_window_is_bounded_and_evicts_the_oldest : Bool
the_window_is_bounded_and_evicts_the_oldest =
    let three = taken (with_capacity 3) (1 ∷ 2 ∷ 3 ∷ []) in
    let (old, still) = accept three (env 1) in
    let (fourth, four) = accept still (env 4) in
    let (again, after) = accept four (env 1) in
    let (third, last) = accept after (env 3) in
    all_hold (
      all_new (with_capacity 3) (1 ∷ 2 ∷ 3 ∷ [])
      ∷ not old
      ∷ fourth
      ∷ (window_len four == 3)
      ∷ again
      ∷ not third
      ∷ not (accept last (env 4)).0
      ∷ [])

abbrev a_zero_capacity_still_dedups : Bool
a_zero_capacity_still_dedups =
    let (new, d) = accept (with_capacity 0) (env 1) in
    all_hold (new ∷ not (accept d (env 1)).0 ∷ [])

-- The window passes its tests.
windows-pass :
    all_hold (
      a_redelivered_envelope_is_applied_once ∷ distinct_messages_are_all_accepted
      ∷ the_window_is_bounded_and_evicts_the_oldest ∷ a_zero_capacity_still_dedups ∷ [])
    ≡ true
unfolding accept accept_id contains set_remove with_capacity window_len
windows-pass = refl
