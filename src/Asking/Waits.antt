-- ===== src/Asking/Waits.antt =====
-- What an `ask` of src/runtime.rs leaves in the table of callers of src/cluster/node.rs.
use horsie_actor.Base.{
  ℕ, ◌≡◌, ◌≢◌, refl, Bool, true, false, Option, none, some, Result, nat_eq, All, All-map, arith,
  Option-cases, Result-cases, ◌⊎◌, inl, inr,
}
use horsie_actor.Map.{get, remove, btree_insert, All-remove}
use horsie_actor.Delivery.{Reply}
use horsie_actor.Node.{ClusterNode, register, forget, deliver_reply, abandon_waiting}
use horsie_actor.ActorRef.{TellError}
use horsie_actor.Replies.{ReplyTo, local, remote, Context, from_sender, serialize, cancelled}
use horsie_actor.Asking.{
  Deadline, never, while_telling, while_waiting, ask, ask_body, ask_within, await_answer,
  dropped_in,
}
use horsie_actor.Asking.Table.{All-btree_insert, All-pop_over, remove-absent, All-both}

-- The row of the table that the caller's slot names.
abbrev pub slot : ReplyTo → Option ℕ
slot (local sender row) = row
slot (remote origin correlation armed) = none

-- The caller is in the table under that row only.
abbrev pub OnlyAt : {Value : Type 0} → ℕ → ReplyTo → Context Value → Type 0
OnlyAt channel handle c = All (λ e. e.1 ≡ channel → slot handle ≡ some e.0) c.node.waiting

-- The caller is in no row.
abbrev pub IsAbsent : {Value : Type 0} → ℕ → Context Value → Type 0
IsAbsent channel c = All (λ e. e.1 ≢ channel) c.node.waiting

-- The handle is as it was made, or it was encoded.
abbrev pub IsCallers : ℕ → ReplyTo → Type 0
IsCallers channel h = (h ≡ from_sender channel) ⊎ ((row : Option ℕ) × (h ≡ local none row))

deliver_reply-waiting :
    (node : ClusterNode ℕ) (reply : Reply)
    → (deliver_reply node reply).1.waiting ≡ elim (get node.waiting reply.correlation) [
      | none ↦ node.waiting
      | some _ ↦ remove node.waiting reply.correlation
    ]
unfolding deliver_reply forget
deliver_reply-waiting node reply = ground arith

deliver_reply-All :
    (P : ℕ × ℕ → Type 0) (node : ClusterNode ℕ) (reply : Reply)
    → All P node.waiting
    → All P (deliver_reply node reply).1.waiting
deliver_reply-All P node reply h = elim (Option-cases (get node.waiting reply.correlation)) [
  | inl e ↦ rw (deliver_reply-waiting node reply, e) h
  | inr (deliver, e) ↦
      rw (deliver_reply-waiting node reply, e) (All-remove P node.waiting reply.correlation h)
]

module _ {Value : Type 0} (channel : ℕ) where
  -- What can become of the handle and of the node while a caller asks: the handle is encoded, in a
  -- transport's context or not; other callers register, and answers come in; a caller is forgotten; the node
  -- stands down; and whatever else leaves the table alone.
  pub data Waits : ReplyTo → Context Value → Type 0 where
    asks : (c : Context Value) → IsAbsent channel c → Waits (from_sender channel) c
    encodes :
        {h : ReplyTo} {c : Context Value}
        → Waits h c
        → (in_context takes : Bool)
        → Waits (serialize in_context takes h c).1 (serialize in_context takes h c).2
    registers :
        {h : ReplyTo} {c : Context Value}
        → Waits h c
        → (other : ℕ) → other ≢ channel
        → Waits h (record c { node = (register c.node other).1 })
    delivers :
        {h : ReplyTo} {c : Context Value}
        → Waits h c
        → (reply : Reply) → Waits h (record c { node = (deliver_reply c.node reply).1 })
    forgets :
        {h : ReplyTo} {c : Context Value}
        → Waits h c
        → (id : ℕ) → Waits h (record c { node = forget c.node id })
    abandons :
        {h : ReplyTo} {c : Context Value}
        → Waits h c
        → Waits h (record c { node = abandon_waiting c.node })
    works :
        {h : ReplyTo} {c d : Context Value}
        → Waits h c
        → d.node.waiting ≡ c.node.waiting
        → Waits h d

  abbrev IsKept : ReplyTo → Context Value → Type 0
  IsKept h c = IsCallers channel h × OnlyAt channel h c

  serialize-IsKept :
      (h : ReplyTo) (c : Context Value) (in_context takes : Bool)
      → IsKept h c
      → IsKept (serialize in_context takes h c).1 (serialize in_context takes h c).2
  unfolding serialize register
  serialize-IsKept h c false takes k = k
  serialize-IsKept h c true takes (inr (row, e), only) = rw e (inr (row, refl), rw e at only)
  serialize-IsKept h c true takes (inl e, only) =
      let id = (register c.node channel).0 in
      let none_yet = rw e at only in
      rw e (
        inr (some id, refl),
        let Q : ℕ × ℕ → Type 0 = λ row. row.1 ≡ channel → some id ≡ some row.0 in
            All-pop_over Q (btree_insert c.node.waiting id channel) (
              All-btree_insert Q c.node.waiting id channel
                (All-map c.node.waiting (λ row h same. let clash : none ≡ some row.0 = h same in cc)
                  none_yet)
                (λ same. refl)),
      )

  Waits-IsKept : (h : ReplyTo) (c : Context Value) → Waits h c → IsKept h c
  unfolding register forget abandon_waiting
  Waits-IsKept _ _ (asks c absent) =
      (inl refl, All-map c.node.waiting (λ e h same. absurd (h same)) absent)
  Waits-IsKept _ _ (encodes {h} {c} w in_context takes) =
      serialize-IsKept h c in_context takes (Waits-IsKept h c w)
  Waits-IsKept _ _ (registers {h} {c} w other d) =
      let (callers, only) = Waits-IsKept h c w in
      let P : ℕ × ℕ → Type 0 = λ e. e.1 ≡ channel → slot h ≡ some e.0 in
      (
        callers,
        All-pop_over P (btree_insert c.node.waiting (register c.node other).0 other) (
            All-btree_insert P c.node.waiting (register c.node other).0 other only
              (λ same. absurd (d same))),
      )
  Waits-IsKept _ _ (delivers {h} {c} w reply) =
      let (callers, only) = Waits-IsKept h c w in
      (callers, deliver_reply-All (λ e. e.1 ≡ channel → slot h ≡ some e.0) c.node reply only)
  Waits-IsKept _ _ (forgets {h} {c} w id) =
      let (callers, only) = Waits-IsKept h c w in
      (callers, All-remove (λ e. e.1 ≡ channel → slot h ≡ some e.0) c.node.waiting id only)
  Waits-IsKept _ _ (abandons {h} {c} w) = ((Waits-IsKept h c w).0, tt)
  Waits-IsKept _ _ (works {h} {c} {d} w same) =
      let (callers, only) = Waits-IsKept h c w in (callers, rw same only)

  cancelled-slot :
      (row : Option ℕ) (sender : Option ℕ) (c : Context Value)
      → OnlyAt channel (local sender row) c
      → IsAbsent channel (cancelled (local sender row) c)
  unfolding cancelled forget
  cancelled-slot none sender c only =
      All-map c.node.waiting (λ e h same. let clash : none ≡ some e.0 = h same in cc) only
  cancelled-slot (some id) sender c only =
      All-both (remove c.node.waiting id)
        (λ e kept other same.
          let here : some id ≡ some e.0 = kept same in
          let key : id ≡ e.0 = cc in absurd (other key))
        (All-remove (λ e. e.1 ≡ channel → some id ≡ some e.0) c.node.waiting id only)
        (remove-absent c.node.waiting id)

  pub cancelled-IsAbsent :
      (h : ReplyTo) (c : Context Value) → Waits h c → IsAbsent channel (cancelled h c)
  cancelled-IsAbsent h c w =
      let (callers, only) = Waits-IsKept h c w in
      elim callers [
        | inl e ↦ rw e (cancelled-slot none (some channel) c (rw e at only))
        | inr (row, e) ↦ rw e (cancelled-slot row none c (rw e at only))
      ]

  module _ (tell : ReplyTo → Context Value → Result TellError (Unit {0}) × ReplyTo × Context Value)
      (receive : Context Value → Option Value × Context Value) (c : Context Value)
      (told : Waits (tell (from_sender channel) c).1 (tell (from_sender channel) c).2)
      (waited : (h : ReplyTo) (d : Context Value) → Waits h d → Waits h (receive d).1) where
    body-Waits : Waits (ask_body tell receive channel c).1 (ask_body tell receive channel c).2
    unfolding ask_body await_answer
    body-Waits = elim (Result-cases (tell (from_sender channel) c).0) [
      | inl (_, e) ↦
          rw (e, ask_body)
            (waited (tell (from_sender channel) c).1 (tell (from_sender channel) c).2 told)
      | inr (x, e) ↦ rw (e, ask_body) told
    ]

    asked-IsAbsent : IsAbsent channel (ask tell receive channel c).1
    unfolding ask
    asked-IsAbsent =
        cancelled-IsAbsent (ask_body tell receive channel c).1 (ask_body tell receive channel c).2
          body-Waits

    -- A caller whose channel is in no row of its node's table is in none when its question has ended, however
    -- that came: with an answer, with an error of telling, without an answer, or because its deadline
    -- passed while it told or while it waited. Until then anything may happen to the handle and the table but
    -- that another caller registers with this channel.
    pub ask-IsAbsent :
        (deadline : Deadline) → IsAbsent channel (ask_within tell receive deadline channel c).1
    unfolding ask_within dropped_in
    ask-IsAbsent never = asked-IsAbsent
    ask-IsAbsent while_telling =
        cancelled-IsAbsent (tell (from_sender channel) c).1 (tell (from_sender channel) c).2 told
    ask-IsAbsent while_waiting = elim (Result-cases (tell (from_sender channel) c).0) [
      | inl (_, e) ↦
          rw (e, ask_within)
            (cancelled-IsAbsent (tell (from_sender channel) c).1
              (receive (tell (from_sender channel) c).2).1
              (waited (tell (from_sender channel) c).1 (tell (from_sender channel) c).2 told))
      | inr (x, e) ↦ rw (e, ask_within) asked-IsAbsent
    ]
