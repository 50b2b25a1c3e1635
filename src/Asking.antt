-- ===== src/Asking.antt =====
-- `ask` and `ask_within` of src/runtime.rs. What telling does with the handle in the command, and what the
-- node does while the caller waits, are parameters; a handle keeps the slot that it shares with its caller.
pub mod Table
pub mod Waits
pub mod Late
use horsie_actor.Base.{ℕ, Option, none, some, Result, ok, err, ok_or}
use horsie_actor.ActorRef.{TellError, mailbox_closed, no_answer}
use horsie_actor.Replies.{ReplyTo, Context, from_sender, cancelled}

-- Where the caller's future is when its deadline passes.
pub data Deadline : Type 0 where
  never while_telling while_waiting : Deadline

module _ {Value : Type 0}
    (tell : ReplyTo → Context Value → Result TellError (Unit {0}) × ReplyTo × Context Value)
    (receive : Context Value → Option Value × Context Value) where
  -- The caller's end of the channel after the command was told: the answer, and the handle as it is then.
  unfoldable pub await_answer :
      ReplyTo → Context Value → Result TellError Value × ReplyTo × Context Value
  await_answer handle during =
      let (answer, later) = receive during in (ok_or answer mailbox_closed, handle, later)

  -- `ask` up to the drop of its guard.
  unfoldable pub ask_body : ℕ → Context Value → Result TellError Value × ReplyTo × Context Value
  ask_body channel c =
      let (told, handle, during) = tell (from_sender channel) c in
      elim told [ err e ↦ (err e, handle, during) | ok _ ↦ await_answer handle during ]

  -- The drop of `Cancelled`.
  abbrev pub guarded :
      Result TellError Value × ReplyTo × Context Value → Result TellError Value × Context Value
  guarded ended = (ended.0, cancelled ended.1 ended.2)

  unfoldable pub ask : ℕ → Context Value → Result TellError Value × Context Value
  unfolding ask_body await_answer cancelled
  ask channel c = guarded (ask_body channel c)

  -- The future of an `ask` that is dropped.
  unfoldable pub dropped_in : Deadline → ℕ → Context Value → ReplyTo × Context Value
  dropped_in never channel c = (from_sender channel, c)
  dropped_in while_telling channel c =
      let (_, handle, during) = tell (from_sender channel) c in (handle, during)
  dropped_in while_waiting channel c =
      let (_, handle, during) = tell (from_sender channel) c in (handle, (receive during).1)

  unfoldable pub ask_within : Deadline → ℕ → Context Value → Result TellError Value × Context Value
  unfolding ask dropped_in cancelled
  ask_within never channel c = ask channel c
  ask_within while_telling channel c =
      let (handle, now) = dropped_in while_telling channel c in
      (err no_answer, cancelled handle now)
  ask_within while_waiting channel c =
      let (told, _, _) = tell (from_sender channel) c in
      let (handle, now) = dropped_in while_waiting channel c in
      elim told [ err e ↦ ask channel c | ok _ ↦ (err no_answer, cancelled handle now) ]
