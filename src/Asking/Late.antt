-- ===== src/Asking/Late.antt =====
-- A handle that is encoded after its caller gave up, in src/reply.rs and src/runtime.rs.
use horsie_actor.Base.{
  ℕ, ◌+◌, ◌<◌, ◌≡◌, ◌≢◌, refl, Bool, true, [], ◌∷◌, ◌++◌, ap, arith, u64_mod, length, All,
  All-split,
}
use horsie_actor.Map.{Map}
use horsie_actor.Node.{register}
use horsie_actor.Node.Waiting.{IsWaiting, Dropped, kept, oldest, register_lem}
use horsie_actor.Replies.{Context, from_sender, serialize, cancelled}
use horsie_actor.Asking.Waits.{IsAbsent}

-- The newest row is not the one that a full table drops.
Dropped-newest :
    {Deliver : Type 0} (P : ℕ × Deliver → Type 0) (ms before after : Map ℕ Deliver)
    (e : ℕ × Deliver)
    → Dropped before after
    → before ≡ ms ++ e ∷ []
    → All P after
    → P e
Dropped-newest P ms _ _ e (kept m fits) same all = (All-split P ms [] e (rw same at all)).0
Dropped-newest P [] _ _ e (oldest x m full) same all =
    let size = ap length same in absurd (omega (arith, full, size))
Dropped-newest P (y ∷ ms) _ _ e (oldest x m full) same all =
    let rest : m ≡ ms ++ e ∷ [] = cc in (All-split P ms [] e (rw rest at all)).0

-- A caller that gives up before its handle is encoded, which leaves nothing to forget, is in the table of
-- its node after the handle is encoded, though nobody waits: the table is well formed, and its counter has not
-- run out.
pub late-encode :
    {Value : Type 0} (c : Context Value) (channel : ℕ) (takes : Bool)
    → IsWaiting c.node
    → c.node.correlations + 1 < u64_mod
    → (cancelled (from_sender channel) c ≡ c)
      × ¬ IsAbsent channel
          (serialize true takes (from_sender channel) (cancelled (from_sender channel) c)).2
unfolding serialize cancelled
late-encode c channel takes w room =
    let (_, dropped, _) = register_lem c.node channel w room in
    (
      refl,
      λ absent.
          Dropped-newest (λ e. e.1 ≢ channel) c.node.waiting
            (c.node.waiting ++ ((register c.node channel).0, channel) ∷ [])
            (register c.node channel).1.waiting ((register c.node channel).0, channel) dropped refl
            absent refl,
    )
