-- ===== src/Replies/Lives.antt =====
-- How a reply handle ends, in src/reply.rs, after any attempts to encode it.
use horsie_actor.Base.{
  ℕ, ◌≡◌, refl, ◌∙◌, sym, Bool, true, false, ◌&&◌, Option, none, some, List, [], ◌∷◌, ◌++◌, any,
  Bytes, if◌then◌else◌, Bool-cases, Option-cases, inl, inr,
}
use mathlib.Core.List.{append-nil}
use horsie_actor.Node.{ClusterNode, Routed, register, answer, abandon}
use horsie_actor.Replies.{
  ReplyTo, local, remote, Act, told, hung_up, routed, Context, send, drop, serialize,
}

-- Attempts to encode the handle: in a context or not, taken by the serialiser or not.
abbrev pub Attempts : Type 0
Attempts = List (Bool × Bool)

abbrev pub is_passed_on : Attempts → Bool
is_passed_on = any (λ a. a.0 && a.1)

abbrev pub is_registered : Attempts → Bool
is_registered = any (λ a. a.0)

-- The handle's owner answers, or drops it.
pub data Fate (Value : Type 0) : Type 0 where
  answers : Value → Fate Value
  drops : Fate Value

module _ {Value : Type 0} (is_open : ℕ → Bool) (encode : Value → Option Bytes) where
  abbrev pub attempted : Attempts → ReplyTo → Context Value → ReplyTo × Context Value
  attempted [] handle c = (handle, c)
  attempted ((in_context, takes) ∷ rest) handle c =
      let (result, next, d) = serialize in_context takes handle c in attempted rest next d

  abbrev pub ended : Fate Value → ReplyTo × Context Value → Context Value
  ended (answers value) (handle, c) = (send is_open encode handle value c).1
  ended drops (handle, c) = drop handle c

  -- What becomes of a caller on another node.
  abbrev pub routed_to : ClusterNode ℕ → ℕ → ℕ → Fate Value → Routed ℕ
  routed_to node origin correlation drops = (abandon node origin correlation).0
  routed_to node origin correlation (answers value) = elim (encode value) [
    | some payload ↦ (answer node origin correlation payload).0
    | none ↦ (abandon node origin correlation).0
  ]

  -- And of one in this process.
  abbrev pub told_to : ℕ → Fate Value → List (Act Value)
  told_to channel drops = hung_up channel ∷ []
  told_to channel (answers value) = if is_open channel then told channel value ∷ [] else []

  attempted-remote :
      (attempts : Attempts) (origin correlation : ℕ) (armed : Bool) (c : Context Value)
      → attempted attempts (remote origin correlation armed) c
        ≡ (remote origin correlation (if is_passed_on attempts then false else armed), c)
  unfolding serialize
  attempted-remote [] origin correlation armed c = refl
  attempted-remote ((false, takes) ∷ rest) origin correlation armed c =
      attempted-remote rest origin correlation armed c
  attempted-remote ((true, false) ∷ rest) origin correlation armed c =
      attempted-remote rest origin correlation armed c
  attempted-remote ((true, true) ∷ rest) origin correlation armed c =
      elim (Bool-cases (is_passed_on rest)) [
        | inl e ↦ attempted-remote rest origin correlation false c ∙ rw e refl
        | inr e ↦ attempted-remote rest origin correlation false c ∙ rw e refl
      ]

  -- A handle to a caller on another node that was ever encoded as a whole says nothing when it ends;
  -- any other tells the caller exactly one thing: the answer, when there is one and it can be encoded,
  -- or that none is coming.
  pub remote-ended :
      (attempts : Attempts) (fate : Fate Value) (origin correlation : ℕ) (c : Context Value)
      → (ended fate (attempted attempts (remote origin correlation true) c)).acts ≡ (
          if is_passed_on attempts
          then c.acts
          else c.acts ++ routed (routed_to c.node origin correlation fate) ∷ [])
  unfolding send drop
  remote-ended attempts fate origin correlation c =
      rw (attempted-remote attempts origin correlation true c)
        (elim (Bool-cases (is_passed_on attempts)) [
          | inl e ↦ rw e (spent fate)
          | inr e ↦ rw e (armed fate)
        ])
    where
      spent : (fate : Fate Value) → (ended fate (remote origin correlation false, c)).acts ≡ c.acts
      spent drops = refl
      spent (answers value) = refl

      armed :
          (fate : Fate Value)
          → (ended fate (remote origin correlation true, c)).acts
            ≡ c.acts ++ routed (routed_to c.node origin correlation fate) ∷ []
      armed drops = refl
      armed (answers value) = elim (Option-cases (encode value)) [
        | inl e ↦ rw (ended, send, routed_to, e) refl
        | inr (payload, e) ↦ rw (ended, send, routed_to, e) refl
      ]

  attempted-spent :
      (attempts : Attempts) (row : Option ℕ) (c : Context Value)
      → attempted attempts (local none row) c ≡ (local none row, c)
  unfolding serialize
  attempted-spent [] row c = refl
  attempted-spent ((false, takes) ∷ rest) row c = attempted-spent rest row c
  attempted-spent ((true, takes) ∷ rest) row c = attempted-spent rest row c

  spent-ended :
      (fate : Fate Value) (row : Option ℕ) (c : Context Value) → ended fate (local none row, c) ≡ c
  unfolding send drop
  spent-ended drops row c = refl
  spent-ended (answers value) row c = refl

  -- A handle to a caller in this process that no transport's context ever encoded tells the caller's
  -- channel the answer, if its receiver is there, or hangs up; any other says nothing when it ends.
  pub local-ended :
      (attempts : Attempts) (fate : Fate Value) (channel : ℕ) (row : Option ℕ) (c : Context Value)
      → (ended fate (attempted attempts (local (some channel) row) c)).acts
        ≡ (if is_registered attempts then c.acts else c.acts ++ told_to channel fate)
  unfolding serialize send drop
  local-ended [] drops channel row c = refl
  local-ended [] (answers value) channel row c = elim (Bool-cases (is_open channel)) [
    | inl e ↦ rw (ended, send, e) refl
    | inr e ↦ rw (ended, send, e) (sym (append-nil c.acts))
  ]
  local-ended ((false, takes) ∷ rest) fate channel row c = local-ended rest fate channel row c
  local-ended ((true, takes) ∷ rest) fate channel row c =
      let (id, node) = register c.node channel in
      let d : Context Value = record c { node = node } in
      rw (attempted-spent rest (some id) d, spent-ended fate (some id) d) refl
