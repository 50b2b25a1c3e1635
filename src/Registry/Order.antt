-- ===== src/Registry/Order.antt =====
-- The order in which actors end when src/system.rs stops a subtree.
use horsie_actor.Base.{
  ℕ, ◌≡◌, ◌⊎◌, refl, sym, ap, ◌∙◌, Bool, true, false, none, some, List, [], ◌∷◌, ◌++◌, any, ◌==◌,
  nat_eq, if◌then◌else◌, arith, Bool-cases, inl, inr, All, All-append, All-map,
}
use mathlib.Core.List.{append_assoc, append-nil}
use horsie_actor.Map.{get}
use horsie_actor.ActorPath.{ActorPath, starts_with}
use horsie_actor.Registry.{Registry, RegistryEntry, path_eq}
use horsie_actor.Registry.Prefixes.{starts_with_trans}

-- No actor is below one that ended before it.
abbrev pub ChildrenFirst : List (ActorPath × ℕ) → Type 0
ChildrenFirst [] = Unit {0}
ChildrenFirst (e ∷ rest) = All (λ q. starts_with q.0 e.0 ≡ false) rest × ChildrenFirst rest

abbrev pub WasLive : Registry → ActorPath × ℕ → Type 0
WasLive s e = (x : RegistryEntry) × (get s.live e.0 ≡ some x) × (x.mailbox ≡ e.1)

abbrev pub IsQuiet : Registry → ActorPath × ℕ → Type 0
IsQuiet t e = (r : ActorPath) → starts_with r e.0 ≡ true → get t.live r ≡ none

-- What stopping below `top` leads to: who ended, and in which order.
pub record Sweep (top : ActorPath) (s t : Registry) : Type 0 where
  pub new : List (ActorPath × ℕ)
  pub ended : t.ended ≡ s.ended ++ new
  pub spawned : t.spawned ≡ s.spawned
  pub next_mailbox : t.next_mailbox ≡ s.next_mailbox
  pub within : All (λ e. starts_with e.0 top ≡ true) new
  pub ordered : ChildrenFirst new
  pub were_live : All (WasLive s) new
  pub quiet : All (IsQuiet t) new
  pub shrinks : (r : ActorPath) → (get t.live r ≡ none) ⊎ (get t.live r ≡ get s.live r)
  pub complete :
      (r : ActorPath) (x : RegistryEntry)
      → get s.live r ≡ some x
      → get t.live r ≡ none
      → any (λ e. e.1 == x.mailbox) new ≡ true

pub Sweep-refl : (top : ActorPath) (s : Registry) → Sweep top s s
Sweep-refl top s = record {
  new = [];
  ended = sym (append-nil s.ended);
  spawned = refl;
  next_mailbox = refl;
  within = tt;
  ordered = tt;
  were_live = tt;
  quiet = tt;
  shrinks = λ r. inr refl;
  complete = λ r x h k. ground (arith, h, k);
}

pub any-append {ℓ} :
    {A : Type ℓ} (f : A → Bool) (xs ys : List A)
    → any f (xs ++ ys) ≡ (if any f xs then true else any f ys)
any-append f [] ys = refl
any-append f (x ∷ xs) ys = ground (arith, any-append f xs ys)

pub ChildrenFirst-append :
    (xs ys : List (ActorPath × ℕ))
    → ChildrenFirst xs
    → ChildrenFirst ys
    → All (λ e. All (λ q. starts_with q.0 e.0 ≡ false) ys) xs
    → ChildrenFirst (xs ++ ys)
ChildrenFirst-append [] ys a b c = b
ChildrenFirst-append (x ∷ xs) ys a b c = (
  All-append (λ q. starts_with q.0 x.0 ≡ false) xs ys a.0 c.0,
  ChildrenFirst-append xs ys a.1 b c.1,
)

-- Who was live where a path is quiet is not below that path.
apart :
    (t : Registry) (e q : ActorPath × ℕ) → IsQuiet t e → WasLive t q → starts_with q.0 e.0 ≡ false
apart t e q quiet (x, there, same) = elim (Bool-cases (starts_with q.0 e.0)) [
  | inl under ↦ ground (arith, quiet q.0 under, there)
  | inr other ↦ other
]

module _ {top : ActorPath} {s t u : Registry} (a : Sweep top s t) (b : Sweep top t u) where
  still-IsQuiet : (e : ActorPath × ℕ) → IsQuiet t e → IsQuiet u e
  still-IsQuiet e quiet r under = elim (b.shrinks r) [
    | inl gone ↦ gone
    | inr same ↦ same ∙ quiet r under
  ]

  WasLive-before : (e : ActorPath × ℕ) → WasLive t e → WasLive s e
  WasLive-before e (x, there, same) = elim (a.shrinks e.0) [
    | inl gone ↦ ground (arith, gone, there)
    | inr kept ↦ (x, sym kept ∙ there, same)
  ]

  pub Sweep-trans : Sweep top s u
  Sweep-trans = record {
    new = a.new ++ b.new;
    ended = b.ended ∙ (ap (λ z. z ++ b.new) a.ended ∙ append_assoc s.ended a.new b.new);
    spawned = b.spawned ∙ a.spawned;
    next_mailbox = b.next_mailbox ∙ a.next_mailbox;
    within = All-append (λ e. starts_with e.0 top ≡ true) a.new b.new a.within b.within;
    ordered = ChildrenFirst-append a.new b.new a.ordered b.ordered (
        All-map a.new (λ e quiet. All-map b.new (λ q live. apart t e q quiet live) b.were_live)
          a.quiet);
    were_live =
        All-append (WasLive s) a.new b.new a.were_live (All-map b.new WasLive-before b.were_live);
    quiet = All-append (IsQuiet u) a.new b.new (All-map a.new still-IsQuiet a.quiet) b.quiet;
    shrinks = λ r. elim (b.shrinks r) [
      | inl gone ↦ inl gone
      | inr same ↦ elim (a.shrinks r) [
        | inl gone ↦ inl (same ∙ gone)
        | inr kept ↦ inr (same ∙ kept)
      ]
    ];
    complete = λ r x there gone. elim (a.shrinks r) [
      | inl early ↦
          ground (arith, any-append (λ e. e.1 == x.mailbox) a.new b.new, a.complete r x there early)
      | inr kept ↦ ground (
        arith,
        any-append (λ e. e.1 == x.mailbox) a.new b.new,
        b.complete r x (kept ∙ there) gone,
      )
    ];
  }

pub Sweep-weaken :
    {s t : Registry} (top below : ActorPath)
    → starts_with below top ≡ true
    → Sweep below s t
    → Sweep top s t
Sweep-weaken top below under w = record {
  new = w.new;
  ended = w.ended;
  spawned = w.spawned;
  next_mailbox = w.next_mailbox;
  within = All-map w.new (λ e h. starts_with_trans e.0 below top h under) w.within;
  ordered = w.ordered;
  were_live = w.were_live;
  quiet = w.quiet;
  shrinks = w.shrinks;
  complete = w.complete;
}
