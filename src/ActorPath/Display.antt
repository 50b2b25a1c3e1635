-- ===== src/ActorPath/Display.antt =====
-- `parse` and `Display` of src/path.rs are inverse to one another on valid paths.
use horsie_actor.Base.{
  ℕ, ◌≡◌, refl, sym, ap, ◌∙◌, Bool, true, false, List, [], ◌∷◌, ◌++◌, Text, ok, ◌==◌, nat_eq, any,
  All, arith, Bool-cases, inl, inr,
}
use mathlib.Core.List.{append-nil}
use horsie_actor.ActorPath.{
  ActorPath, split, parse, to_string, display_segments, is_valid_name, is_empty,
}

abbrev has_slash : Text → Bool
has_slash = any (λ c. c == b'/')

abbrev pub AllValid : List Text → Type 0
AllValid = All (λ s. is_valid_name s ≡ true)

-- The pieces are never none.
split_pieces : (t : Text) → (piece : Text) × (rest : List Text) × (split t ≡ piece ∷ rest)
unfolding split
split_pieces [] = ([], [], refl)
split_pieces (c ∷ t) =
    let (piece, rest, e) = split_pieces t in
    elim (Bool-cases (c == b'/')) [
      | inl slash ↦ ([], piece ∷ rest, rw (e, split, slash))
      | inr other ↦ (c ∷ piece, rest, rw (e, split, other))
    ]

-- A segment with no slash is one piece, alone and before a slash.
split-segment :
    (s : Text) (rest : Text)
    → has_slash s ≡ false
    → (split s ≡ s ∷ []) × (split (s ++ b'/' ∷ rest) ≡ s ∷ split rest)
unfolding split
split-segment [] rest h = let (piece, more, e) = split_pieces rest in (refl, rw (e, split))
split-segment (c ∷ s) rest h =
    let ih = split-segment s rest (ground arith) in (ground (arith, ih.0), ground (arith, ih.1))

display_segments-split : (t : Text) → display_segments (split t) ≡ b'/' ∷ t
unfolding split display_segments
display_segments-split [] = refl
display_segments-split (c ∷ t) =
    let (piece, rest, e) = split_pieces t in ground (arith, e, display_segments-split t)

split-display_segments :
    (s : Text) (rest : List Text)
    → AllValid (s ∷ rest)
    → split (s ++ display_segments rest) ≡ s ∷ rest
unfolding display_segments is_valid_name
split-display_segments s [] h = rw append-nil (split-segment s [] (ground arith)).0
split-display_segments s (t ∷ rest) h =
    (split-segment s (t ++ display_segments rest) (ground arith)).1
    ∙ ap (◌∷◌ s) (split-display_segments t rest h.1)

no_empty_segment : (ss : List Text) → AllValid ss → any is_empty ss ≡ false
unfolding is_valid_name
no_empty_segment [] h = refl
no_empty_segment (s ∷ ss) h = ground (arith, no_empty_segment ss h.1)

split_slashless : (t : Text) → All (λ s. has_slash s ≡ false) (split t)
unfolding split
split_slashless [] = (refl, tt)
split_slashless (c ∷ t) =
    let (piece, rest, e) = split_pieces t in
    let ih : All (λ s. has_slash s ≡ false) (piece ∷ rest) = rw e at (split_slashless t) in
    elim (Bool-cases (c == b'/')) [
      | inl slash ↦ rw (e, split, slash) (refl, ih)
      | inr other ↦ rw (e, split, other) (ground (arith, ih.0), ih.1)
    ]

slashless-AllValid :
    (ss : List Text) → any is_empty ss ≡ false → All (λ s. has_slash s ≡ false) ss → AllValid ss
unfolding is_valid_name
slashless-AllValid [] h n = tt
slashless-AllValid (s ∷ ss) h n = (ground (arith, n.0), slashless-AllValid ss (ground arith) n.1)

parse-display_segments :
    (ss : List Text)
    → AllValid ss
    → parse (to_string (record { segments = ss })) ≡ ok (record { segments = ss })
unfolding parse to_string is_valid_name
parse-display_segments [] h = refl
parse-display_segments ([] ∷ rest) h = ground arith
parse-display_segments ((c ∷ s) ∷ rest) h = ground (
  arith,
  split-display_segments (c ∷ s) rest (unfold is_valid_name in h),
  no_empty_segment ((c ∷ s) ∷ rest) (unfold is_valid_name in h),
)

-- A path whose segments are usable names comes back from its display form.
pub parse-to_string : (p : ActorPath) → AllValid p.segments → parse (to_string p) ≡ ok p
parse-to_string p h = parse-display_segments p.segments h

to_string-nonempty :
    (p : ActorPath) (piece : Text) (rest : List Text)
    → p.segments ≡ piece ∷ rest
    → to_string p ≡ display_segments (piece ∷ rest)
unfolding to_string
to_string-nonempty p piece rest e = ground (arith, e)

parse-inversion :
    (c d : ℕ) (t : Text) (p : ActorPath)
    → parse (c ∷ d ∷ t) ≡ ok p
    → (c ≡ b'/') × (any is_empty (split (d ∷ t)) ≡ false) × (p.segments ≡ split (d ∷ t))
unfolding parse
parse-inversion c d t p h = ground arith

-- A text that parses is the display form of the path that it parses to, and that path's segments
-- are usable names: so a path has one reading, and no two texts stand for one path.
pub parse-eq-ok :
    (text : Text) (p : ActorPath) → parse text ≡ ok p → (to_string p ≡ text) × AllValid p.segments
parse-eq-ok [] p h = unfold parse in ground arith
parse-eq-ok (c ∷ []) p h =
    unfold parse to_string in let e : p.segments ≡ [] = ground arith in (ground arith, rw e tt)
parse-eq-ok (c ∷ d ∷ t) p h =
    let (slash, full, e) = parse-inversion c d t p h in
    let (piece, rest, f) = split_pieces (d ∷ t) in
    (
      to_string-nonempty p piece rest (e ∙ f)
          ∙ (ap display_segments (sym f)
              ∙ (display_segments-split (d ∷ t) ∙ ap (λ x. x ∷ d ∷ t) (sym slash))),
      rw e (slashless-AllValid (split (d ∷ t)) full (split_slashless (d ∷ t))),
    )
