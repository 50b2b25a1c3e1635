-- ===== src/Journal/Log.antt =====
-- Well-formed logs of src/journal.rs: event numbers start at 1 and climb to the counter, and the
-- snapshot lies at or below the counter.
use horsie_actor.Base.{
  ℕ, ◌+◌, ◌≤◌, ◌<◌, ◌≡◌, refl, Option, none, some, List, [], ◌∷◌, ◌++◌, arith, Bytes, length,
  retain-append, ltb, u64_mod,
}
use mathlib.Core.List.{append-nil, append_assoc}
use horsie_actor.Journal.{Entry, push_event, push_events, events_after}

-- The events that `persist` appends to a log that ends at `n`.
unfoldable pub numbered : ℕ → List Bytes → List (ℕ × Bytes)
numbered n [] = []
numbered n (bytes ∷ rest) = (n + 1, bytes) ∷ numbered (n + 1) rest

abbrev pub Climbs : ℕ → List (ℕ × Bytes) → ℕ → Type 0
Climbs lo [] hi = lo ≤ hi
Climbs lo ((n, bytes) ∷ rest) hi = (lo < n) × Climbs n rest hi

abbrev pub SnapshotBelow : Option (Bytes × ℕ) → ℕ → Type 0
SnapshotBelow none hi = Unit {0}
SnapshotBelow (some (state, n)) hi = n ≤ hi

pub record IsLog (e : Entry) : Type 0 where
  pub climbs : Climbs 0 e.events e.last_seq
  pub snapshot_below : SnapshotBelow e.snapshot e.last_seq
  pub in_range : e.last_seq < u64_mod

pub push_events_lem :
    (e : Entry) (events : List Bytes)
    → e.last_seq + length events < u64_mod
    → push_events e events ≡ record e {
      events = e.events ++ numbered e.last_seq events;
      last_seq = e.last_seq + length events;
    }
unfolding push_events push_event numbered
push_events_lem e [] h = ground (arith, append-nil e.events)
push_events_lem e (b ∷ bs) h = ground (
  arith,
  push_events_lem (push_event e b) bs,
  append_assoc e.events ((e.last_seq + 1, b) ∷ []) (numbered (e.last_seq + 1) bs),
)

pub Climbs-weaken :
    (lo lo' hi : ℕ) (xs : List (ℕ × Bytes)) → lo' ≤ lo → Climbs lo xs hi → Climbs lo' xs hi
Climbs-weaken lo lo' hi [] h c = omega arith
Climbs-weaken lo lo' hi ((n, b) ∷ xs) h c = (omega arith, c.1)

pub Climbs-append :
    (lo mid hi : ℕ) (xs ys : List (ℕ × Bytes))
    → Climbs lo xs mid
    → Climbs mid ys hi
    → Climbs lo (xs ++ ys) hi
Climbs-append lo mid hi [] ys c d = Climbs-weaken mid lo hi ys c d
Climbs-append lo mid hi ((n, b) ∷ xs) ys c d = (c.0, Climbs-append n mid hi xs ys c.1 d)

pub numbered-Climbs : (n : ℕ) (bs : List Bytes) → Climbs n (numbered n bs) (n + length bs)
unfolding numbered
numbered-Climbs n [] = omega arith
numbered-Climbs n (b ∷ bs) =
    let shift : n + 1 + length bs ≡ n + length (b ∷ bs) = omega arith in
    (omega arith, rw shift at (numbered-Climbs (n + 1) bs))

pub events_after-Climbs :
    (lo hi n : ℕ) (xs : List (ℕ × Bytes)) → Climbs lo xs hi → Climbs lo (events_after n xs) hi
unfolding events_after
events_after-Climbs lo hi n [] c = c
events_after-Climbs lo hi n ((m, b) ∷ xs) c =
    ground (arith, events_after-Climbs m hi n xs c.1, Climbs-weaken m lo hi (events_after n xs))

pub events_after-append :
    (n : ℕ) (xs ys : List (ℕ × Bytes))
    → events_after n (xs ++ ys) ≡ events_after n xs ++ events_after n ys
unfolding events_after
events_after-append n = retain-append (λ e. ltb n e.0)

-- Nothing is left above the end of a log.
pub events_after_top :
    (lo hi n : ℕ) (xs : List (ℕ × Bytes)) → Climbs lo xs hi → hi ≤ n → events_after n xs ≡ []
unfolding events_after
events_after_top lo hi n [] c h = refl
events_after_top lo hi n ((m, b) ∷ xs) c h =
    ground (arith, events_after_top m hi n xs c.1 h, Climbs-le m hi xs c.1)
  where
    Climbs-le : (lo hi : ℕ) (xs : List (ℕ × Bytes)) → Climbs lo xs hi → lo ≤ hi
    Climbs-le lo hi [] c = c
    Climbs-le lo hi ((m, b) ∷ xs) c = omega (arith, Climbs-le m hi xs c.1)

-- Everything is left above a number at or below the log's start.
pub events_after_bottom :
    (lo hi n : ℕ) (xs : List (ℕ × Bytes)) → Climbs lo xs hi → n ≤ lo → events_after n xs ≡ xs
unfolding events_after
events_after_bottom lo hi n [] c h = refl
events_after_bottom lo hi n ((m, b) ∷ xs) c h = ground (arith, events_after_bottom m hi n xs c.1)

-- To compact up to `m` is invisible to a replay from `m` on.
pub events_after_compacted :
    (m n : ℕ) (xs : List (ℕ × Bytes))
    → m ≤ n
    → events_after n (events_after m xs) ≡ events_after n xs
unfolding events_after
events_after_compacted m n [] h = refl
events_after_compacted m n ((k, b) ∷ xs) h = ground (arith, events_after_compacted m n xs h)

-- What a write adds shows in every replay from the old end or before, after what was there.
pub events_after-numbered :
    (n m : ℕ) (bs : List Bytes) → n ≤ m → events_after n (numbered m bs) ≡ numbered m bs
events_after-numbered n m bs h =
    events_after_bottom m (m + length bs) n (numbered m bs) (numbered-Climbs m bs) h

module _ (e : Entry) (ok : IsLog e) where
  pub push_events-IsLog :
      (events : List Bytes) → e.last_seq + length events < u64_mod → IsLog (push_events e events)
  push_events-IsLog events room = rw (push_events_lem e events room) (record {
    climbs = Climbs-append 0 e.last_seq _ e.events _ ok.climbs (numbered-Climbs e.last_seq events);
    snapshot_below = SnapshotBelow-mono e.snapshot ok.snapshot_below;
    in_range = room;
  })
    where
      SnapshotBelow-mono :
          (s : Option (Bytes × ℕ))
          → SnapshotBelow s e.last_seq
          → SnapshotBelow s (e.last_seq + length events)
      SnapshotBelow-mono none h = tt
      SnapshotBelow-mono (some (b, n)) h = omega arith

  pub snapshot-IsLog :
      (state : Bytes) (n : ℕ) → n ≤ e.last_seq → IsLog (record e { snapshot = some (state, n) })
  snapshot-IsLog state n h = record {
    climbs = ok.climbs;
    snapshot_below = h;
    in_range = ok.in_range;
  }

  pub compact-IsLog : (n : ℕ) → IsLog (record e { events = events_after n e.events })
  compact-IsLog n = record {
    climbs = events_after-Climbs 0 e.last_seq n e.events ok.climbs;
    snapshot_below = ok.snapshot_below;
    in_range = ok.in_range;
  }
