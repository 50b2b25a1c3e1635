-- ===== src/Units.antt =====
-- The unit tests that stand in the source files, run on the definitions that model those files: a test is
-- a Boolean, the conjunction of what it asserts.
pub mod Journals
pub mod Windows
pub mod Placements
pub mod Paths
pub mod Shards
pub mod Counters
use horsie_actor.Base.{ℕ, ◌+◌, ◌/◌, ◌%◌, Bool, true, false, List, [], ◌∷◌, Text, ltb}

abbrev pub all_hold : List Bool → Bool
all_hold [] = true
all_hold (b ∷ bs) = let rest = all_hold bs in elim b [ true ↦ rest | false ↦ false ]

-- How a number below a thousand is printed.
abbrev digit : ℕ → ℕ
digit n = n % 10 + 48

abbrev pub decimal : ℕ → Text
decimal n = elim (ltb n 10) [
  | true ↦ digit n ∷ []
  | false ↦ elim (ltb n 100) [
    | true ↦ digit (n / 10) ∷ digit n ∷ []
    | false ↦ digit (n / 100) ∷ digit (n / 10) ∷ digit n ∷ []
  ]
]
