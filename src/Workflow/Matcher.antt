-- ===== src/Workflow/Matcher.antt =====
-- src/workflow/mod.rs: the search for a pattern in a stream of bytes, by the table of the lengths of
-- the pattern's borders. `none` is a panic, an index out of range, or a loop that has not ended.
use oh_myserial.Common.{
  ℕ, zero, suc, true, false, List, [], ◌∷◌, Option, none, some, ◌==◌, if◌then◌else◌, length,
  get_elem?,
}

infixl 1 ◌>>=◌
abbrev pub ◌>>=◌ {ℓ} : {A B : Type ℓ} → Option A → (A → Option B) → Option B
none >>= f = none
some a >>= f = f a

-- `while matched > 0 && pattern[matched] != byte { matched = table[matched - 1]; }`.
unfoldable pub fall_back : ℕ → List ℕ → List ℕ → ℕ → ℕ → Option ℕ
fall_back zero pattern table byte matched = none
fall_back (suc fuel) pattern table byte zero = some zero
fall_back (suc fuel) pattern table byte (suc k) = do
  here ← get_elem? pattern (suc k)
  elim (here == byte) [
    | true ↦ some (suc k)
    | false ↦ (do shorter ← get_elem? table k; fall_back fuel pattern table byte shorter)
  ]

-- The body of both loops: fall back, and go on if the byte continues the pattern. Falling back
-- shortens the match, so that one round more than its length is enough.
unfoldable pub advance : List ℕ → List ℕ → ℕ → ℕ → Option ℕ
unfolding fall_back
advance pattern table byte matched = do
  kept ← fall_back (suc matched) pattern table byte matched
  here ← get_elem? pattern kept
  some (if here == byte then suc kept else kept)

-- `table[index] = length`.
unfoldable pub set {ℓ} : {A : Type ℓ} → List A → ℕ → A → Option (List A)
set [] i a = none
set (b ∷ xs) zero a = some (a ∷ xs)
set (b ∷ xs) (suc i) a = do ys ← set xs i a; some (b ∷ ys)

-- The rest of the loop of `prefix_table`, over the bytes of the pattern from `index` on.
unfoldable pub prefix_loop : List ℕ → List ℕ → ℕ → List ℕ → ℕ → Option (List ℕ)
prefix_loop pattern [] index table len = some table
prefix_loop pattern (byte ∷ rest) index table len = do
  longer ← advance pattern table byte len
  filled ← set table index longer
  prefix_loop pattern rest (suc index) filled longer

unfoldable pub zeros : ℕ → List ℕ
zeros zero = []
zeros (suc n) = 0 ∷ zeros n

unfoldable pub prefix_table : List ℕ → Option (List ℕ)
unfolding prefix_loop zeros
prefix_table [] = some []
prefix_table (first ∷ rest) = prefix_loop (first ∷ rest) rest 1 (zeros (length (first ∷ rest))) 0

-- The loop of `expect_bytes` over the bytes of an event: whether the pattern was found, and else how
-- much of it is matched.
pub data Scanned : Type 0 where
  found : Scanned
  partial : ℕ → Scanned

unfoldable pub scan : List ℕ → List ℕ → List ℕ → ℕ → Option Scanned
scan pattern table [] matched = some (partial matched)
scan pattern table (byte ∷ rest) matched = do
  longer ← advance pattern table byte matched
  elim (longer == length pattern) [ true ↦ some found | false ↦ scan pattern table rest longer ]
