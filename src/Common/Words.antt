-- ===== src/Common/Words.antt =====
-- Machine words: the source's `u64` is 64 bits wide, and so is `usize`.
use Prim.Native.Nat.{ℕ, ◌+◌, ◌*◌, ◌/◌, ◌%◌, min}

abbrev pub u64_max : ℕ
u64_max = 18446744073709551615

-- `saturating_add` of u64 and usize. `saturating_sub` is the subtraction of ℕ.
abbrev pub saturating_add : ℕ → ℕ → ℕ
saturating_add a b = min (a + b) u64_max

-- `AtomicU64::fetch_add` wraps around.
abbrev pub fetch_add : ℕ → ℕ → ℕ
fetch_add a b = (a + b) % 18446744073709551616

-- An `Instant` and a `Duration` count nanoseconds.
abbrev pub from_millis : ℕ → ℕ
from_millis ms = ms * 1000000

abbrev pub as_millis : ℕ → ℕ
as_millis d = d / 1000000
