-- ===== src/Common/Distinct.antt =====
-- Lists of names without a repetition.
use Prim.Native.String.{String}
use mathlib.Core.Path.{◌≡◌, refl}
use mathlib.Core.Logic.{inl, inr}
use mathlib.Core.Bool.{Bool, true, false, ◌||◌}
use mathlib.Core.List.{List, [], ◌∷◌, ◌++◌}
use text.Mathlib.TextEquality.{eq_iff}
use native.Mathlib.Omega.{arith}
use oh_myserial.Common.Tests.{str_eq, Bool-cases}

abbrev pub contains : String → List String → Bool
contains key [] = false
contains key (k ∷ keys) = str_eq k key || contains key keys

abbrev pub AreDistinct : List String → Type 0
AreDistinct [] = Unit
AreDistinct (k ∷ keys) = (contains k keys ≡ false) × AreDistinct keys

contains-last :
    (k key : String) (ks : List String)
    → contains k ks ≡ false
    → str_eq key k ≡ false
    → contains k (ks ++ key ∷ []) ≡ false
contains-last k key [] free other = ground (arith, other)
contains-last k key (j ∷ ks) free other =
    ground (arith, free, contains-last k key ks (ground (arith, free)) other)

pub AreDistinct-last :
    (key : String) (ks : List String)
    → AreDistinct ks
    → contains key ks ≡ false
    → AreDistinct (ks ++ key ∷ [])
AreDistinct-last key [] d free = (refl, tt)
AreDistinct-last key (k ∷ ks) d free = (
  contains-last k key ks d.0 (ground (arith, free, eq_iff k key, eq_iff key k)),
  AreDistinct-last key ks d.1 (ground (arith, free)),
)

pub contains-append :
    (key : String) (ks ls : List String) → contains key ks ≡ true → contains key (ks ++ ls) ≡ true
contains-append key [] ls h = ground arith
contains-append key (k ∷ ks) ls h = elim (Bool-cases (str_eq k key)) [
  | inl same ↦ rw same refl
  | inr other ↦ rw other (contains-append key ks ls (ground (arith, h, other)))
]

pub contains-append_right :
    (key : String) (ks ls : List String) → contains key ls ≡ true → contains key (ks ++ ls) ≡ true
contains-append_right key [] ls h = h
contains-append_right key (k ∷ ks) ls h = ground (arith, contains-append_right key ks ls h)
