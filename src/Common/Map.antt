-- ===== src/Common/Map.antt =====
-- A `HashMap` keyed by texts, as an association list with one entry for a key. The order of the
-- list stands for the map's unspecified iteration order.
use Prim.Native.String.{String}
use mathlib.Core.List.{List, [], ◌∷◌}
use native.Mathlib.Omega.{arith}
use mathlib.Core.Path.{◌≡◌, subst}
use mathlib.Core.Option.{Option, none, some, some-injective}
use oh_myserial.Common.Tests.{str_eq, if◌then◌else◌, Bool-cases}
use mathlib.Core.Logic.{inl, inr}

module _ {ℓ} {V : Type ℓ} where
  unfoldable pub lookup : String → List (String × V) → Option V
  lookup key [] = none
  lookup key ((name, value) ∷ entries) = if str_eq name key then some value else lookup key entries

  unfoldable pub insert : String → V → List (String × V) → List (String × V)
  insert key fresh [] = (key, fresh) ∷ []
  insert key fresh ((name, value) ∷ entries) =
      if str_eq name key then (key, fresh) ∷ entries else (name, value) ∷ insert key fresh entries

  unfoldable pub remove : String → List (String × V) → List (String × V)
  remove key [] = []
  remove key ((name, value) ∷ entries) =
      if str_eq name key then remove key entries else (name, value) ∷ remove key entries

  -- A write to an entry that is not there does nothing.
  unfoldable pub update : String → (V → V) → List (String × V) → List (String × V)
  update key f [] = []
  update key f ((name, value) ∷ entries) =
      if str_eq name key
      then (name, f value) ∷ update key f entries
      else (name, value) ∷ update key f entries

  abbrev pub values : List (String × V) → List V
  values [] = []
  values ((name, value) ∷ entries) = value ∷ values entries

  -- A predicate on every value.
  abbrev pub AllValues {κ} : (V → Type κ) → List (String × V) → Type κ
  AllValues P [] = Unit
  AllValues P ((j, v) ∷ m) = P v × AllValues P m

  module _ {κ} (P : V → Type κ) where
    pub AllValues-insert :
        (k : String) (v : V) (m : List (String × V))
        → P v
        → AllValues P m
        → AllValues P (insert k v m)
    unfolding insert
    AllValues-insert k v [] p h = (p, tt)
    AllValues-insert k v ((j, w) ∷ m) p h = elim (Bool-cases (str_eq j k)) [
      | inl same ↦ rw same (p, h.1)
      | inr other ↦ rw other (h.0, AllValues-insert k v m p h.1)
    ]

    pub AllValues-remove :
        (k : String) (m : List (String × V)) → AllValues P m → AllValues P (remove k m)
    unfolding remove
    AllValues-remove k [] h = h
    AllValues-remove k ((j, w) ∷ m) h = elim (Bool-cases (str_eq j k)) [
      | inl same ↦ rw same (AllValues-remove k m h.1)
      | inr other ↦ rw other (h.0, AllValues-remove k m h.1)
    ]

    pub AllValues-update :
        (k : String) (f : V → V) (m : List (String × V))
        → ((v : V) → P v → P (f v))
        → AllValues P m
        → AllValues P (update k f m)
    unfolding update
    AllValues-update k f [] p h = h
    AllValues-update k f ((j, w) ∷ m) p h = elim (Bool-cases (str_eq j k)) [
      | inl same ↦ rw same (p w h.0, AllValues-update k f m p h.1)
      | inr other ↦ rw other (h.0, AllValues-update k f m p h.1)
    ]

    pub AllValues-lookup :
        (k : String) (v : V) (m : List (String × V)) → AllValues P m → lookup k m ≡ some v → P v
    unfolding lookup
    AllValues-lookup k v [] h e = ground (arith, e)
    AllValues-lookup k v ((j, w) ∷ m) h e = elim (Bool-cases (str_eq j k)) [
      | inl same ↦ subst P (some-injective w v (rw same at e)) h.0
      | inr other ↦ AllValues-lookup k v m h.1 (ground (arith, e, other))
    ]
