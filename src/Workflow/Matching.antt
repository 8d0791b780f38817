-- ===== src/Workflow/Matching.antt =====
-- src/workflow/mod.rs: the search over any reads finds the pattern exactly when it occurs in the bytes
-- read.
use oh_myserial.Common.{
  ℕ, ◌<◌, ◌≡◌, ◌↔◌, ◌⊎◌, ◌∙◌, inl, inr, refl, sym, ap, subst, Bool, true, false, List, [], ◌∷◌,
  ◌++◌, Option, none, some, arith, ◌==◌, ==_iff, Bool-cases, length, take, flatten, length-append,
}
use mathlib.Core.List.{append_assoc, append-nil}
use oh_myserial.Workflow.Matcher.{◌>>=◌, advance, prefix_table, scan, Scanned, found, partial}
use oh_myserial.Workflow.Suffixes.{IsSuffix, IsSuffix-length}
use oh_myserial.Workflow.Longest.{IsLongest, IsTable, advance-IsLongest}
use oh_myserial.Workflow.Table.{IsLongest-start, prefix_table-IsFull}

-- The pattern occurs in a text: a part of the text from its start ends with it.
pub record Occurs (pattern text : List ℕ) : Type 0 where
  pub before : List ℕ
  pub after : List ℕ
  pub split : text ≡ before ++ after
  pub ending : IsSuffix pattern before

module _ {ℓ} {A : Type ℓ} where
  take-length : (xs : List A) → take (length xs) xs ≡ xs
  take-length [] = refl
  take-length (x ∷ xs) = ap (λ z. x ∷ z) (take-length xs)

  -- A list cut in two, of which the last element is known.
  cut_snoc :
      (before after text : List A) (b : A)
      → text ++ b ∷ [] ≡ before ++ after
      → (before ≡ text ++ b ∷ []) ⊎ ((less : List A) × (text ≡ before ++ less))
  cut_snoc [] after text b e = inr (text, refl)
  cut_snoc (x ∷ before) after [] b e =
      inl (grind (arith, e, ap length e, length-append before after))
  cut_snoc (x ∷ before) after (t ∷ text) b e =
      elim (cut_snoc before after text b (grind (arith, e))) [
        | inl all ↦ inl (grind (arith, e, all))
        | inr (less, split) ↦ inr (less, grind (arith, e, split))
      ]

-- The search goes over the reads until it finds the pattern.
pub search_reads : List ℕ → List ℕ → List (List ℕ) → ℕ → Option Bool
search_reads pattern table [] matched = some false
search_reads pattern table (read ∷ reads) matched = do
  scanned ← scan pattern table read matched
  elim scanned [ found ↦ some true | partial longer ↦ search_reads pattern table reads longer ]

pub search : List ℕ → List (List ℕ) → Option Bool
unfolding search_reads
search pattern reads = do table ← prefix_table pattern; search_reads pattern table reads 0

scan-found :
    (byte longer matched : ℕ) (pattern table bytes : List ℕ)
    → advance pattern table byte matched ≡ some longer
    → (longer == length pattern) ≡ true
    → scan pattern table (byte ∷ bytes) matched ≡ some found
unfolding scan
scan-found byte longer matched pattern table bytes moved full = ground (arith, moved, full)

scan_on :
    (byte longer matched : ℕ) (pattern table bytes : List ℕ)
    → advance pattern table byte matched ≡ some longer
    → (longer == length pattern) ≡ false
    → scan pattern table (byte ∷ bytes) matched ≡ scan pattern table bytes longer
unfolding scan
scan_on byte longer matched pattern table bytes moved short = ground (arith, moved, short)

pub search_reads-found :
    (pattern table read : List ℕ) (reads : List (List ℕ)) (m : ℕ)
    → scan pattern table read m ≡ some found
    → search_reads pattern table (read ∷ reads) m ≡ some true
unfolding search_reads
search_reads-found pattern table read reads m h = ground (arith, h)

pub search_reads-none :
    (pattern table read : List ℕ) (reads : List (List ℕ)) (m : ℕ)
    → scan pattern table read m ≡ none
    → search_reads pattern table (read ∷ reads) m ≡ none
unfolding search_reads
search_reads-none pattern table read reads m h = ground (arith, h)

pub search_reads-nil :
    (pattern table : List ℕ) (m : ℕ) → search_reads pattern table [] m ≡ some false
unfolding search_reads
search_reads-nil pattern table m = refl

pub search_reads-partial :
    (pattern table read : List ℕ) (reads : List (List ℕ)) (m longer : ℕ)
    → scan pattern table read m ≡ some (partial longer)
    → search_reads pattern table (read ∷ reads) m ≡ search_reads pattern table reads longer
unfolding search_reads
search_reads-partial pattern table read reads m longer h = ground (arith, h)

module _ (first : ℕ) (rest : List ℕ) where
  abbrev whole : List ℕ
  whole = first ∷ rest

  -- What a scan says of the text up to its end.
  abbrev pub IsScanned : List ℕ → Option Scanned → Type 0
  IsScanned text none = ⊥
  IsScanned text (some found) = Occurs whole text
  IsScanned text (some (partial m)) =
      (m < length whole) × IsLongest whole m text × (¬ Occurs whole text)

  not-Occurs-nil : ¬ Occurs whole []
  not-Occurs-nil o = omega (
    arith,
    ap length o.split,
    length-append o.before o.after,
    IsSuffix-length whole o.before o.ending,
  )

  not-Occurs-snoc :
      (text : List ℕ) (byte m : ℕ)
      → m < length whole
      → IsLongest whole m (text ++ byte ∷ [])
      → ¬ Occurs whole text
      → ¬ Occurs whole (text ++ byte ∷ [])
  not-Occurs-snoc text byte m short l none_before o =
      elim (cut_snoc o.before o.after text byte o.split) [
        | inl all ↦
            let ends : IsSuffix (take (length whole) whole) (text ++ byte ∷ []) =
              subst (λ z. IsSuffix (take (length whole) whole) z) all
                (subst (λ z. IsSuffix z o.before) (sym (take-length whole)) o.ending) in
            omega (arith, l.longest (length whole) (omega arith) ends)
        | inr (less, split) ↦
            none_before
              (record { before = o.before; after = less; split = split; ending = o.ending })
      ]

  scan-IsScanned :
      (bytes text table : List ℕ) (m : ℕ)
      → IsTable first rest table (length whole)
      → m < length whole
      → IsLongest whole m text
      → ¬ Occurs whole text
      → IsScanned (text ++ bytes) (scan whole table bytes m)
  unfolding scan
  scan-IsScanned [] text table m good short l none_before =
      subst (λ z. IsScanned z (some (partial m))) (sym (append-nil text)) (short, l, none_before)
  scan-IsScanned (byte ∷ bytes) text table m good short l none_before =
      let (longer, moved, next) =
        advance-IsLongest first rest byte m (length whole) table text good (omega arith) short l in
      let joined = append_assoc text (byte ∷ []) bytes in
      elim (Bool-cases (longer == length whole)) [
        | inl full ↦
            let at : longer ≡ length whole = (==_iff longer (length whole)).0 full in
            subst (λ z. IsScanned (text ++ byte ∷ bytes) z)
              (sym (scan-found byte longer m whole table bytes moved full))
              (record {
                before = text ++ byte ∷ [];
                after = bytes;
                split = sym joined;
                ending =
                    subst (λ z. IsSuffix z (text ++ byte ∷ []))
                      (ap (λ z. take z whole) at ∙ take-length whole) next.here;
              })
        | inr short_still ↦
            let room : longer < length whole = ground (arith, next.bound, short_still) in
            subst (λ z. IsScanned (text ++ byte ∷ bytes) z)
              (sym (scan_on byte longer m whole table bytes moved short_still))
              (subst (λ z. IsScanned z (scan whole table bytes longer)) joined
                (scan-IsScanned bytes (text ++ byte ∷ []) table longer good room next
                  (not-Occurs-snoc text byte longer room next none_before)))
      ]

  -- A search that ends answers whether the pattern occurs.
  abbrev IsAnswer : List ℕ → Option Bool → Type 0
  IsAnswer text none = ⊥
  IsAnswer text (some true) = Occurs whole text
  IsAnswer text (some false) = ¬ Occurs whole text

  Occurs-append : (text more : List ℕ) → Occurs whole text → Occurs whole (text ++ more)
  Occurs-append text more o = record {
    before = o.before;
    after = o.after ++ more;
    split = ap (λ z. z ++ more) o.split ∙ append_assoc o.before o.after more;
    ending = o.ending;
  }

  after_scan :
      (reads : List (List ℕ)) (text table : List ℕ) (scanned : Option Scanned)
      → ((m : ℕ)
          → (m < length whole) × IsLongest whole m text × (¬ Occurs whole text)
          → IsAnswer (text ++ flatten reads) (search_reads whole table reads m))
      → IsScanned text scanned
      → IsAnswer (text ++ flatten reads) (
          scanned >>= λ s. elim s [
            | found ↦ some true
            | partial longer ↦ search_reads whole table reads longer
          ])
  after_scan reads text table none next s = absurd s
  after_scan reads text table (some found) next s = Occurs-append text (flatten reads) s
  after_scan reads text table (some (partial m)) next s = next m s

  search_reads-IsAnswer :
      (reads : List (List ℕ)) (text table : List ℕ) (m : ℕ)
      → IsTable first rest table (length whole)
      → (m < length whole) × IsLongest whole m text × (¬ Occurs whole text)
      → IsAnswer (text ++ flatten reads) (search_reads whole table reads m)
  unfolding search_reads
  search_reads-IsAnswer [] text table m good s =
      subst (λ z. ¬ Occurs whole z) (sym (append-nil text)) s.2
  search_reads-IsAnswer (read ∷ reads) text table m good s =
      subst (λ z. IsAnswer z (search_reads whole table (read ∷ reads) m))
        (append_assoc text read (flatten reads))
        (after_scan reads (text ++ read) table (scan whole table read m)
          (λ n. search_reads-IsAnswer reads (text ++ read) table n good)
          (scan-IsScanned read text table m good s.0 s.1 s.2))

  answer_iff :
      (text : List ℕ) (r : Option Bool)
      → IsAnswer text r
      → (answer : Bool) × (r ≡ some answer) × ((answer ≡ true) ↔ Occurs whole text)
  answer_iff text none h = absurd h
  answer_iff text (some true) h = (true, refl, ground (arith, h))
  answer_iff text (some false) h = (false, refl, ground (arith, h))

  -- The search for a pattern that is not empty ends without a panic, whatever the reads, and says
  -- that the pattern was found exactly when it occurs in the bytes of the reads joined.
  pub search-Occurs :
      (reads : List (List ℕ))
      → (answer : Bool) × (search whole reads ≡ some answer)
        × ((answer ≡ true) ↔ Occurs whole (flatten reads))
  unfolding search
  search-Occurs reads =
      let t = prefix_table-IsFull first rest in
      answer_iff (flatten reads) (search whole reads) (
        subst (λ z. IsAnswer (flatten reads) (z >>= λ table. search_reads whole table reads 0))
          (sym t.built)
          (search_reads-IsAnswer reads [] t.table 0 t.good
            (omega arith, IsLongest-start first rest, not-Occurs-nil)))

  -- A search by the table that was built.
  pub search_reads-Occurs :
      (table : List ℕ) (reads : List (List ℕ))
      → prefix_table whole ≡ some table
      → (search_reads whole table reads 0 ≡ some true) ↔ Occurs whole (flatten reads)
  unfolding search
  search_reads-Occurs table reads built =
      let (answer, ended, means) = search-Occurs reads in
      let same : search_reads whole table reads 0 ≡ some answer =
        sym (ap (λ z. z >>= λ t. search_reads whole t reads 0) built) ∙ ended in
      ground (arith, same, means)
