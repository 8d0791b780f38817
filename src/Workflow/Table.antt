-- ===== src/Workflow/Table.antt =====
-- src/workflow/mod.rs: `prefix_table` builds the table of the borders.
use oh_myserial.Common.{
  ℕ, zero, suc, ◌≤◌, ◌<◌, ◌≡◌, ◌≢◌, ◌∙◌, inl, inr, refl, sym, ap, subst, List, [], ◌∷◌, ◌++◌,
  Option, some, arith, ◌==◌, ==_iff, Bool-cases, length, take, get_elem?, length-append,
}
use mathlib.Core.List.{append_assoc}
use oh_myserial.Workflow.Matcher.{◌>>=◌, advance, set, prefix_loop, prefix_table, zeros}
use oh_myserial.Workflow.Suffixes.{IsSuffix-nil, IsSuffix-length, length-take}
use oh_myserial.Workflow.Longest.{IsLongest, IsTable, advance-IsLongest}

record IsUpdated {ℓ} {A : Type ℓ} (before : List A) (i : ℕ) (a : A) (r : Option (List A))
    : Type ℓ where
  after : List A
  done : r ≡ some after
  same_length : length after ≡ length before
  entry : get_elem? after i ≡ some a
  others : (k : ℕ) → k ≢ i → get_elem? after k ≡ get_elem? before k

module _ {ℓ} {A : Type ℓ} where
  others_cons :
      (b : A) (xs ys : List A) (i : ℕ)
      → ((k : ℕ) → k ≢ i → get_elem? ys k ≡ get_elem? xs k)
      → (k : ℕ) → k ≢ suc i
      → get_elem? (b ∷ ys) k ≡ get_elem? (b ∷ xs) k
  others_cons b xs ys i h zero other = refl
  others_cons b xs ys i h (suc k) other = h k (λ e. other (ap suc e))

  others_head :
      (a b : A) (xs : List A) (k : ℕ) → k ≢ 0 → get_elem? (a ∷ xs) k ≡ get_elem? (b ∷ xs) k
  others_head a b xs zero other = absurd (other refl)
  others_head a b xs (suc k) other = refl

  set-IsUpdated : (xs : List A) (i : ℕ) (a : A) → i < length xs → IsUpdated xs i a (set xs i a)
  unfolding set
  set-IsUpdated [] i a h = absurd (omega arith)
  set-IsUpdated (b ∷ xs) zero a h = record {
    after = a ∷ xs;
    done = refl;
    same_length = refl;
    entry = refl;
    others = others_head a b xs;
  }
  set-IsUpdated (b ∷ xs) (suc i) a h =
      let s = set-IsUpdated xs i a (omega arith) in
      record {
        after = b ∷ s.after;
        done = ap (λ z. z >>= λ zs. some (b ∷ zs)) s.done;
        same_length = omega (arith, s.same_length);
        entry = s.entry;
        others = others_cons b xs s.after i s.others;
      }

  take-length_append : (xs ys : List A) → take (length xs) (xs ++ ys) ≡ xs
  take-length_append [] ys = refl
  take-length_append (x ∷ xs) ys = ap (λ z. x ∷ z) (take-length_append xs ys)

module _ (first : ℕ) (rest : List ℕ) where
  abbrev whole : List ℕ
  whole = first ∷ rest

  pub IsLongest-start : IsLongest whole 0 []
  IsLongest-start = record {
    bound = omega arith;
    here = IsSuffix-nil [];
    longest = λ k fits inside.
        omega (arith, length-take k whole fits, IsSuffix-length (take k whole) [] inside);
  }

  longest_le : (m : ℕ) (text : List ℕ) → IsLongest whole m text → m ≤ length text
  longest_le m text l =
      omega (arith, length-take m whole l.bound, IsSuffix-length (take m whole) text l.here)

  -- One more entry.
  filled-IsTable :
      (done todo table filled : List ℕ) (byte longer index : ℕ)
      → index ≡ suc (length done)
      → rest ≡ done ++ byte ∷ todo
      → IsTable first rest table index
      → IsLongest whole longer (done ++ byte ∷ [])
      → get_elem? filled index ≡ some longer
      → ((k : ℕ) → k ≢ index → get_elem? filled k ≡ get_elem? table k)
      → IsTable first rest filled (suc index)
  filled-IsTable done todo table filled byte longer index place split good l entry others k h =
      elim (Bool-cases (k == index)) [
        | inl same ↦
            let at : k ≡ index = (==_iff k index).0 same in
            (
              longer,
              ap (λ z. get_elem? filled z) at ∙ entry,
              subst (λ z. IsLongest whole longer z) (sym (taken at)) l,
            )
        | inr other ↦
            let (b, old, border) = good k (ground (arith, h, other)) in
            (b, others k (ground (arith, other)) ∙ old, border)
      ]
    where
      taken : k ≡ index → take k rest ≡ done ++ byte ∷ []
      taken at =
          ap (λ z. take k z) (split ∙ sym (append_assoc done (byte ∷ []) todo))
          ∙ (ap (λ z. take z ((done ++ byte ∷ []) ++ todo))
                (omega (arith, at, place, length-append done (byte ∷ [])))
              ∙ take-length_append (done ++ byte ∷ []) todo)

  pub record IsFull (r : Option (List ℕ)) : Type 0 where
    pub table : List ℕ
    pub built : r ≡ some table
    pub good : IsTable first rest table (length whole)

  prefix_step :
      (byte longer index len : ℕ) (todo table filled : List ℕ)
      → advance whole table byte len ≡ some longer
      → set table index longer ≡ some filled
      → prefix_loop whole (byte ∷ todo) index table len
        ≡ prefix_loop whole todo (suc index) filled longer
  unfolding prefix_loop
  prefix_step byte longer index len todo table filled moved stored = ground (arith, moved, stored)

  prefix_loop-IsFull :
      (todo done table : List ℕ) (index len : ℕ)
      → rest ≡ done ++ todo
      → index ≡ suc (length done)
      → length table ≡ length whole
      → IsTable first rest table index
      → IsLongest whole len done
      → IsFull (prefix_loop whole todo index table len)
  unfolding prefix_loop
  prefix_loop-IsFull [] done table index len split at size good l = record {
    table = table;
    built = refl;
    good =
        subst (λ z. IsTable first rest table z)
          (omega (arith, at, ap length split, length-append done [])) good;
  }
  prefix_loop-IsFull (byte ∷ todo) done table index len split at size good l =
      let lengths = ap length split ∙ length-append done (byte ∷ todo) in
      let (longer, moved, next) =
        advance-IsLongest first rest byte len index table done good
          (omega (arith, longest_le len done l)) (omega (arith, longest_le len done l)) l in
      let u = set-IsUpdated table index longer (omega arith) in
      let behind =
        prefix_loop-IsFull todo (done ++ byte ∷ []) u.after (suc index) longer
          (split ∙ sym (append_assoc done (byte ∷ []) todo))
          (omega (arith, length-append done (byte ∷ []))) (u.same_length ∙ size)
          (filled-IsTable done todo table u.after byte longer index at split good next u.entry
            u.others)
          next in
      record {
        table = behind.table;
        built = prefix_step byte longer index len todo table u.after moved u.done ∙ behind.built;
        good = behind.good;
      }

  zeros-length : (n : ℕ) → length (zeros n) ≡ n
  unfolding zeros
  zeros-length zero = omega arith
  zeros-length (suc n) = omega (arith, zeros-length n)

  zeros-IsTable : IsTable first rest (zeros (length whole)) 1
  unfolding zeros
  zeros-IsTable zero h = (0, refl, IsLongest-start)
  zeros-IsTable (suc k) h = absurd (omega arith)

  -- The table is built, without a panic, and holds the borders.
  pub prefix_table-IsFull : IsFull (prefix_table whole)
  unfolding prefix_table
  prefix_table-IsFull =
      prefix_loop-IsFull rest [] (zeros (length whole)) 1 0 refl refl (zeros-length (length whole))
        zeros-IsTable IsLongest-start
