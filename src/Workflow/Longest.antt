-- ===== src/Workflow/Longest.antt =====
-- src/workflow/mod.rs: how long a part of the pattern the bytes read end with, and that a round of
-- the search keeps this number.
use oh_myserial.Common.{
  ℕ, zero, suc, ◌≤◌, ◌<◌, ◌≡◌, ◌⊎◌, ◌∙◌, inl, inr, refl, sym, ap, subst, true, false, List, [], ◌∷◌,
  ◌++◌, Option, some, arith, ◌==◌, ==_iff, if◌then◌else◌, Bool-cases, length, take, get_elem?,
}
use oh_myserial.Workflow.Matcher.{fall_back, advance}
use oh_myserial.Workflow.Suffixes.{
  IsSuffix, IsSuffix-nil, IsSuffix-refl, IsSuffix-cons, IsSuffix-trans, IsSuffix-length,
  IsSuffix-shorter, IsSuffix-snoc, IsSuffix-unsnoc, take-snoc, length-take, get_elem?-some,
}

-- `text` ends with the first `m` bytes of the pattern, and with no longer part.
pub record IsLongest (pattern : List ℕ) (m : ℕ) (text : List ℕ) : Type 0 where
  pub bound : m ≤ length pattern
  pub here : IsSuffix (take m pattern) text
  pub longest : (k : ℕ) → k ≤ length pattern → IsSuffix (take k pattern) text → k ≤ m

length-take-le {ℓ} : {A : Type ℓ} (n : ℕ) (xs : List A) → length (take n xs) ≤ n
length-take-le zero xs = omega arith
length-take-le (suc n) [] = omega arith
length-take-le (suc n) (x ∷ xs) = omega (arith, length-take-le n xs)

fall_zero :
    (fuel byte : ℕ) (pattern table : List ℕ) → fall_back (suc fuel) pattern table byte 0 ≡ some 0
unfolding fall_back
fall_zero fuel byte pattern table = refl

advance_lem :
    (byte m kept here : ℕ) (pattern table : List ℕ)
    → fall_back (suc m) pattern table byte m ≡ some kept
    → get_elem? pattern kept ≡ some here
    → advance pattern table byte m ≡ some (if here == byte then suc kept else kept)
unfolding advance
advance_lem byte m kept here pattern table fell at = ground arith

fall_stop :
    (fuel k here byte : ℕ) (pattern table : List ℕ)
    → get_elem? pattern (suc k) ≡ some here
    → (here == byte) ≡ true
    → fall_back (suc fuel) pattern table byte (suc k) ≡ some (suc k)
unfolding fall_back
fall_stop fuel k here byte pattern table at same = ground arith

fall_on :
    (fuel k here shorter byte : ℕ) (pattern table : List ℕ)
    → get_elem? pattern (suc k) ≡ some here
    → (here == byte) ≡ false
    → get_elem? table k ≡ some shorter
    → fall_back (suc fuel) pattern table byte (suc k) ≡ fall_back fuel pattern table byte shorter
unfolding fall_back
fall_on fuel k here shorter byte pattern table at other entry = ground arith

module _ (first : ℕ) (rest : List ℕ) where
  abbrev whole : List ℕ
  whole = first ∷ rest

  -- The first `n` entries of the table: entry `k` is for the `k + 1` first bytes, of which a part
  -- that is not the whole must begin behind the first byte.
  abbrev pub IsTable : List ℕ → ℕ → Type 0
  IsTable table n =
      (k : ℕ) → k < n → (b : ℕ) × (get_elem? table k ≡ some b) × IsLongest whole b (take k rest)

  -- The parts of the pattern that the text ends with and the byte continues are no longer than `m`.
  abbrev IsBound : List ℕ → ℕ → ℕ → Type 0
  IsBound text byte m =
      (j : ℕ)
      → j < length whole
      → IsSuffix (take j whole) text
      → get_elem? whole j ≡ some byte
      → j ≤ m

  record IsKept (text : List ℕ) (byte m : ℕ) (kept : Option ℕ) : Type 0 where
    value : ℕ
    ends : kept ≡ some value
    shorter : value ≤ m
    still : IsSuffix (take value whole) text
    bounded : IsBound text byte value
    last : (value ≡ 0) ⊎ (get_elem? whole value ≡ some byte)

  border_le : (b k : ℕ) → IsLongest whole b (take k rest) → b ≤ k
  border_le b k l = omega (
    arith,
    length-take b whole l.bound,
    IsSuffix-length (take b whole) (take k rest) l.here,
    length-take-le k rest,
  )

  behind_first :
      (k : ℕ) (text : List ℕ) → IsSuffix (take (suc k) whole) text → IsSuffix (take k rest) text
  behind_first k text now =
      IsSuffix-trans (take k rest) (take (suc k) whole) text
        (IsSuffix-cons first (take k rest) (take k rest) (IsSuffix-refl (take k rest))) now

  -- A shorter part that continues is no longer than the border.
  shorter-IsBound :
      (text : List ℕ) (byte here b k : ℕ)
      → suc k < length whole
      → IsSuffix (take (suc k) whole) text
      → get_elem? whole (suc k) ≡ some here
      → (here == byte) ≡ false
      → IsLongest whole b (take k rest)
      → IsBound text byte (suc k)
      → IsBound text byte b
  shorter-IsBound text byte here b k room now at other l bound j inside ends continues =
      let upto : j ≤ suc k = bound j inside ends continues in
      let below : j ≤ k = ground (arith, upto, at, continues, other) in
      l.longest j (omega arith) (
        IsSuffix-shorter (take j whole) (take k rest) text ends (behind_first k text now)
          (omega (arith, length-take j whole (omega arith), length-take k rest (omega arith))))

  fall_back-IsKept :
      (fuel byte m n : ℕ) (table text : List ℕ)
      → IsTable table n
      → m ≤ n
      → m < fuel
      → m < length whole
      → IsSuffix (take m whole) text
      → IsBound text byte m
      → IsKept text byte m (fall_back fuel whole table byte m)
  fall_back-IsKept zero byte m n table text good filled enough room now bound = absurd (omega arith)
  fall_back-IsKept (suc fuel) byte zero n table text good filled enough room now bound = record {
    value = 0;
    ends = fall_zero fuel byte whole table;
    shorter = omega arith;
    still = now;
    bounded = bound;
    last = inl refl;
  }
  fall_back-IsKept (suc fuel) byte (suc k) n table text good filled enough room now bound =
      let (here, at) = get_elem?-some whole (suc k) room in
      elim (Bool-cases (here == byte)) [
        | inl same ↦ record {
          value = suc k;
          ends = fall_stop fuel k here byte whole table at same;
          shorter = omega arith;
          still = now;
          bounded = bound;
          last = inr (ground (arith, at, same));
        }
        | inr other ↦
            let (b, entry, l) = good k (omega arith) in
            let b_le = border_le b k l in
            let kept =
              fall_back-IsKept fuel byte b n table text good (omega arith) (omega arith)
                (omega arith)
                (IsSuffix-trans (take b whole) (take k rest) text l.here (behind_first k text now))
                (shorter-IsBound text byte here b k room now at other l bound) in
            record {
              value = kept.value;
              ends = fall_on fuel k here b byte whole table at other entry ∙ kept.ends;
              shorter = omega (arith, kept.shorter);
              still = kept.still;
              bounded = kept.bounded;
              last = kept.last;
            }
      ]

  part_of_next :
      (text : List ℕ) (byte j : ℕ)
      → j < length whole
      → IsSuffix (take (suc j) whole) (text ++ byte ∷ [])
      → IsSuffix (take j whole) text × (get_elem? whole j ≡ some byte)
  part_of_next text byte j room inside =
      let (a, at) = get_elem?-some whole j room in
      let (before, same) =
        IsSuffix-unsnoc (take j whole) text a byte
          (subst (λ z. IsSuffix z (text ++ byte ∷ [])) (take-snoc whole j a at) inside) in
      (before, at ∙ ap some same)

  next_bound :
      (text : List ℕ) (byte kept k : ℕ)
      → IsBound text byte kept
      → k ≤ length whole
      → IsSuffix (take k whole) (text ++ byte ∷ [])
      → k ≤ suc kept
  next_bound text byte kept zero bound fits inside = omega arith
  next_bound text byte kept (suc j) bound fits inside =
      let (before, continues) = part_of_next text byte j (omega arith) inside in
      omega (arith, bound j (omega arith) before continues)

  longer_IsLongest :
      (text : List ℕ) (byte kept : ℕ)
      → kept < length whole
      → IsSuffix (take kept whole) text
      → get_elem? whole kept ≡ some byte
      → IsBound text byte kept
      → IsLongest whole (suc kept) (text ++ byte ∷ [])
  longer_IsLongest text byte kept room still at bound = record {
    bound = omega arith;
    here =
        subst (λ z. IsSuffix z (text ++ byte ∷ [])) (sym (take-snoc whole kept byte at))
          (IsSuffix-snoc (take kept whole) text byte still);
    longest = λ k fits inside. next_bound text byte kept k bound fits inside;
  }

  none_bound :
      (text : List ℕ) (byte here k : ℕ)
      → get_elem? whole 0 ≡ some here
      → (here == byte) ≡ false
      → IsBound text byte 0
      → k ≤ length whole
      → IsSuffix (take k whole) (text ++ byte ∷ [])
      → k ≤ 0
  none_bound text byte here zero at other bound fits inside = omega arith
  none_bound text byte here (suc zero) at other bound fits inside =
      let continues = (part_of_next text byte 0 (omega arith) inside).1 in
      ground (arith, at, other, continues)
  none_bound text byte here (suc (suc j)) at other bound fits inside =
      let (before, continues) = part_of_next text byte (suc j) (omega arith) inside in
      absurd (omega (arith, bound (suc j) (omega arith) before continues))

  none_IsLongest :
      (text : List ℕ) (byte here kept : ℕ)
      → (kept ≡ 0) ⊎ (get_elem? whole kept ≡ some byte)
      → get_elem? whole kept ≡ some here
      → (here == byte) ≡ false
      → IsBound text byte kept
      → IsLongest whole kept (text ++ byte ∷ [])
  none_IsLongest text byte here kept (inr continues) at other bound =
      absurd (ground (arith, at, other, continues))
  none_IsLongest text byte here zero (inl nothing) at other bound = record {
    bound = omega arith;
    here = IsSuffix-nil (text ++ byte ∷ []);
    longest = λ k fits inside. none_bound text byte here k at other bound fits inside;
  }
  none_IsLongest text byte here (suc kept) (inl nothing) at other bound = absurd (omega arith)

  -- After a byte the longest part is the one that `advance` gives.
  pub advance-IsLongest :
      (byte m n : ℕ) (table text : List ℕ)
      → IsTable table n
      → m ≤ n
      → m < length whole
      → IsLongest whole m text
      → (longer : ℕ) × (advance whole table byte m ≡ some longer)
        × IsLongest whole longer (text ++ byte ∷ [])
  advance-IsLongest byte m n table text good filled room l =
      let kept =
        fall_back-IsKept (suc m) byte m n table text good filled (omega arith) room l.here
          (λ j inside_of ends continues. l.longest j (omega arith) ends) in
      let r = kept.value in
      let (here, at) = get_elem?-some whole r (omega (arith, kept.shorter)) in
      let runs = advance_lem byte m r here whole table kept.ends at in
      elim (Bool-cases (here == byte)) [
        | inl same ↦ (
          suc r,
          runs ∙ ap (λ z. some (if z then suc r else r)) same,
          longer_IsLongest text byte r (omega (arith, kept.shorter)) kept.still
              (at ∙ ap some ((==_iff here byte).0 same)) kept.bounded,
        )
        | inr other ↦ (
          r,
          runs ∙ ap (λ z. some (if z then suc r else r)) other,
          none_IsLongest text byte here r kept.last at other kept.bounded,
        )
      ]
