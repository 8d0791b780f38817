-- ===== src/Replay/Stepping.antt =====
-- src/replay/mod.rs: `step` on a manual cursor, called any number of times.
use oh_myserial.Common.{
  ℕ, zero, suc, ◌+◌, ◌-◌, ◌≤◌, ◌≡◌, ◌∙◌, refl, ap, sym, List, [], ◌∷◌, ◌++◌, Result, ok, ◌>>=◌,
  arith, length, take, drop, min, saturating_add, u64_max, take-nil, drop-nil,
}
use mathlib.Core.List.{append_assoc, append-nil}
use oh_myserial.Ledger.Schema.{EventEnvelope}
use oh_myserial.Replay.{
  ReplayError, ReplaySession, ReplayCursor, ReplayMode, Speeds, step, manual_cursor,
}

-- The calls one after the other, and all that they emitted.
pub step_all :
    (sp : Speeds)
    → ReplayCursor sp
    → List ℕ
    → List EventEnvelope
    → Result (List EventEnvelope) ReplayError
unfolding step
step_all sp c [] seen = ok seen
step_all sp c (count ∷ counts) seen = do
  stepped ← step sp c count
  step_all sp stepped.1 counts (seen ++ stepped.0)

abbrev pub total : List ℕ → ℕ
total [] = 0
total (n ∷ ns) = n + total ns

module _ {ℓ} {A : Type ℓ} where
  length-drop : (i : ℕ) (xs : List A) → length (drop i xs) ≡ length xs - i
  length-drop zero xs = omega arith
  length-drop (suc i) [] = omega arith
  length-drop (suc i) (x ∷ xs) = omega (arith, length-drop i xs)

  take_short : (n : ℕ) (xs : List A) (k : ℕ) → k ≡ min n (length xs) → take k xs ≡ take n xs
  take_short zero xs k e = ground arith
  take_short (suc n) [] k e = ground (arith, take-nil {A = A} k)
  take_short (suc n) (x ∷ xs) zero e = absurd (omega arith)
  take_short (suc n) (x ∷ xs) (suc k) e = ap (λ z. x ∷ z) (take_short n xs k (omega arith))

  drop_short : (n : ℕ) (xs : List A) (k : ℕ) → k ≡ min n (length xs) → drop k xs ≡ drop n xs
  drop_short zero xs k e = ground arith
  drop_short (suc n) [] k e = ground (arith, drop-nil {A = A} k)
  drop_short (suc n) (x ∷ xs) zero e = absurd (omega arith)
  drop_short (suc n) (x ∷ xs) (suc k) e = drop_short n xs k (omega arith)

  drop-drop : (i n k : ℕ) (xs : List A) → k ≡ i + n → drop k xs ≡ drop n (drop i xs)
  drop-drop zero n k xs e = ap (λ z. drop z xs) (omega arith)
  drop-drop (suc i) n zero xs e = absurd (omega arith)
  drop-drop (suc i) n (suc k) [] e = sym (drop-nil {A = A} n)
  drop-drop (suc i) n (suc k) (x ∷ xs) e = drop-drop i n k xs (omega arith)

  take-append_drop :
      (n m k : ℕ) (xs : List A) → k ≡ n + m → take n xs ++ take m (drop n xs) ≡ take k xs
  take-append_drop zero m k xs e = ap (λ z. take z xs) (omega arith)
  take-append_drop (suc n) m zero xs e = absurd (omega arith)
  take-append_drop (suc n) m (suc k) [] e = take-nil {A = A} m
  take-append_drop (suc n) m (suc k) (x ∷ xs) e =
      ap (λ z. x ∷ z) (take-append_drop n m k xs (omega arith))

  -- What one step takes, and what it leaves.
  step-takes :
      (i n end : ℕ) (xs : List A)
      → end ≡ min (i + n) (length xs)
      → (take (end - i) (drop i xs) ≡ take n (drop i xs)) × (drop end xs ≡ drop n (drop i xs))
  step-takes i n end xs e = (
    take_short n (drop i xs) (end - i) (omega (arith, length-drop i xs)),
    drop_short (i + n) xs end e ∙ drop-drop i n (i + n) xs refl,
  )

module _ (sp : Speeds) (events : List EventEnvelope) (speed : sp.Speed) where
  abbrev at : ℕ → ReplayCursor sp
  at i = record {
    events = events;
    options = record { mode = ReplayMode.manual; speed = speed };
    next_index = i;
  }

  step_all-at :
      (counts : List ℕ) (i : ℕ) (seen : List EventEnvelope)
      → length events ≤ u64_max
      → step_all sp (at i) counts seen ≡ ok (seen ++ take (total counts) (drop i events))
  unfolding step_all step
  step_all-at [] i seen fits = ap ok (sym (append-nil seen))
  step_all-at (count ∷ counts) i seen fits =
      let end = min (saturating_add i count) (length events) in
      let (taken, left) = step-takes i count end events (omega arith) in
      let joined : take (end - i) (drop i events) ++ take (total counts) (drop end events)
          ≡ take (count + total counts) (drop i events) =
        ap (λ z. z ++ take (total counts) (drop end events)) taken
        ∙ (ap (λ z. take count (drop i events) ++ take (total counts) z) left
            ∙ take-append_drop count (total counts) (count + total counts) (drop i events) refl) in
      step_all-at counts end (seen ++ take (end - i) (drop i events)) fits
      ∙ ap ok (
          append_assoc seen (take (end - i) (drop i events)) (take (total counts) (drop end events))
          ∙ ap (λ z. seen ++ z) joined)

-- Steps of a manual cursor, however many and of any counts, emit together exactly the first events
-- of the session, as many as the counts make together, if the events have a length (a usize).
pub step_all-manual_cursor :
    (sp : Speeds) (s : ReplaySession) (counts : List ℕ)
    → length s.events ≤ u64_max
    → step_all sp (manual_cursor sp s) counts [] ≡ ok (take (total counts) s.events)
unfolding manual_cursor
step_all-manual_cursor sp s counts fits = step_all-at sp s.events sp.one counts 0 [] fits
