-- ===== src/Broker/Trimming.antt =====
-- src/broker.rs: the RX history, against the last bytes of all that came in.
use oh_myserial.Common.{
  ℕ, suc, ◌-◌, ◌<◌, ◌≤◌, ◌≡◌, refl, sym, ◌∙◌, ap, true, false, List, [], ◌∷◌, ◌++◌, arith, leb,
  length, drop, length-append, if◌then◌else◌, Bool-cases, inl, inr,
}
use mathlib.Core.List.{append_assoc, append-nil}
use oh_myserial.Broker.Rx.{push_history, pop_front}

-- The last `cap` elements.
abbrev pub last {ℓ} : {A : Type ℓ} → ℕ → List A → List A
last cap l = drop (length l - cap) l

sub_step : (n cap : ℕ) → cap ≤ n → suc n - cap ≡ suc (n - cap)
sub_step n cap h = omega arith

last-cons {ℓ} :
    {A : Type ℓ} (cap : ℕ) (x : A) (l : List A) → cap ≤ length l → last cap (x ∷ l) ≡ last cap l
last-cons cap x l h = rw (sub_step (length l) cap h) refl

last-short {ℓ} : {A : Type ℓ} (cap : ℕ) (l : List A) → length l ≤ cap → last cap l ≡ l
last-short cap l h = rw (none_over) refl
  where
    none_over : length l - cap ≡ 0
    none_over = omega arith

module _ (cap : ℕ) where
  -- Room is made for one byte.
  room : List ℕ → List ℕ
  room h = if leb cap (length h) then pop_front h else h

  room-length : (h : List ℕ) → length h ≤ cap → 0 < cap → length (room h) < cap
  unfolding room
  room-length [] l p = ground arith
  room-length (x ∷ h) l p = ground arith

  room_full : (x : ℕ) (h : List ℕ) → leb cap (length (x ∷ h)) ≡ true → room (x ∷ h) ≡ h
  unfolding room
  room_full x h full = ground arith

  room_free : (h : List ℕ) → leb cap (length h) ≡ false → room h ≡ h
  unfolding room
  room_free h free = ground arith

  long_enough :
      (x b : ℕ) (h rest : List ℕ) → leb cap (length (x ∷ h)) ≡ true → cap ≤ length (h ++ b ∷ rest)
  long_enough x b h rest full = ground (arith, length-append h (b ∷ rest))

  room-last :
      (h : List ℕ) (b : ℕ) (rest : List ℕ)
      → 0 < cap
      → last cap ((room h ++ b ∷ []) ++ rest) ≡ last cap (h ++ b ∷ rest)
  room-last [] b rest p = rw (room_free [] (ground arith)) refl
  room-last (x ∷ h) b rest p = elim (Bool-cases (leb cap (length (x ∷ h)))) [
    | inl full ↦
        rw (room_full x h full, append_assoc h (b ∷ []) rest)
          (sym (last-cons cap x (h ++ b ∷ rest) (long_enough x b h rest full)))
    | inr free ↦ rw (room_free (x ∷ h) free) (ap (last cap) (append_assoc (x ∷ h) (b ∷ []) rest))
  ]

  room_grown : (h : List ℕ) (b : ℕ) → length h ≤ cap → 0 < cap → length (room h ++ b ∷ []) ≤ cap
  room_grown h b l p = ground (arith, room-length h l p, length-append (room h) (b ∷ []))

  push_history-step :
      (h : List ℕ) (b : ℕ) (rest : List ℕ)
      → push_history cap h (b ∷ rest) ≡ push_history cap (room h ++ b ∷ []) rest
  unfolding push_history room
  push_history-step h b rest = refl

  push_history-nil : (h : List ℕ) → push_history cap h [] ≡ h
  unfolding push_history
  push_history-nil h = refl

  -- Under a positive cap, a history within it and new bytes give the last bytes of the two joined,
  -- as many as the cap allows.
  pub push_history-last :
      (h bytes : List ℕ)
      → length h ≤ cap
      → 0 < cap
      → push_history cap h bytes ≡ last cap (h ++ bytes)
  push_history-last h [] l p = rw (push_history-nil h, append-nil h) (sym (last-short cap h l))
  push_history-last h (b ∷ bytes) l p =
      push_history-step h b bytes
      ∙ (push_history-last (room h ++ b ∷ []) bytes (room_grown h b l p) p ∙ room-last h b bytes p)

  pub push_history-length :
      (h bytes : List ℕ) → length h ≤ cap → 0 < cap → length (push_history cap h bytes) ≤ cap
  push_history-length h [] l p = rw (push_history-nil h) l
  push_history-length h (b ∷ bytes) l p =
      rw (push_history-step h b bytes)
        (push_history-length (room h ++ b ∷ []) bytes (room_grown h b l p) p)
