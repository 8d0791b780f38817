-- ===== src/Ledger/Lines.antt =====
-- src/ledger/store.rs: a segment is split into the lines that were written, and each reads back.
use oh_myserial.Common.{
  ℕ, ◌≤◌, ◌≡◌, ◌∙◌, refl, sym, ap, true, List, [], ◌∷◌, ◌++◌, some, arith, All,
}
use mathlib.Core.List.{append_assoc, append-nil}
use oh_myserial.Ledger.Schema.{EventEnvelope}
use oh_myserial.Ledger.Store.{Codec, DiskRecord, event}
use oh_myserial.Ledger.Verify.{lines_from, ends_with, strip_last, trim_line_ending, content_of}

lines_from-line :
    (line body bytes : List ℕ)
    → All (λ b. 32 ≤ b) body
    → lines_from line (body ++ 10 ∷ bytes) ≡ (line ++ (body ++ 10 ∷ [])) ∷ lines_from [] bytes
unfolding lines_from
lines_from-line line [] bytes h = refl
lines_from-line line (b ∷ body) bytes h =
    other
    ∙ (lines_from-line (line ++ b ∷ []) body bytes h.1
        ∙ ap (λ z. z ∷ lines_from [] bytes) (append_assoc line (b ∷ []) (body ++ 10 ∷ [])))
  where
    other :
        lines_from line ((b ∷ body) ++ 10 ∷ bytes)
        ≡ lines_from (line ++ b ∷ []) (body ++ 10 ∷ bytes)
    other = ground (arith, h)

pub ends_with-snoc : (c : ℕ) (xs : List ℕ) → ends_with c (xs ++ c ∷ []) ≡ true
unfolding ends_with
ends_with-snoc c [] = ground arith
ends_with-snoc c (x ∷ []) = ground arith
ends_with-snoc c (x ∷ y ∷ xs) = ends_with-snoc c (y ∷ xs)

strip_last-snoc : (c : ℕ) (xs : List ℕ) → strip_last c (xs ++ c ∷ []) ≡ xs
unfolding strip_last
strip_last-snoc c [] = ground arith
strip_last-snoc c (x ∷ []) = ground arith
strip_last-snoc c (x ∷ y ∷ xs) = ap (λ z. x ∷ z) (strip_last-snoc c (y ∷ xs))

strip_last-printable : (xs : List ℕ) → All (λ b. 32 ≤ b) xs → strip_last 13 xs ≡ xs
unfolding strip_last
strip_last-printable [] h = refl
strip_last-printable (x ∷ []) h = ground (arith, h)
strip_last-printable (x ∷ y ∷ xs) h = ap (λ z. x ∷ z) (strip_last-printable (y ∷ xs) h.1)

module _ (k : Codec) where
  abbrev pub line_of : DiskRecord → List ℕ
  line_of r = k.to_json r ++ 10 ∷ []

  -- A line reads back.
  pub from_json-line : (r : DiskRecord) → k.from_json (trim_line_ending (line_of r)) ≡ some r
  unfolding trim_line_ending
  from_json-line r =
      ap (λ z. k.from_json (strip_last 13 z)) (strip_last-snoc 10 (k.to_json r))
      ∙ (ap k.from_json (strip_last-printable (k.to_json r) (k.to_json_printable r))
          ∙ k.from_json-to_json r)

  pub lines_from-record :
      (r : DiskRecord) (bytes : List ℕ)
      → lines_from [] (line_of r ++ bytes) ≡ line_of r ∷ lines_from [] bytes
  lines_from-record r bytes =
      ap (lines_from []) (append_assoc (k.to_json r) (10 ∷ []) bytes)
      ∙ lines_from-line [] (k.to_json r) bytes (k.to_json_printable r)

  -- The lines of events, and of a last record behind them.
  abbrev pub bytes_of : List EventEnvelope → List ℕ
  bytes_of [] = []
  bytes_of (e ∷ events) = line_of (event e) ++ bytes_of events

  abbrev pub head_line : List EventEnvelope → DiskRecord → List ℕ
  head_line [] last = line_of last
  head_line (e ∷ events) last = line_of (event e)

  abbrev pub tail_lines : List EventEnvelope → DiskRecord → List (List ℕ)
  tail_lines [] last = []
  tail_lines (e ∷ events) last = head_line events last ∷ tail_lines events last

  lines_from-nil : lines_from [] [] ≡ []
  unfolding lines_from
  lines_from-nil = refl

  pub lines_from-events :
      (events : List EventEnvelope) (last : DiskRecord)
      → lines_from [] (bytes_of events ++ line_of last)
        ≡ head_line events last ∷ tail_lines events last
  lines_from-events [] last =
      ap (λ z. lines_from [] z) (sym (append-nil (line_of last)))
      ∙ (lines_from-record last [] ∙ ap (λ z. line_of last ∷ z) lines_from-nil)
  lines_from-events (e ∷ events) last =
      ap (lines_from []) (append_assoc (line_of (event e)) (bytes_of events) (line_of last))
      ∙ (lines_from-record (event e) (bytes_of events ++ line_of last)
          ∙ ap (λ z. line_of (event e) ∷ z) (lines_from-events events last))

  pub content_of-events :
      (events : List EventEnvelope) (last : DiskRecord)
      → content_of (head_line events last) (tail_lines events last) ≡ bytes_of events
  unfolding content_of
  content_of-events [] last = refl
  content_of-events (e ∷ events) last =
      ap (λ z. line_of (event e) ++ z) (content_of-events events last)
