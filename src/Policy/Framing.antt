-- ===== src/Policy/Framing.antt =====
-- src/policy.rs: what `FrameAssembler::push` keeps, and what it returns.
use mathlib.Core.List.{append_assoc, append-nil}
use oh_myserial.Common.{
  ℕ, ◌≤◌, ◌≡◌, refl, ap, inl, inr, true, false, List, [], ◌∷◌, ◌++◌, String, Result, ok, err, arith,
  leb, ◌==◌, length, length-append, All, All-append, flatten, flatten-append, Bool-cases, ◌∙◌, sym,
}
use oh_myserial.Policy.Frames.{FrameAssembler, push_from, push, frame_too_long}

abbrev pub NoDelim : ℕ → List ℕ → Type 0
NoDelim delim = All (λ b. (b == delim) ≡ false)

module _ (delim max_frame_bytes : ℕ) where
  -- What waits for its delimiter.
  pub record IsPartial (buf : List ℕ) : Type 0 where
    pub no_delim : NoDelim delim buf
    pub fits : length buf ≤ max_frame_bytes

  -- One frame: its only delimiter is its last byte.
  pub record IsFrame (frame : List ℕ) : Type 0 where
    pub body : List ℕ
    pub ends : frame ≡ body ++ delim ∷ []
    pub no_delim : NoDelim delim body
    pub fits : length frame ≤ max_frame_bytes

  abbrev pub Pushed : List ℕ → List ℕ × Result (List (List ℕ)) String → Type 0
  Pushed total (buf, ok frames) =
      IsPartial buf × All IsFrame frames × (flatten frames ++ buf ≡ total)
  Pushed total (buf, err e) = (buf ≡ []) × (e ≡ frame_too_long max_frame_bytes)

module _ (delim max_frame_bytes b : ℕ) (rest buf : List ℕ) (out : List (List ℕ)) where
  pub push_from_full :
      leb max_frame_bytes (length buf) ≡ true
      → push_from (b ∷ rest) delim max_frame_bytes buf out
        ≡ ([], err (frame_too_long max_frame_bytes))
  unfolding push_from
  push_from_full h = rw (h, push_from)

  pub push_from_last :
      leb max_frame_bytes (length buf) ≡ false
      → (b == delim) ≡ true
      → push_from (b ∷ rest) delim max_frame_bytes buf out
        ≡ push_from rest delim max_frame_bytes [] (out ++ (buf ++ b ∷ []) ∷ [])
  unfolding push_from
  push_from_last h e = ground arith

  pub push_from_more :
      leb max_frame_bytes (length buf) ≡ false
      → (b == delim) ≡ false
      → push_from (b ∷ rest) delim max_frame_bytes buf out
        ≡ push_from rest delim max_frame_bytes (buf ++ b ∷ []) out
  unfolding push_from
  push_from_more h e = ground arith

module _ (delim max_frame_bytes : ℕ) where
  pub push_from-nil :
      (buf : List ℕ) (out : List (List ℕ))
      → push_from [] delim max_frame_bytes buf out ≡ (buf, ok out)
  unfolding push_from
  push_from-nil buf out = refl

  grown-IsFrame :
      (buf : List ℕ) (b : ℕ)
      → IsPartial delim max_frame_bytes buf
      → leb max_frame_bytes (length buf) ≡ false
      → (b == delim) ≡ true
      → IsFrame delim max_frame_bytes (buf ++ b ∷ [])
  grown-IsFrame buf b p h e = record {
    body = buf;
    ends = ground arith;
    no_delim = p.no_delim;
    fits = ground (arith, length-append buf (b ∷ []));
  }

  grown-IsPartial :
      (buf : List ℕ) (b : ℕ)
      → IsPartial delim max_frame_bytes buf
      → leb max_frame_bytes (length buf) ≡ false
      → (b == delim) ≡ false
      → IsPartial delim max_frame_bytes (buf ++ b ∷ [])
  grown-IsPartial buf b p h e = record {
    no_delim = All-append _ buf (b ∷ []) p.no_delim (e, tt);
    fits = ground (arith, length-append buf (b ∷ []));
  }

  push_from-Pushed :
      (bytes buf : List ℕ) (out : List (List ℕ)) (total : List ℕ)
      → IsPartial delim max_frame_bytes buf
      → All (IsFrame delim max_frame_bytes) out
      → flatten out ++ (buf ++ bytes) ≡ total
      → Pushed delim max_frame_bytes total (push_from bytes delim max_frame_bytes buf out)
  push_from-Pushed [] buf out total p fs e =
      rw (push_from-nil buf out) (p, fs, ap (◌++◌ (flatten out)) (sym (append-nil buf)) ∙ e)
  push_from-Pushed (b ∷ rest) buf out total p fs e =
      elim (Bool-cases (leb max_frame_bytes (length buf))) [
        | inl full ↦ rw (push_from_full delim max_frame_bytes b rest buf out full) (refl, refl)
        | inr room ↦ elim (Bool-cases (b == delim)) [
          | inl last ↦ rw (push_from_last delim max_frame_bytes b rest buf out room last) (
              push_from-Pushed rest [] _ total (omega arith)
                (All-append _ out _ fs (grown-IsFrame buf b p room last, tt))
                (simp (flatten-append, append_assoc) e))
          | inr more ↦ rw (push_from_more delim max_frame_bytes b rest buf out room more) (
              push_from-Pushed rest (buf ++ b ∷ []) out total (grown-IsPartial buf b p room more) fs
                (simp append_assoc e))
        ]
      ]

  -- From a buffer with no delimiter in it that is within the limit, `push` either returns frames
  -- that each end in their only delimiter and are within the limit, with no byte lost, added or
  -- moved, and keeps such a buffer; or it reports the limit and leaves the buffer empty.
  pub push-Pushed :
      (a : FrameAssembler) (bytes : List ℕ)
      → IsPartial delim max_frame_bytes a.buf
      → Pushed delim max_frame_bytes
          (a.buf ++ bytes)
          ((push a bytes delim max_frame_bytes).0.buf, (push a bytes delim max_frame_bytes).1)
  unfolding push
  push-Pushed a bytes p = push_from-Pushed bytes a.buf [] _ p tt refl
