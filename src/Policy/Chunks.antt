-- ===== src/Policy/Chunks.antt =====
-- src/policy.rs: `FrameAssembler::push` on a client's bytes in two chunks and in one, and on frames
-- that fit.
use mathlib.Core.List.{append_assoc, append-nil}
use oh_myserial.Common.{
  ℕ, ◌+◌, ◌≤◌, ◌<◌, ◌≡◌, refl, ap, inl, inr, List, [], ◌∷◌, ◌++◌, String, Result, ok, err, arith,
  leb, ◌==◌, length, length-append, All, flatten, Bool-cases, ◌∙◌, sym, subst, Option, none, some,
}
use oh_myserial.Policy.Frames.{FrameAssembler, empty_assembler, push_from, push}
use oh_myserial.Policy.Framing.{
  NoDelim, IsFrame, IsPartial, push_from_full, push_from_last, push_from_more, push_from-nil,
}

module _ (delim max_frame_bytes : ℕ) where
  -- What a push returns when frames came before it.
  abbrev after_frames :
      List (List ℕ)
      → FrameAssembler × Result (List (List ℕ)) String
      → FrameAssembler × Result (List (List ℕ)) String
  after_frames out (a, ok frames) = (a, ok (out ++ frames))
  after_frames out (a, err e) = (a, err e)

  -- The second push goes on from the first, and hands over the frames of both.
  abbrev push_next :
      FrameAssembler × Result (List (List ℕ)) String
      → List ℕ
      → FrameAssembler × Result (List (List ℕ)) String
  push_next (a, ok frames) ys = after_frames frames (push a ys delim max_frame_bytes)
  push_next (a, err e) ys = (a, err e)

  abbrev with_buf :
      List ℕ × Result (List (List ℕ)) String → FrameAssembler × Result (List (List ℕ)) String
  with_buf (buf, r) = (record { buf = buf }, r)

  after_frames-nil : (r : FrameAssembler × Result (List (List ℕ)) String) → after_frames [] r ≡ r
  after_frames-nil (a, ok frames) = refl
  after_frames-nil (a, err e) = refl

  after_frames-append :
      (xs ys : List (List ℕ)) (r : FrameAssembler × Result (List (List ℕ)) String)
      → after_frames (xs ++ ys) r ≡ after_frames xs (after_frames ys r)
  after_frames-append xs ys (a, ok frames) = simp append_assoc
  after_frames-append xs ys (a, err e) = refl

  -- The frames completed so far only stand in front of the others.
  push_from_out :
      (bytes buf : List ℕ) (out : List (List ℕ))
      → with_buf (push_from bytes delim max_frame_bytes buf out)
        ≡ after_frames out (with_buf (push_from bytes delim max_frame_bytes buf []))
  push_from_out [] buf out =
      rw (push_from-nil delim max_frame_bytes buf out, push_from-nil delim max_frame_bytes buf [])
        (simp append-nil)
  push_from_out (b ∷ rest) buf out = elim (Bool-cases (leb max_frame_bytes (length buf))) [
    | inl full ↦ rw (
      push_from_full delim max_frame_bytes b rest buf out full,
      push_from_full delim max_frame_bytes b rest buf [] full,
    )
    | inr room ↦ elim (Bool-cases (b == delim)) [
      | inl last ↦
          rw
            (
              push_from_last delim max_frame_bytes b rest buf out room last,
              push_from_last delim max_frame_bytes b rest buf [] room last,
              push_from_out rest [] (out ++ (buf ++ b ∷ []) ∷ []),
              push_from_out rest [] ((buf ++ b ∷ []) ∷ []),
            )
            (after_frames-append out ((buf ++ b ∷ []) ∷ [])
              (with_buf (push_from rest delim max_frame_bytes [] [])))
      | inr more ↦
          rw
            (
              push_from_more delim max_frame_bytes b rest buf out room more,
              push_from_more delim max_frame_bytes b rest buf [] room more,
            )
            (push_from_out rest (buf ++ b ∷ []) out)
    ]
  ]

  after_push_next :
      (out : List (List ℕ)) (r : FrameAssembler × Result (List (List ℕ)) String) (ys : List ℕ)
      → after_frames out (push_next r ys) ≡ push_next (after_frames out r) ys
  after_push_next out (a, ok frames) ys =
      sym (after_frames-append out frames (push a ys delim max_frame_bytes))
  after_push_next out (a, err e) ys = refl

  push_from-append :
      (xs ys buf : List ℕ)
      → with_buf (push_from (xs ++ ys) delim max_frame_bytes buf [])
        ≡ push_next (with_buf (push_from xs delim max_frame_bytes buf [])) ys
  unfolding push
  push_from-append [] ys buf =
      sym (after_frames-nil (push (record { buf = buf }) ys delim max_frame_bytes))
  push_from-append (b ∷ rest) ys buf = elim (Bool-cases (leb max_frame_bytes (length buf))) [
    | inl full ↦ rw (
      push_from_full delim max_frame_bytes b (rest ++ ys) buf [] full,
      push_from_full delim max_frame_bytes b rest buf [] full,
    )
    | inr room ↦ elim (Bool-cases (b == delim)) [
      | inl last ↦
          rw
            (
              push_from_last delim max_frame_bytes b (rest ++ ys) buf [] room last,
              push_from_last delim max_frame_bytes b rest buf [] room last,
              push_from_out (rest ++ ys) [] ((buf ++ b ∷ []) ∷ []),
              push_from_out rest [] ((buf ++ b ∷ []) ∷ []),
              push_from-append rest ys [],
            )
            (after_push_next ((buf ++ b ∷ []) ∷ [])
              (with_buf (push_from rest delim max_frame_bytes [] [])) ys)
      | inr more ↦
          rw
            (
              push_from_more delim max_frame_bytes b (rest ++ ys) buf [] room more,
              push_from_more delim max_frame_bytes b rest buf [] room more,
            )
            (push_from-append rest ys (buf ++ b ∷ []))
    ]
  ]

  push-push_next :
      (a : FrameAssembler) (xs ys : List ℕ)
      → push a (xs ++ ys) delim max_frame_bytes ≡ push_next (push a xs delim max_frame_bytes) ys
  unfolding push
  push-push_next a xs ys = push_from-append xs ys a.buf

  -- What the caller has seen behind one or more pushes: the assembler, the frames that were handed
  -- over, and the refusal of the last push.
  pub record Pushes : Type 0 where
    pub assembler : FrameAssembler
    pub handed : List (List ℕ)
    pub refusal : Option String

  abbrev pub pushes : FrameAssembler × Result (List (List ℕ)) String → Pushes
  pushes (a, ok frames) = record { assembler = a; handed = frames; refusal = none }
  pushes (a, err e) = record { assembler = a; handed = []; refusal = some e }

  abbrev with_handed : List (List ℕ) → Pushes → Pushes
  with_handed frames p = record p { handed = frames ++ p.handed }

  -- Two pushes in a row; the second is not made after a refusal.
  abbrev push_behind : FrameAssembler × Result (List (List ℕ)) String → List ℕ → Pushes
  push_behind (a, ok frames) ys = with_handed frames (pushes (push a ys delim max_frame_bytes))
  push_behind (a, err e) ys = pushes (a, err e)

  unfoldable pub push_twice : FrameAssembler → List ℕ → List ℕ → Pushes
  push_twice a xs ys = push_behind (push a xs delim max_frame_bytes) ys

  -- The frames, if nothing was refused.
  abbrev pub if_accepted : Option String → List (List ℕ) → List (List ℕ)
  if_accepted none frames = frames
  if_accepted (some e) frames = []

  -- A single push against two.
  abbrev pub SameButRefused : Pushes → Pushes → Type 0
  SameButRefused one two =
      (one.assembler ≡ two.assembler)
      × (one.refusal ≡ two.refusal)
      × (one.handed ≡ if_accepted two.refusal two.handed)

  after_frames-SameButRefused :
      (frames : List (List ℕ)) (r : FrameAssembler × Result (List (List ℕ)) String)
      → SameButRefused (pushes (after_frames frames r)) (with_handed frames (pushes r))
  after_frames-SameButRefused frames (a, ok more) = (refl, refl, refl)
  after_frames-SameButRefused frames (a, err e) = (refl, refl, refl)

  push_next-SameButRefused :
      (r : FrameAssembler × Result (List (List ℕ)) String) (ys : List ℕ)
      → SameButRefused (pushes (push_next r ys)) (push_behind r ys)
  push_next-SameButRefused (a, ok frames) ys =
      after_frames-SameButRefused frames (push a ys delim max_frame_bytes)
  push_next-SameButRefused (a, err e) ys = (refl, refl, refl)

  -- Pushing two parts of a client's bytes one after the other leaves the same buffer as pushing
  -- them at once, and is refused exactly if that is, with the same error. Without a refusal both
  -- hand over the same frames. With one, the single push hands over none, whatever the two pushes
  -- have handed over for the first part.
  pub push-append :
      (a : FrameAssembler) (xs ys : List ℕ)
      → SameButRefused (pushes (push a (xs ++ ys) delim max_frame_bytes)) (push_twice a xs ys)
  unfolding push_twice
  push-append a xs ys =
      subst (λ z. SameButRefused (pushes z) (push_twice a xs ys)) (sym (push-push_next a xs ys))
        (push_next-SameButRefused (push a xs delim max_frame_bytes) ys)

  -- A run without delimiter that fits goes to the buffer.
  push_from-body :
      (ys rest buf : List ℕ) (out : List (List ℕ))
      → NoDelim delim ys
      → length buf + length ys ≤ max_frame_bytes
      → push_from (ys ++ rest) delim max_frame_bytes buf out
        ≡ push_from rest delim max_frame_bytes (buf ++ ys) out
  push_from-body [] rest buf out n h = simp append-nil
  push_from-body (b ∷ ys) rest buf out n h =
      push_from_more delim max_frame_bytes b (ys ++ rest) buf out (ground arith) n.0
      ∙ push_from-body ys rest (buf ++ b ∷ []) out n.1 (omega (arith, length-append buf (b ∷ [])))
      ∙ ap (λ z. push_from rest delim max_frame_bytes z out) (append_assoc buf (b ∷ []) ys)

  push_from-ended :
      (body rest : List ℕ) (out : List (List ℕ))
      → NoDelim delim body
      → length body < max_frame_bytes
      → push_from ((body ++ delim ∷ []) ++ rest) delim max_frame_bytes [] out
        ≡ push_from rest delim max_frame_bytes [] (out ++ (body ++ delim ∷ []) ∷ [])
  push_from-ended body rest out n h = rw (append_assoc body (delim ∷ []) rest) (
      push_from-body body (delim ∷ rest) [] out n (omega arith)
      ∙ push_from_last delim max_frame_bytes delim rest body out (ground arith) (ground arith))

  push_from-frame :
      (frame rest : List ℕ) (out : List (List ℕ))
      → IsFrame delim max_frame_bytes frame
      → push_from (frame ++ rest) delim max_frame_bytes [] out
        ≡ push_from rest delim max_frame_bytes [] (out ++ frame ∷ [])
  push_from-frame frame rest out f = rw f.ends (
      push_from-ended f.body rest out f.no_delim
        (omega (arith, ap length f.ends, length-append f.body (delim ∷ []), f.fits)))

  push_from-frames :
      (frames : List (List ℕ)) (rest : List ℕ) (out : List (List ℕ))
      → All (IsFrame delim max_frame_bytes) frames
      → IsPartial delim max_frame_bytes rest
      → push_from (flatten frames ++ rest) delim max_frame_bytes [] out ≡ (rest, ok (out ++ frames))
  push_from-frames [] rest out f p =
      ap (λ z. push_from z delim max_frame_bytes [] out) (sym (append-nil rest))
      ∙ push_from-body rest [] [] out p.no_delim (omega arith)
      ∙ push_from-nil delim max_frame_bytes rest out
      ∙ ap (λ z. (rest, ok z)) (sym (append-nil out))
  push_from-frames (frame ∷ frames) rest out f p = rw (append_assoc frame (flatten frames) rest) (
      push_from-frame frame (flatten frames ++ rest) out f.0
      ∙ push_from-frames frames rest (out ++ frame ∷ []) f.1 p
      ∙ simp append_assoc)

  -- A fresh assembler accepts every input made of frames within the limit and a partial frame
  -- within the limit, and returns exactly those frames and keeps exactly that rest.
  pub push-frames :
      (frames : List (List ℕ)) (rest : List ℕ)
      → All (IsFrame delim max_frame_bytes) frames
      → IsPartial delim max_frame_bytes rest
      → push empty_assembler (flatten frames ++ rest) delim max_frame_bytes
        ≡ (record { buf = rest }, ok frames)
  unfolding push
  push-frames frames rest f p = ap with_buf (push_from-frames frames rest [] f p)
