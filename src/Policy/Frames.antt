-- ===== src/Policy/Frames.antt =====
-- src/policy.rs: `FrameAssembler`, the partial line or frame of one writing client.
use oh_myserial.Common.{
  ℕ, true, false, List, [], ◌∷◌, ◌++◌, Option, none, some, String, Result, ok, err, leb, ◌==◌,
  length,
}
use oh_myserial.Common.Text.{◌^^◌, show}

pub record FrameAssembler : Type 0 where
  pub buf : List ℕ

abbrev pub empty_assembler : FrameAssembler
empty_assembler = record { buf = [] }

pub frame_too_long : ℕ → String
frame_too_long max_frame_bytes =
    "frame exceeds tx.max_frame_bytes (" ^^ show max_frame_bytes ^^ "); partial frame was discarded"

-- The loop of `push` over the bytes left, with the buffer and the frames completed so far. The
-- result is the buffer left behind and what `push` returns.
unfoldable pub push_from :
    List ℕ → ℕ → ℕ → List ℕ → List (List ℕ) → List ℕ × Result (List (List ℕ)) String
push_from [] delim max_frame_bytes buf out = (buf, ok out)
push_from (byte ∷ rest) delim max_frame_bytes buf out = elim (leb max_frame_bytes (length buf)) [
  | true ↦ ([], err (frame_too_long max_frame_bytes))
  | false ↦
      let grown = buf ++ byte ∷ [] in
      elim (byte == delim) [
        | true ↦ push_from rest delim max_frame_bytes [] (out ++ grown ∷ [])
        | false ↦ push_from rest delim max_frame_bytes grown out
      ]
]

unfoldable pub push :
    FrameAssembler → List ℕ → ℕ → ℕ → FrameAssembler × Result (List (List ℕ)) String
unfolding push_from
push a bytes delim max_frame_bytes =
    let (buf, result) = push_from bytes delim max_frame_bytes a.buf [] in
    (record { buf = buf }, result)

unfoldable pub take_remainder : FrameAssembler → FrameAssembler × Option (List ℕ)
take_remainder a = elim a.buf [ [] ↦ (a, none) | b ∷ rest ↦ (empty_assembler, some a.buf) ]
