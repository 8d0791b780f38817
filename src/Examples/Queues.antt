-- ===== src/Examples/Queues.antt =====
-- Frames, client queues and the RX history.
use oh_myserial.Common.{◌≡◌, refl, inr, true, false, [], ◌∷◌, ok, arith, is_some}
use oh_myserial.Policy.{drop_oldest, block}
use oh_myserial.Policy.Frames.{FrameAssembler, empty_assembler, push}
use oh_myserial.Policy.Framing.{IsPartial, IsFrame, Pushed, push-Pushed}
use oh_myserial.Policy.Chunks.{SameButRefused, pushes, push_twice, push-append, push-frames}
use oh_myserial.Fanout.{ClientFanout, Wake, enqueue, receives}
use oh_myserial.Fanout.Bounds.{IsValid, Leaves, enqueue-IsValid}
use oh_myserial.Fanout.Accounting.{Accounted, enqueue-account, enqueue-returns}
use oh_myserial.Fanout.History.{offers, acts, run, start, IsFaithful, run-start-IsFaithful}
use oh_myserial.Broker.Rx.{push_history}
use oh_myserial.Broker.Trimming.{last, push_history-last}

abbrev hi : FrameAssembler
hi = record { buf = 104 ∷ [] }

hi-IsPartial : IsPartial 10 4 (104 ∷ [])
hi-IsPartial = record { no_delim = (refl, tt); fits = ground arith }

push-Pushed_example :
    Pushed 10 4
      (104 ∷ 105 ∷ 10 ∷ 33 ∷ [])
      ((push hi (105 ∷ 10 ∷ 33 ∷ []) 10 4).0.buf, (push hi (105 ∷ 10 ∷ 33 ∷ []) 10 4).1)
push-Pushed_example = push-Pushed 10 4 hi (105 ∷ 10 ∷ 33 ∷ []) hi-IsPartial

-- The second part is refused: two pushes have handed over a frame, one push none.
push-append_example :
    SameButRefused 10 4
      (pushes 10 4 (push hi (105 ∷ 10 ∷ 1 ∷ 2 ∷ 3 ∷ 4 ∷ 5 ∷ []) 10 4))
      (push_twice 10 4 hi (105 ∷ 10 ∷ []) (1 ∷ 2 ∷ 3 ∷ 4 ∷ 5 ∷ []))
push-append_example = push-append 10 4 hi (105 ∷ 10 ∷ []) (1 ∷ 2 ∷ 3 ∷ 4 ∷ 5 ∷ [])

line-IsFrame : IsFrame 10 4 (105 ∷ 10 ∷ [])
line-IsFrame = record { body = 105 ∷ []; ends = refl; no_delim = (refl, tt); fits = ground arith }

push-frames_example :
    push empty_assembler (105 ∷ 10 ∷ 104 ∷ []) 10 4 ≡ (hi, ok ((105 ∷ 10 ∷ []) ∷ []))
push-frames_example =
    push-frames 10 4 ((105 ∷ 10 ∷ []) ∷ []) (104 ∷ []) (line-IsFrame, tt) hi-IsPartial

-- A queue of one chunk that is full.
abbrev full : ClientFanout
full = record { capacity = 1; pending = (1 ∷ []) ∷ []; closed = false }

full-IsValid : IsValid full
full-IsValid = ground arith

-- The receiver takes the chunk before the wait ends.
abbrev taken_in_time : Wake
taken_in_time = record { before = receives ∷ []; timed_out = true }

enqueue-IsValid_example : Leaves (enqueue full (2 ∷ []) drop_oldest []) (λ e. IsValid e.fanout)
enqueue-IsValid_example = enqueue-IsValid full (2 ∷ []) drop_oldest [] full-IsValid

enqueue-account_example :
    Leaves
      (enqueue full (2 ∷ []) block (taken_in_time ∷ []))
      (Accounted full block (taken_in_time ∷ []))
enqueue-account_example = enqueue-account full (2 ∷ []) block (taken_in_time ∷ []) full-IsValid

enqueue-returns_example : is_some (enqueue full (2 ∷ []) block (taken_in_time ∷ [])) ≡ true
enqueue-returns_example = enqueue-returns full (2 ∷ []) block (taken_in_time ∷ []) (inr refl)

run-start-IsFaithful_example : IsFaithful (
    run
      (start 1)
      (offers (1 ∷ []) drop_oldest [] ∷ offers (2 ∷ []) drop_oldest [] ∷ acts receives ∷ []))
run-start-IsFaithful_example =
    run-start-IsFaithful 1
      (offers (1 ∷ []) drop_oldest [] ∷ offers (2 ∷ []) drop_oldest [] ∷ acts receives ∷ [])

push_history-last_example : push_history 2 (1 ∷ []) (2 ∷ 3 ∷ []) ≡ last 2 (1 ∷ 2 ∷ 3 ∷ [])
push_history-last_example = push_history-last 2 (1 ∷ []) (2 ∷ 3 ∷ []) (ground arith) (ground arith)
