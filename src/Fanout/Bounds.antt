-- ===== src/Fanout/Bounds.antt =====
-- src/broker.rs: the queue of a client stays within its capacity, and every chunk is accounted for.
use oh_myserial.Common.{
  ℕ, ◌≤◌, ◌<◌, ◌≡◌, refl, ap, Bool, true, false, not, ◌&&◌, List, [], ◌∷◌, ◌++◌, Option, none, some,
  arith, length, length-append,
}
use oh_myserial.Policy.{SlowClientPolicy, drop_oldest, drop_newest, disconnect_slow, block}
use oh_myserial.Fanout.{
  Bytes, ClientFanout, new, close, recv, Action, receives, closes, act, act_all, Wake, Enqueued,
  block_end, disconnect, block_loop, enqueue_full, enqueue, is_full,
}

pub record IsValid (f : ClientFanout) : Type 0 where
  pub room : 0 < f.capacity
  pub bounded : length f.pending ≤ f.capacity
  pub closed_empty : f.closed ≡ true → f.pending ≡ []

pub new-IsValid : (capacity : ℕ) → IsValid (new capacity)
unfolding new
new-IsValid capacity = ground arith

pub close-IsValid : (f : ClientFanout) → IsValid f → IsValid (close f)
unfolding close
close-IsValid f v = ground arith

pub recv-IsValid : (f : ClientFanout) → IsValid f → IsValid (recv f).0
unfolding recv
recv-IsValid f v = ground arith

pub act-IsValid : (a : Action) (f : ClientFanout) → IsValid f → IsValid (act a f).0
unfolding act
act-IsValid receives f v = recv-IsValid f v
act-IsValid closes f v = close-IsValid f v

pub act_all-IsValid :
    (acts : List Action) (f : ClientFanout) → IsValid f → IsValid (act_all acts f).0
unfolding act_all
act_all-IsValid [] f v = v
act_all-IsValid (a ∷ rest) f v = act_all-IsValid rest (act a f).0 (act-IsValid a f v)

block_end-IsValid :
    (f : ClientFanout) (c : Bytes) (b : Bool) (taken : List Bytes)
    → IsValid f
    → (is_full f && not f.closed) ≡ false
    → IsValid (block_end f c b taken).fanout
unfolding block_end
block_end-IsValid f c b taken v h = ground (arith, length-append f.pending (c ∷ []))

disconnect-IsValid :
    (f : ClientFanout) (b : Bool) (taken : List Bytes)
    → IsValid f
    → IsValid (disconnect f b taken).fanout
unfolding disconnect
disconnect-IsValid f b taken v = ground arith

-- What a call leaves behind, if it is not still waiting.
abbrev pub Leaves : Option Enqueued → (Enqueued → Type 0) → Type 0
Leaves none P = Unit {0}
Leaves (some e) P = P e

block_loop-IsValid :
    (ws : List Wake) (f : ClientFanout) (c : Bytes) (b : Bool) (taken : List Bytes)
    → IsValid f
    → Leaves (block_loop ws f c b taken) (λ e. IsValid e.fanout)
unfolding block_loop
block_loop-IsValid [] f c b taken v = ground (arith, block_end-IsValid f c b taken)
block_loop-IsValid (w ∷ ws) f c b taken v = ground (
  arith,
  block_end-IsValid f c b taken,
  act_all-IsValid w.before f v,
  disconnect-IsValid (act_all w.before f).0 true (taken ++ (act_all w.before f).1),
  block_loop-IsValid ws (act_all w.before f).0 c true (taken ++ (act_all w.before f).1),
)

enqueue_full-IsValid :
    (p : SlowClientPolicy) (f : ClientFanout) (c : Bytes) (pending : List Bytes) (ws : List Wake)
    → IsValid f
    → f.pending ≡ pending
    → f.closed ≡ false
    → Leaves (enqueue_full p f c pending ws) (λ e. IsValid e.fanout)
unfolding enqueue_full
enqueue_full-IsValid drop_oldest f c [] ws v e o = ground arith
enqueue_full-IsValid drop_oldest f c (d ∷ rest) ws v e o =
    ground (arith, length-append rest (c ∷ []), ap length e)
enqueue_full-IsValid drop_newest f c pending ws v e o = v
enqueue_full-IsValid disconnect_slow f c pending ws v e o = disconnect-IsValid f false [] v
enqueue_full-IsValid block f c pending ws v e o = block_loop-IsValid ws f c false [] v

-- Whatever the policy, the arrivals and what other threads do meanwhile, a valid queue stays
-- within its capacity, its capacity stays positive, and a closed queue holds nothing.
pub enqueue-IsValid :
    (f : ClientFanout) (c : Bytes) (p : SlowClientPolicy) (ws : List Wake)
    → IsValid f
    → Leaves (enqueue f c p ws) (λ e. IsValid e.fanout)
unfolding enqueue
enqueue-IsValid f c p ws v =
    ground (arith, length-append f.pending (c ∷ []), enqueue_full-IsValid p f c f.pending ws v refl)
