-- ===== src/Fanout.antt =====
-- src/broker.rs: `ClientFanout`, the bounded queue in front of one client, and `ClientRx`, its
-- receiving end. The queue's mutex makes each operation one step, but for the `block` policy,
-- which gives the mutex up while it waits: what the other threads do then is an argument.
pub mod Bounds
pub mod Accounting
pub mod Delivery
pub mod History
use oh_myserial.Common.{
  ℕ, suc, ◌+◌, Bool, true, false, not, ◌&&◌, List, [], ◌∷◌, ◌++◌, Option, none, some, leb, ltb, max,
  if◌then◌else◌, length,
}
use oh_myserial.Policy.{SlowClientPolicy, drop_oldest, drop_newest, disconnect_slow, block}

abbrev pub Bytes : Type 0
Bytes = List ℕ

pub record ClientFanout : Type 0 where
  pub capacity : ℕ
  pub pending : List Bytes
  pub closed : Bool

pub data FanoutResult : Type 0 where
  queued dropped_oldest dropped_newest blocked_then_queued : FanoutResult
  disconnected : ℕ → Bool → FanoutResult
  already_closed : FanoutResult

unfoldable pub new : ℕ → ClientFanout
new capacity = record { capacity = max capacity 1; pending = []; closed = false }

abbrev clear : ClientFanout → ClientFanout
clear f = record f { pending = []; closed = true }

unfoldable pub close : ClientFanout → ClientFanout
close f = if f.closed then f else clear f

-- One look of `recv` or `blocking_recv` at the queue: a chunk, the end, or a wait for the next.
pub data RecvStep : Type 0 where
  chunk : Bytes → RecvStep
  ended waits : RecvStep

recv_pending : ClientFanout → List Bytes → ClientFanout × RecvStep
recv_pending f [] = (f, if f.closed then ended else waits)
recv_pending f (c ∷ rest) = (record f { pending = rest }, chunk c)

unfoldable pub recv : ClientFanout → ClientFanout × RecvStep
unfolding recv_pending
recv f = recv_pending f f.pending

-- What another thread may do to the queue while a blocked sender has given up the mutex.
pub data Action : Type 0 where
  receives closes : Action

abbrev pub received_by : RecvStep → List Bytes
received_by (chunk c) = c ∷ []
received_by ended = []
received_by waits = []

unfoldable pub act : Action → ClientFanout → ClientFanout × List Bytes
unfolding recv close
act receives f = let (f', s) = recv f in (f', received_by s)
act closes f = (close f, [])

unfoldable pub act_all : List Action → ClientFanout → ClientFanout × List Bytes
act_all [] f = (f, [])
act_all (a ∷ rest) f =
    let (f', got) = act a f in let (f'', more) = act_all rest f' in (f'', got ++ more)

-- One return of `Condvar::wait_for`: what happened before it, and whether it timed out.
pub record Wake : Type 0 where
  pub before : List Action
  pub timed_out : Bool

-- The queue that `enqueue` leaves, its result, and the chunks that receivers took meanwhile.
pub record Enqueued : Type 0 where
  pub fanout : ClientFanout
  pub result : FanoutResult
  pub taken : List Bytes

abbrev pub done : ClientFanout → FanoutResult → List Bytes → Enqueued
done f r taken = record { fanout = f; result = r; taken = taken }

abbrev is_full : ClientFanout → Bool
is_full f = leb f.capacity (length f.pending)

-- The end of the `block` arm, behind its loop.
unfoldable pub block_end : ClientFanout → Bytes → Bool → List Bytes → Enqueued
block_end f bytes blocked taken =
    if f.closed
    then done f already_closed taken
    else done (record f { pending = f.pending ++ bytes ∷ [] })
        (if blocked then blocked_then_queued else queued) taken

unfoldable pub disconnect : ClientFanout → Bool → List Bytes → Enqueued
disconnect f blocked taken = done (clear f) (disconnected (length f.pending + 1) blocked) taken

-- The loop of the `block` arm over the returns of its wait; `none` while it still waits.
unfoldable pub block_loop : List Wake → ClientFanout → Bytes → Bool → List Bytes → Option Enqueued
unfolding block_end disconnect
block_loop [] f bytes blocked taken =
    if is_full f && not f.closed then none else some (block_end f bytes blocked taken)
block_loop (w ∷ ws) f bytes blocked taken = elim (is_full f && not f.closed) [
  | false ↦ some (block_end f bytes blocked taken)
  | true ↦
      let (f', got) = act_all w.before f in
      elim (w.timed_out && is_full f') [
        | true ↦ some (disconnect f' true (taken ++ got))
        | false ↦ block_loop ws f' bytes true (taken ++ got)
      ]
]

-- The arm of a full queue. Only `block` reads the returns of its wait.
enqueue_full : SlowClientPolicy → ClientFanout → Bytes → List Bytes → List Wake → Option Enqueued
unfolding block_loop disconnect
enqueue_full drop_oldest f bytes [] ws =
    some (done (record f { pending = bytes ∷ [] }) dropped_oldest [])
enqueue_full drop_oldest f bytes (c ∷ rest) ws =
    some (done (record f { pending = rest ++ bytes ∷ [] }) dropped_oldest [])
enqueue_full drop_newest f bytes pending ws = some (done f dropped_newest [])
enqueue_full disconnect_slow f bytes pending ws = some (disconnect f false [])
enqueue_full block f bytes pending ws = block_loop ws f bytes false []

unfoldable pub enqueue : ClientFanout → Bytes → SlowClientPolicy → List Wake → Option Enqueued
unfolding enqueue_full
enqueue f bytes policy ws =
    if f.closed
    then some (done f already_closed [])
    else if ltb (length f.pending) f.capacity
    then some (done (record f { pending = f.pending ++ bytes ∷ [] }) queued [])
    else enqueue_full policy f bytes f.pending ws
