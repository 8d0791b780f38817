-- ===== src/Fanout/Accounting.antt =====
-- src/broker.rs: every chunk offered to a client's queue is accounted for.
use oh_myserial.Common.{
  ℕ, ◌+◌, ◌<◌, ◌≡◌, ◌≢◌, refl, ap, ◌⊎◌, inl, inr, Bool, true, false, List, [], ◌∷◌, ◌++◌, some,
  arith, length, length-append, any, is_some, Bool-cases, Option, none, ◌∙◌,
}
use oh_myserial.Policy.{SlowClientPolicy, drop_oldest, drop_newest, disconnect_slow, block}
use oh_myserial.Fanout.{
  Bytes, ClientFanout, FanoutResult, queued, dropped_oldest, dropped_newest, blocked_then_queued,
  disconnected, already_closed, close, recv, Action, receives, closes, act, act_all, Wake, Enqueued,
  disconnect, block_loop, done, enqueue_full, enqueue, is_full,
}
use oh_myserial.Fanout.Bounds.{IsValid, Leaves, act_all-IsValid}

-- How many chunks an offer costs, the offered one included.
abbrev pub lost : FanoutResult → ℕ
lost queued = 0
lost dropped_oldest = 1
lost dropped_newest = 1
lost blocked_then_queued = 0
lost (disconnected n blocked) = n
lost already_closed = 1

abbrev is_close : Action → Bool
is_close receives = false
is_close closes = true

-- The queue is closed before one of the wake-ups.
abbrev closed_by : List Wake → Bool
closed_by = any (λ w. any is_close w.before)

-- The queue was closed meanwhile, and the call says so.
abbrev ClosedMeanwhile : List Wake → Enqueued → Type 0
ClosedMeanwhile ws e =
    (e.result ≡ already_closed) × (e.fanout.closed ≡ true) × (closed_by ws ≡ true)

abbrev Balanced : ℕ → Enqueued → Type 0
Balanced offered e =
    (e.result ≢ already_closed)
    × (length e.fanout.pending + length e.taken + lost e.result ≡ offered)

-- From an open queue no chunk disappears without being counted, unless it is closed meanwhile.
abbrev AccountedOpen : SlowClientPolicy → ℕ → List Wake → Enqueued → Type 0
AccountedOpen p offered ws e = ((p ≡ block) × ClosedMeanwhile ws e) ⊎ Balanced offered e

-- A closed queue is left alone and reported.
abbrev AccountedIf : Bool → ClientFanout → SlowClientPolicy → List Wake → Enqueued → Type 0
AccountedIf true f p ws e = e ≡ done f already_closed []
AccountedIf false f p ws e = AccountedOpen p (length f.pending + 1) ws e

abbrev pub Accounted : ClientFanout → SlowClientPolicy → List Wake → Enqueued → Type 0
Accounted f = AccountedIf f.closed f

act-account :
    (a : Action) (f : ClientFanout)
    → f.closed ≡ false
    → (((act a f).0.closed ≡ true) × (is_close a ≡ true))
      ⊎ (((act a f).0.closed ≡ false)
          × (length (act a f).0.pending + length (act a f).1 ≡ length f.pending))
unfolding act recv close
act-account receives f h = ground arith
act-account closes f h = ground arith

-- A closed queue stays closed.
act-closed : (a : Action) (f : ClientFanout) → f.closed ≡ true → (act a f).0.closed ≡ true
unfolding act recv close
act-closed receives f h = ground arith
act-closed closes f h = ground arith

act_all-closed :
    (acts : List Action) (f : ClientFanout) → f.closed ≡ true → (act_all acts f).0.closed ≡ true
unfolding act_all
act_all-closed [] f h = h
act_all-closed (a ∷ rest) f h = act_all-closed rest (act a f).0 (act-closed a f h)

act_all-account :
    (acts : List Action) (f : ClientFanout)
    → f.closed ≡ false
    → (((act_all acts f).0.closed ≡ true) × (any is_close acts ≡ true))
      ⊎ (((act_all acts f).0.closed ≡ false)
          × (length (act_all acts f).0.pending + length (act_all acts f).1 ≡ length f.pending))
unfolding act_all
act_all-account [] f h = inr (h, omega arith)
act_all-account (a ∷ rest) f h = elim (act-account a f h) [
  | inl shut ↦ inl (act_all-closed rest (act a f).0 shut.0, ground (arith, shut.1))
  | inr kept ↦ ground (
    arith,
    kept,
    act_all-account rest (act a f).0 kept.0,
    length-append (act a f).1 (act_all rest (act a f).0).1,
  )
]

block_loop-closed :
    (ws : List Wake) (f : ClientFanout) (c : Bytes) (b : Bool) (taken : List Bytes)
    → IsValid f
    → f.closed ≡ true
    → block_loop ws f c b taken ≡ some (done f already_closed taken)
unfolding block_loop
block_loop-closed [] f c b taken v h = ground arith
block_loop-closed (w ∷ ws) f c b taken v h = ground arith

block_loop-account :
    (ws : List Wake) (f : ClientFanout) (c : Bytes) (b : Bool) (taken : List Bytes)
    → IsValid f
    → f.closed ≡ false
    → Leaves
        (block_loop ws f c b taken)
        (λ e. ClosedMeanwhile ws e ⊎ Balanced (length f.pending + length taken + 1) e)
unfolding block_loop
block_loop-account [] f c b taken v h = ground (arith, length-append f.pending (c ∷ []))
block_loop-account (w ∷ ws) f c b taken v h = elim (act_all-account w.before f h) [
  | inl shut ↦ ground (
    arith,
    shut,
    block_loop-closed ws (act_all w.before f).0 c true (taken ++ (act_all w.before f).1)
        (act_all-IsValid w.before f v) shut.0,
    (act_all-IsValid w.before f v).room,
    ap length ((act_all-IsValid w.before f v).closed_empty shut.0),
    length-append f.pending (c ∷ []),
  )
  | inr kept ↦ ground (
    arith,
    kept,
    block_loop-account ws (act_all w.before f).0 c true (taken ++ (act_all w.before f).1)
        (act_all-IsValid w.before f v) kept.0,
    length-append taken (act_all w.before f).1,
    length-append f.pending (c ∷ []),
  )
]

waited :
    (o : Option Enqueued) (ws : List Wake) (n m : ℕ)
    → n + 0 + 1 ≡ m
    → Leaves o (λ e. ClosedMeanwhile ws e ⊎ Balanced (n + 0 + 1) e)
    → Leaves o (AccountedOpen block m ws)
waited none ws n m h l = tt
waited (some e) ws n m h (inl shut) = inl (refl, shut)
waited (some e) ws n m h (inr kept) = inr (kept.0, kept.1 ∙ h)

enqueue_full-account :
    (p : SlowClientPolicy) (f : ClientFanout) (c : Bytes) (pending : List Bytes) (ws : List Wake)
    → IsValid f
    → f.closed ≡ false
    → f.pending ≡ pending
    → 0 < length pending
    → Leaves (enqueue_full p f c pending ws) (AccountedOpen p (length f.pending + 1) ws)
unfolding enqueue_full disconnect
enqueue_full-account drop_oldest f c [] ws v o e h = elim h [ ]
enqueue_full-account drop_oldest f c (d ∷ rest) ws v o e h =
    ground (arith, length-append rest (c ∷ []), ap length e)
enqueue_full-account drop_newest f c pending ws v o e h = ground (arith, o)
enqueue_full-account disconnect_slow f c pending ws v o e h = ground (arith, o)
enqueue_full-account block f c pending ws v o e h =
    waited _ ws (length f.pending) _ (omega arith) (block_loop-account ws f c false [] v o)

-- An offer to a valid closed queue leaves the queue as it was, takes nothing and is reported as
-- such. Of the chunks in a valid open queue and the one offered, each is still queued, was taken by
-- the receiver, or is in the number of lost chunks that the result stands for. The exception is a
-- call that waits under `block` while the queue is closed: it may say so, and the queue is closed.
pub enqueue-account :
    (f : ClientFanout) (c : Bytes) (p : SlowClientPolicy) (ws : List Wake)
    → IsValid f
    → Leaves (enqueue f c p ws) (Accounted f p ws)
unfolding enqueue
enqueue-account f c p ws v = elim (Bool-cases f.closed) [
  | inl shut ↦ rw shut refl
  | inr alive ↦ ground (
    arith,
    alive,
    length-append f.pending (c ∷ []),
    v.room,
    enqueue_full-account p f c f.pending ws v alive refl,
  )
]

block_loop-room :
    (ws : List Wake) (f : ClientFanout) (c : Bytes) (b : Bool) (taken : List Bytes)
    → is_full f ≡ false
    → is_some (block_loop ws f c b taken) ≡ true
unfolding block_loop
block_loop-room [] f c b taken h = ground arith
block_loop-room (w ∷ ws) f c b taken h = ground arith

block_loop-returns :
    (ws : List Wake) (f : ClientFanout) (c : Bytes) (b : Bool) (taken : List Bytes)
    → any (λ w. w.timed_out) ws ≡ true
    → is_some (block_loop ws f c b taken) ≡ true
unfolding block_loop
block_loop-returns [] f c b taken h = cc
block_loop-returns (w ∷ ws) f c b taken h = ground (
  arith,
  block_loop-returns ws (act_all w.before f).0 c true (taken ++ (act_all w.before f).1),
  block_loop-room ws (act_all w.before f).0 c true (taken ++ (act_all w.before f).1),
)

enqueue_full-returns :
    (p : SlowClientPolicy) (f : ClientFanout) (c : Bytes) (pending : List Bytes) (ws : List Wake)
    → (p ≢ block) ⊎ (any (λ w. w.timed_out) ws ≡ true)
    → is_some (enqueue_full p f c pending ws) ≡ true
unfolding enqueue_full
enqueue_full-returns drop_oldest f c [] ws h = refl
enqueue_full-returns drop_oldest f c (d ∷ rest) ws h = refl
enqueue_full-returns drop_newest f c pending ws h = refl
enqueue_full-returns disconnect_slow f c pending ws h = refl
enqueue_full-returns block f c pending ws (inl h) = absurd (h refl)
enqueue_full-returns block f c pending ws (inr h) = block_loop-returns ws f c false [] h

-- A call under a policy other than `block` returns at once, and one under `block` returns at the
-- latest when its wait times out.
pub enqueue-returns :
    (f : ClientFanout) (c : Bytes) (p : SlowClientPolicy) (ws : List Wake)
    → (p ≢ block) ⊎ (any (λ w. w.timed_out) ws ≡ true)
    → is_some (enqueue f c p ws) ≡ true
unfolding enqueue
enqueue-returns f c p ws h = ground (arith, enqueue_full-returns p f c f.pending ws h)
