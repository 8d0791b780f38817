-- ===== src/Fanout/Delivery.antt =====
-- src/broker.rs: a client receives a subsequence of what the device sent, in its order.
use mathlib.Core.List.{Sublistᴰ, append_assoc, append-nil}
use mathlib.Core.List.Sublistᴰ
use oh_myserial.Common.{
  ◌≡◌, refl, sym, subst, Bool, true, false, not, ◌&&◌, List, [], ◌∷◌, ◌++◌, Option, none, some,
  arith, ◌⊎◌, inl, inr, Bool-cases, ltb, length,
}
use oh_myserial.Policy.{SlowClientPolicy, drop_oldest, drop_newest, disconnect_slow, block}
use oh_myserial.Fanout.{
  Bytes, ClientFanout, close, recv_pending, recv, received_by, Action, receives, closes, act,
  act_all, Wake, Enqueued, done, queued, already_closed, block_end, disconnect, block_loop,
  enqueue_full, enqueue, is_full,
}
use oh_myserial.Fanout.Bounds.{Leaves}

-- Every element of the first list stands in the second, in the same order.
abbrev pub Sub : List Bytes → List Bytes → Type 0
Sub = Sublistᴰ

pub Sub-append : {xs ys : List Bytes} (zs : List Bytes) → Sub xs ys → Sub (xs ++ zs) (ys ++ zs)
Sub-append zs Sublistᴰ.slnil = Sublistᴰ.refl zs
Sub-append zs (Sublistᴰ.cons d) = Sublistᴰ.cons (Sub-append zs d)
Sub-append zs (Sublistᴰ.cons-cons e d) = Sublistᴰ.cons-cons e (Sub-append zs d)

pub Sub-prefix : (xs : List Bytes) {ys zs : List Bytes} → Sub ys zs → Sub (xs ++ ys) (xs ++ zs)
Sub-prefix [] d = d
Sub-prefix (x ∷ xs) d = Sublistᴰ.cons-cons refl (Sub-prefix xs d)

pub Sub-nil : (xs : List Bytes) → Sub [] xs
Sub-nil [] = Sublistᴰ.slnil
Sub-nil (x ∷ xs) = Sublistᴰ.cons (Sub-nil xs)

module _ (f : ClientFanout) where
  recv_pending-Sub :
      (ps : List Bytes)
      → f.pending ≡ ps
      → received_by (recv_pending f ps).1 ++ (recv_pending f ps).0.pending ≡ ps
  unfolding recv_pending
  recv_pending-Sub [] e = ground arith
  recv_pending-Sub (p ∷ ps) e = refl

  close-pending : ((close f).pending ≡ []) ⊎ ((close f).pending ≡ f.pending)
  unfolding close
  close-pending = ground arith

  pub close-Sub : Sub (close f).pending f.pending
  close-Sub = elim close-pending [
    | inl e ↦ subst (λ z. Sub z f.pending) (sym e) (Sub-nil f.pending)
    | inr e ↦ subst (λ z. Sub z f.pending) (sym e) (Sublistᴰ.refl f.pending)
  ]

  -- Another thread's action only takes from the front, or empties the queue.
  pub act-Sub : (a : Action) → Sub ((act a f).1 ++ (act a f).0.pending) f.pending
  unfolding act recv
  act-Sub receives =
      subst (λ z. Sub z f.pending) (sym (recv_pending-Sub f.pending refl)) (Sublistᴰ.refl f.pending)
  act-Sub closes = close-Sub

act_all-Sub :
    (acts : List Action) (f : ClientFanout)
    → Sub ((act_all acts f).1 ++ (act_all acts f).0.pending) f.pending
unfolding act_all
act_all-Sub [] f = Sublistᴰ.refl f.pending
act_all-Sub (a ∷ rest) f =
    subst (λ z. Sub z f.pending) (sym (append_assoc (act a f).1 (act_all rest (act a f).0).1 _))
      (Sublistᴰ.trans (Sub-prefix (act a f).1 (act_all-Sub rest (act a f).0)) (act-Sub f a))

-- What an offer of `c` leaves to a receiver that has `taken` some chunks before.
abbrev pub Offered : List Bytes → ClientFanout → Bytes → Enqueued → Type 0
Offered taken f c e = Sub (e.taken ++ e.fanout.pending) (taken ++ (f.pending ++ c ∷ []))

module _ (f : ClientFanout) (c : Bytes) (b : Bool) (taken : List Bytes) where
  dropped-Offered : Sub (taken ++ f.pending) (taken ++ (f.pending ++ c ∷ []))
  dropped-Offered = Sub-prefix taken (
      subst (λ z. Sub z (f.pending ++ c ∷ [])) (append-nil f.pending)
        (Sub-prefix f.pending (Sub-nil (c ∷ []))))

  cleared-Offered : Sub (taken ++ []) (taken ++ (f.pending ++ c ∷ []))
  cleared-Offered = Sub-prefix taken (Sub-nil (f.pending ++ c ∷ []))

  block_end-Offered : Offered taken f c (block_end f c b taken)
  unfolding block_end
  block_end-Offered = elim (Bool-cases f.closed) [
    | inl shut ↦ rw (shut, block_end) dropped-Offered
    | inr still ↦ rw (still, block_end) (Sublistᴰ.refl (taken ++ (f.pending ++ c ∷ [])))
  ]

pub Leaves-map :
    {P Q : Enqueued → Type 0} (o : Option Enqueued)
    → ((e : Enqueued) → P e → Q e)
    → Leaves o P
    → Leaves o Q
Leaves-map none h p = tt
Leaves-map (some e) h p = h e p

-- What stood after the other threads' actions stood before them.
acted :
    (acts : List Action) (f : ClientFanout) (c : Bytes) (taken : List Bytes) {xs : List Bytes}
    → Sub xs ((taken ++ (act_all acts f).1) ++ ((act_all acts f).0.pending ++ c ∷ []))
    → Sub xs (taken ++ (f.pending ++ c ∷ []))
acted acts f c taken {xs} d = Sublistᴰ.trans d (
    simp append_assoc
      (Sub-prefix taken (simp (← append_assoc) (Sub-append (c ∷ []) (act_all-Sub acts f)))))

module _ (w : Wake) (ws : List Wake) (f : ClientFanout) (c : Bytes) (b : Bool)
    (taken : List Bytes) where
  block_loop_exit :
      (is_full f && not f.closed) ≡ false
      → block_loop (w ∷ ws) f c b taken ≡ some (block_end f c b taken)
  unfolding block_loop
  block_loop_exit h = rw (h, block_loop)

  block_loop_timeout :
      (is_full f && not f.closed) ≡ true
      → (w.timed_out && is_full (act_all w.before f).0) ≡ true
      → block_loop (w ∷ ws) f c b taken
        ≡ some (disconnect (act_all w.before f).0 true (taken ++ (act_all w.before f).1))
  unfolding block_loop
  block_loop_timeout h t = rw (h, block_loop) (rw (t, block_loop))

  block_loop_again :
      (is_full f && not f.closed) ≡ true
      → (w.timed_out && is_full (act_all w.before f).0) ≡ false
      → block_loop (w ∷ ws) f c b taken
        ≡ block_loop ws (act_all w.before f).0 c true (taken ++ (act_all w.before f).1)
  unfolding block_loop
  block_loop_again h t = rw (h, block_loop) (rw (t, block_loop))

block_loop-nil :
    (f : ClientFanout) (c : Bytes) (b : Bool) (taken : List Bytes)
    → Leaves (block_loop [] f c b taken) (Offered taken f c)
unfolding block_loop
block_loop-nil f c b taken = elim (Bool-cases (is_full f && not f.closed)) [
  | inl wait ↦ rw (wait, block_loop) tt
  | inr go ↦ rw (go, block_loop) (block_end-Offered f c b taken)
]

disconnect-Offered :
    (f : ClientFanout) (c : Bytes) (b : Bool) (taken : List Bytes)
    → Offered taken f c (disconnect f b taken)
unfolding disconnect
disconnect-Offered f c b taken = cleared-Offered f c b taken

block_loop-Offered :
    (ws : List Wake) (f : ClientFanout) (c : Bytes) (b : Bool) (taken : List Bytes)
    → Leaves (block_loop ws f c b taken) (Offered taken f c)
block_loop-Offered [] f c b taken = block_loop-nil f c b taken
block_loop-Offered (w ∷ ws) f c b taken =
    let f' : ClientFanout = (act_all w.before f).0 in
    let taken' : List Bytes = taken ++ (act_all w.before f).1 in
    elim (Bool-cases (is_full f && not f.closed)) [
      | inr go ↦ rw (block_loop_exit w ws f c b taken go) (block_end-Offered f c b taken)
      | inl wait ↦ elim (Bool-cases (w.timed_out && is_full f')) [
        | inl late ↦
            rw (block_loop_timeout w ws f c b taken wait late)
              (acted w.before f c taken (disconnect-Offered f' c true taken'))
        | inr early ↦
            rw (block_loop_again w ws f c b taken wait early) (
              Leaves-map _ (λ e. acted w.before f c taken) (block_loop-Offered ws f' c true taken'))
      ]
    ]

enqueue_full-Offered :
    (p : SlowClientPolicy) (f : ClientFanout) (c : Bytes) (ps : List Bytes) (ws : List Wake)
    → f.pending ≡ ps
    → Leaves (enqueue_full p f c ps ws) (Offered [] f c)
unfolding enqueue_full
enqueue_full-Offered drop_oldest f c [] ws e =
    subst (λ z. Sub (c ∷ []) (z ++ c ∷ [])) (sym e) (Sublistᴰ.refl _)
enqueue_full-Offered drop_oldest f c (p ∷ ps) ws e =
    subst (λ z. Sub (ps ++ c ∷ []) (z ++ c ∷ [])) (sym e) (Sublistᴰ.cons (Sublistᴰ.refl _))
enqueue_full-Offered drop_newest f c ps ws e = dropped-Offered f c false []
enqueue_full-Offered disconnect_slow f c ps ws e = disconnect-Offered f c false []
enqueue_full-Offered block f c ps ws e = block_loop-Offered ws f c false []

module _ (f : ClientFanout) (c : Bytes) (p : SlowClientPolicy) (ws : List Wake) where
  enqueue_room :
      f.closed ≡ false
      → ltb (length f.pending) f.capacity ≡ true
      → enqueue f c p ws ≡ some (done (record f { pending = f.pending ++ c ∷ [] }) queued [])
  unfolding enqueue
  enqueue_room o h = ground arith

  enqueue_arm :
      f.closed ≡ false
      → ltb (length f.pending) f.capacity ≡ false
      → enqueue f c p ws ≡ enqueue_full p f c f.pending ws
  unfolding enqueue
  enqueue_arm o h = ground arith

  enqueue_shut : f.closed ≡ true → enqueue f c p ws ≡ some (done f already_closed [])
  unfolding enqueue
  enqueue_shut o = ground arith

  pub enqueue-Offered : Leaves (enqueue f c p ws) (Offered [] f c)
  enqueue-Offered = elim (Bool-cases f.closed) [
    | inl shut ↦ rw (enqueue_shut shut) (dropped-Offered f c false [])
    | inr still ↦ elim (Bool-cases (ltb (length f.pending) f.capacity)) [
      | inl room ↦ rw (enqueue_room still room) (Sublistᴰ.refl (f.pending ++ c ∷ []))
      | inr full ↦ rw (enqueue_arm still full) (enqueue_full-Offered p f c f.pending ws refl)
    ]
  ]
