-- ===== src/Broker/Passing.antt =====
-- src/broker.rs: what `begin_handoff` leaves behind, whatever the owner answers and other tasks do,
-- and what `resume_handoff` needs.
use oh_myserial.Common.{
  is_ok, ◌<◌, ◌≢◌, eq_iff, ℕ, ◌+◌, ◌≡◌, refl, sym, ap, subst, ◌∙◌, inl, inr, false, Option, none,
  some, String, Result, ok, err, arith, str_eq, is_some_and, from_millis, Result-cases,
}
use oh_myserial.Policy.{WriteLock}
use oh_myserial.Ledger.Schema.{Externals, EventPayload}
use oh_myserial.Ledger.State.{EventStore, Moment}
use oh_myserial.Broker.State.{Broker, HandoffState}
use oh_myserial.Broker.Events.{log_event}
use oh_myserial.Broker.Evidence.{log_event-Logged}
use oh_myserial.Broker.Handoff.{
  HandoffView, OwnerReply, ReplyTexts, begin_texts, replied, reply_dropped, reply_expired,
  owner_closed, send_expired, check_handoff, enter_handoff, clear_handoff_if, take_lease,
  restart_ttl, released_for_handoff, finish_handoff, begin_handoff, resume_handoff, begin_entered,
  reply_result,
}

-- The owner has released the port.
abbrev pub Acknowledged : OwnerReply → Type 0
Acknowledged (replied (ok u)) = Unit
Acknowledged _ = ⊥

-- The handoff with the token is not there.
abbrev pub IsCleared : Option HandoffState → String → Type 0
IsCleared o token = is_some_and o (λ h. str_eq h.token token) ≡ false

clear_handoff_if-lock :
    {S : Type 0} (b : Broker S) (token : String) → (clear_handoff_if b token).lock ≡ b.lock
unfolding clear_handoff_if
clear_handoff_if-lock b token = ground arith

clear_handoff_if-IsCleared :
    {S : Type 0} (b : Broker S) (token : String)
    → IsCleared (clear_handoff_if b token).handoff token
unfolding clear_handoff_if
clear_handoff_if-IsCleared b token = ground arith

module _ (x : Externals) (es : EventStore) where
  open es use {Store}

  logged-lock :
      (b : Broker Store) (epoch : ℕ) (payload : EventPayload) (t : Moment)
      → (log_event x es b epoch payload t).lock ≡ b.lock
  logged-lock b epoch payload t = ap (λ z. z.lock) (log_event-Logged x es b epoch payload t).same

  logged-handoff :
      (b : Broker Store) (epoch : ℕ) (payload : EventPayload) (t : Moment)
      → (log_event x es b epoch payload t).handoff ≡ b.handoff
  logged-handoff b epoch payload t =
      ap (λ z. z.handoff) (log_event-Logged x es b epoch payload t).same

  released-lock :
      (b : Broker Store) (epoch : ℕ) (o : Option WriteLock) (t : Moment)
      → (released_for_handoff x es b epoch o t).lock ≡ b.lock
  unfolding released_for_handoff
  released-lock b epoch none t = refl
  released-lock b epoch (some l) t = logged-lock b epoch _ t

  released-handoff :
      (b : Broker Store) (epoch : ℕ) (o : Option WriteLock) (t : Moment)
      → (released_for_handoff x es b epoch o t).handoff ≡ b.handoff
  unfolding released_for_handoff
  released-handoff b epoch none t = refl
  released-handoff b epoch (some l) t = logged-handoff b epoch _ t

  module _ (actor : String) (duration_ms : ℕ) (token : String) (t : Moment) where
    -- What the last part of the call does to the state `m` that it finds.
    pub data Finished (m : Broker Store) (path : String) (reply : OwnerReply)
        (r : Broker Store × Result HandoffView String) : Type 0 where
      given_up :
          (e : String)
          → ¬ Acknowledged reply
          → r.1 ≡ err e
          → IsCleared r.0.handoff token
          → r.0.lock ≡ m.lock
          → Finished m path reply r
      handed_over :
          Acknowledged reply
          → r.1 ≡ ok (record { path = path; expires_ms = duration_ms; handoff_token = token })
          → r.0.lock ≡ none
          → r.0.handoff ≡ restart_ttl m.handoff (t.instant + from_millis duration_ms)
          → Finished m path reply r

    finish_given_up :
        (m : Broker Store) (epoch : ℕ) (path : String) (reply : OwnerReply) (e : String)
        → ¬ Acknowledged reply
        → Finished m path reply (finish_handoff x es m actor duration_ms epoch path token (err e) t)
    unfolding finish_handoff
    finish_given_up m epoch path reply e no_ack =
        given_up e no_ack refl
          (subst (λ o. IsCleared o token)
            (sym (logged-handoff (clear_handoff_if m token) epoch _ t))
            (clear_handoff_if-IsCleared m token))
          (logged-lock (clear_handoff_if m token) epoch _ t ∙ clear_handoff_if-lock m token)

    finish_handed_over :
        (m : Broker Store) (epoch : ℕ) (path : String) (reply : OwnerReply)
        → Acknowledged reply
        → Finished m path reply (finish_handoff x es m actor duration_ms epoch path token (ok tt) t)
    unfolding finish_handoff take_lease
    finish_handed_over m epoch path reply ack =
        handed_over ack refl
          (released-lock _ epoch m.lock t
            ∙ logged-lock (take_lease m duration_ms t.instant) epoch _ t)
          (released-handoff _ epoch m.lock t
            ∙ logged-handoff (take_lease m duration_ms t.instant) epoch _ t)

    finish-Finished :
        (m : Broker Store) (epoch : ℕ) (path : String) (texts : ReplyTexts) (reply : OwnerReply)
        → Finished m path reply
            (finish_handoff x es m actor duration_ms epoch path token (reply_result texts reply) t)
    unfolding reply_result
    finish-Finished m epoch path texts (replied (ok u)) =
        finish_handed_over m epoch path (replied (ok u)) tt
    finish-Finished m epoch path texts (replied (err e)) =
        finish_given_up m epoch path (replied (err e)) e (λ no. no)
    finish-Finished m epoch path texts reply_dropped =
        finish_given_up m epoch path reply_dropped texts.dropped (λ no. no)
    finish-Finished m epoch path texts reply_expired =
        finish_given_up m epoch path reply_expired texts.timed_out (λ no. no)
    finish-Finished m epoch path texts owner_closed =
        finish_given_up m epoch path owner_closed texts.closed (λ no. no)
    finish-Finished m epoch path texts send_expired =
        finish_given_up m epoch path send_expired texts.queue_expired (λ no. no)

    module _ (b : Broker Store) (lease_token : Option String) (now : ℕ)
        (others : Broker Store → Broker Store) (reply : OwnerReply) where
      -- The whole call, the reply being what the owner sent and `others` what other tasks did.
      pub data Begun (r : Broker Store × Result HandoffView String) : Type 0 where
        turned_away :
            (e : String)
            → check_handoff b actor lease_token duration_ms now ≡ err e
            → r ≡ (b, err e)
            → Begun r
        asked :
            check_handoff b actor lease_token duration_ms now ≡ ok tt
            → Finished
                (others (enter_handoff b actor lease_token duration_ms token now).0)
                b.port.path
                reply
                r
            → Begun r

      begin-entered :
          check_handoff b actor lease_token duration_ms now ≡ ok tt
          → begin_handoff x es b actor lease_token duration_ms token now others reply t
            ≡ finish_handoff x es
                (others (enter_handoff b actor lease_token duration_ms token now).0)
                actor
                duration_ms
                b.connection_epoch
                b.port.path
                token
                (reply_result begin_texts reply)
                t
      unfolding begin_handoff begin_entered enter_handoff
      begin-entered h = ground (arith, h)

      begin-refused :
          (e : String)
          → check_handoff b actor lease_token duration_ms now ≡ err e
          → begin_handoff x es b actor lease_token duration_ms token now others reply t ≡ (b, err e)
      unfolding begin_handoff begin_entered enter_handoff
      begin-refused e h = ground (arith, h)

      -- A handoff that the checks refuse changes nothing. Otherwise, if the owner acknowledges,
      -- the caller gets the new token, the write lease is gone, and a handoff that is still
      -- there gets its full time; and if not, the call fails, its handoff is not there, and the
      -- lease is as the other tasks left it.
      pub begin_handoff-Begun :
          Begun (begin_handoff x es b actor lease_token duration_ms token now others reply t)
      begin_handoff-Begun =
          elim (Result-cases (check_handoff b actor lease_token duration_ms now)) [
            | inl (u, h) ↦
                subst Begun (sym (begin-entered h))
                  (asked h (finish-Finished _ b.connection_epoch b.port.path begin_texts reply))
            | inr (e, h) ↦ turned_away e h (begin-refused e h)
          ]

  -- Until a handoff's time is over, a call of `resume_handoff` without its token fails and changes
  -- nothing.
  pub resume_handoff_keeps :
      (b : Broker Store) (h : HandoffState) (given : String) (now : ℕ)
      (others : Broker Store → Broker Store) (reply : OwnerReply) (t : Moment)
      → b.handoff ≡ some h
      → now < h.expires_at
      → given ≢ h.token
      → ((resume_handoff x es b given now others reply t).0 ≡ b)
        × (is_ok (resume_handoff x es b given now others reply t).1 ≡ false)
  unfolding resume_handoff
  resume_handoff_keeps b h given now others reply t there early other =
      ground (arith, eq_iff h.token given)
