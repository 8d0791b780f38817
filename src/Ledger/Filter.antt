-- ===== src/Ledger/Filter.antt =====
-- src/ledger/schema.rs: `EventFilter`. The set of event types is a list, read only for membership.
use oh_myserial.Common.{
  ℕ, Bool, true, false, ◌&&◌, ◌||◌, List, [], ◌∷◌, Option, none, some, String, Result, ok, err,
  ◌==◌, str_eq, is_some_and, is_none_or, any,
}
use oh_myserial.Ledger.Schema.{
  BytesPayload, EventPayload, rx, tx, connection, control, gap, EventType, rx_type, tx_type,
  connection_type, control_type, gap_type, event_type, EventEnvelope, Externals, SchemaError,
  decode_payload,
}

pub record EventFilter : Type 0 where
  pub event_types : List EventType
  pub connection_epoch : Option ℕ
  pub actor : Option String
  pub contains_bytes : Option (List ℕ)

-- The order of the derived `Ord`.
type_rank : EventType → ℕ
type_rank rx_type = 0
type_rank tx_type = 1
type_rank connection_type = 2
type_rank control_type = 3
type_rank gap_type = 4

is_empty_list {ℓ} : {A : Type ℓ} → List A → Bool
is_empty_list [] = true
is_empty_list (x ∷ xs) = false

starts : List ℕ → List ℕ → Bool
starts [] ys = true
starts (n ∷ ns) [] = false
starts (n ∷ ns) (y ∷ ys) = n == y && starts ns ys

-- `needle.is_empty() || haystack.windows(needle.len()).any(|window| window == needle)`.
contains : List ℕ → List ℕ → Bool
unfolding starts is_empty_list
contains needle [] = is_empty_list needle
contains needle (y ∷ ys) = starts needle (y ∷ ys) || contains needle ys

actor_matches : String → EventPayload → Bool
actor_matches actor (tx p) = str_eq p.actor actor
actor_matches actor (control p) = is_some_and p.actor (λ a. str_eq a actor)
actor_matches actor (gap p) = is_some_and p.actor (λ a. str_eq a actor)
actor_matches actor (rx p) = false
actor_matches actor (connection p) = false

abbrev decoded : Result (List ℕ) SchemaError → Option (List ℕ)
decoded (ok bytes) = some bytes
decoded (err e) = none

module _ (x : Externals) where
  haystack_gap : Option BytesPayload → Option (List ℕ)
  haystack_gap none = none
  haystack_gap (some p) = decoded (decode_payload x p)

  haystack : EventPayload → Option (List ℕ)
  unfolding haystack_gap
  haystack (rx p) = decoded (decode_payload x p)
  haystack (tx p) = decoded (decode_payload x p.bytes)
  haystack (gap p) = haystack_gap p.bytes
  haystack (connection p) = none
  haystack (control p) = none

  -- `EventFilter::matches`.
  unfoldable pub matches : EventFilter → EventEnvelope → Bool
  unfolding haystack contains actor_matches type_rank is_empty_list
  matches f e =
      (is_empty_list f.event_types
        || any (λ t. type_rank t == type_rank (event_type e.event)) f.event_types)
      && is_none_or f.connection_epoch (λ epoch. e.connection_epoch == epoch)
      && is_none_or f.actor (λ actor. actor_matches actor e.event)
      && is_none_or f.contains_bytes (λ needle. is_some_and (haystack e.event) (contains needle))
