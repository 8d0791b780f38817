-- ===== src/Telnet/Escaping.antt =====
-- src/client/rfc2217.rs: the decoder reads back escaped data, and does not see how the bytes came in.
use mathlib.Core.List.{append_assoc, append-nil}
use oh_myserial.Common.{
  ℕ, ◌≡◌, refl, sym, ap, subst, ◌∙◌, inl, inr, false, List, [], ◌∷◌, ◌++◌, arith, ◌==◌, ==_iff,
  Bool-cases,
}
use oh_myserial.Telnet.{TelnetDecoder, in_data, subneg, iac, feed_byte, feed, escape_iac}

-- Bytes in two reads do to the decoder what they do in one.
pub feed-append : (d : TelnetDecoder) (xs ys : List ℕ) → feed d (xs ++ ys) ≡ feed (feed d xs) ys
unfolding feed
feed-append d [] ys = refl
feed-append d (x ∷ xs) ys = feed-append (feed_byte d d.state x) xs ys

-- The decoder in the middle of data, with its payload.
abbrev pub with_payload : TelnetDecoder → List ℕ → TelnetDecoder
with_payload d payload = record d { state = in_data; payload = payload }

-- The decoder in the middle of a subnegotiation.
abbrev pub with_body : TelnetDecoder → List ℕ → TelnetDecoder
with_body d body = record d { state = subneg body }

escape_iac-other :
    (byte : ℕ) (bytes : List ℕ)
    → (byte == iac) ≡ false
    → escape_iac (byte ∷ bytes) ≡ byte ∷ escape_iac bytes
unfolding escape_iac
escape_iac-other byte bytes other = ground (arith, other)

data_byte :
    (d : TelnetDecoder) (p : List ℕ) (byte : ℕ)
    → (byte == iac) ≡ false
    → feed_byte (with_payload d p) in_data byte ≡ with_payload d (p ++ byte ∷ [])
unfolding feed_byte
data_byte d p byte other = ground (arith, other)

pub body_byte :
    (d : TelnetDecoder) (p : List ℕ) (byte : ℕ)
    → (byte == iac) ≡ false
    → feed_byte (with_body d p) (subneg p) byte ≡ with_body d (p ++ byte ∷ [])
unfolding feed_byte
body_byte d p byte other = ground (arith, other)

escaped_byte :
    (d : TelnetDecoder) (p : List ℕ) (byte : ℕ) (bytes : List ℕ)
    → feed (with_payload d p) (escape_iac (byte ∷ bytes))
      ≡ feed (with_payload d (p ++ byte ∷ [])) (escape_iac bytes)
unfolding feed feed_byte escape_iac
escaped_byte d p byte bytes = elim (Bool-cases (byte == iac)) [
  | inl same ↦
      subst
        (λ z.
          feed (with_payload d p) (escape_iac (z ∷ bytes))
          ≡ feed (with_payload d (p ++ z ∷ [])) (escape_iac bytes))
        (sym ((==_iff byte iac).0 same)) refl
  | inr other ↦
      rw (escape_iac-other byte bytes other)
        (ap (λ z. feed z (escape_iac bytes)) (data_byte d p byte other))
]

escaped_body_byte :
    (d : TelnetDecoder) (p : List ℕ) (byte : ℕ) (bytes rest : List ℕ)
    → feed (with_body d p) (escape_iac (byte ∷ bytes) ++ rest)
      ≡ feed (with_body d (p ++ byte ∷ [])) (escape_iac bytes ++ rest)
unfolding feed feed_byte escape_iac
escaped_body_byte d p byte bytes rest = elim (Bool-cases (byte == iac)) [
  | inl same ↦
      subst
        (λ z.
          feed (with_body d p) (escape_iac (z ∷ bytes) ++ rest)
          ≡ feed (with_body d (p ++ z ∷ [])) (escape_iac bytes ++ rest))
        (sym ((==_iff byte iac).0 same)) refl
  | inr other ↦
      rw (escape_iac-other byte bytes other)
        (ap (λ z. feed z (escape_iac bytes ++ rest)) (body_byte d p byte other))
]

escaped-payload :
    (d : TelnetDecoder) (p bytes : List ℕ)
    → feed (with_payload d p) (escape_iac bytes) ≡ with_payload d (p ++ bytes)
unfolding feed escape_iac
escaped-payload d p [] = ap (with_payload d) (sym (append-nil p))
escaped-payload d p (byte ∷ bytes) =
    escaped_byte d p byte bytes
    ∙ (escaped-payload d (p ++ byte ∷ []) bytes
        ∙ ap (with_payload d) (append_assoc p (byte ∷ []) bytes))

pub escaped-body :
    (d : TelnetDecoder) (p bytes rest : List ℕ)
    → feed (with_body d p) (escape_iac bytes ++ rest) ≡ feed (with_body d (p ++ bytes)) rest
unfolding escape_iac
escaped-body d p [] rest = ap (λ z. feed (with_body d z) rest) (sym (append-nil p))
escaped-body d p (byte ∷ bytes) rest =
    escaped_body_byte d p byte bytes rest
    ∙ (escaped-body d (p ++ byte ∷ []) bytes rest
        ∙ ap (λ z. feed (with_body d z) rest) (append_assoc p (byte ∷ []) bytes))

-- A decoder in the middle of data.
pub resumed : (d : TelnetDecoder) → d.state ≡ in_data → d ≡ with_payload d d.payload
resumed d s = ap (λ z. record d { state = z }) s

-- Escaped bytes that come in between two commands, in any two reads, are decoded to the bytes
-- themselves behind the payload so far, with no reply and no subnegotiation.
pub feed-escape_iac :
    (d : TelnetDecoder) (bytes first second : List ℕ)
    → d.state ≡ in_data
    → first ++ second ≡ escape_iac bytes
    → feed (feed d first) second ≡ with_payload d (d.payload ++ bytes)
feed-escape_iac d bytes first second s split =
    sym (feed-append d first second)
    ∙ (ap (feed d) split
        ∙ (ap (λ z. feed z (escape_iac bytes)) (resumed d s) ∙ escaped-payload d d.payload bytes))
