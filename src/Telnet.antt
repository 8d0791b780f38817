-- ===== src/Telnet.antt =====
-- src/client/rfc2217.rs: the Telnet decoder, the escaping of data and the replies. The sockets and
-- the calls of the broker are not modelled.
pub mod Escaping
pub mod Replies
use oh_myserial.Common.{
  ℕ, ◌+◌, Bool, true, false, ◌||◌, List, [], ◌∷◌, ◌++◌, ◌==◌, if◌then◌else◌, min,
}

-- The bytes of the protocol that the decoder names.
abbrev pub iac : ℕ
iac = 255

abbrev pub dont : ℕ
dont = 254

abbrev pub do_option : ℕ
do_option = 253

abbrev pub wont : ℕ
wont = 252

abbrev pub will : ℕ
will = 251

abbrev pub sb : ℕ
sb = 250

abbrev pub se : ℕ
se = 240

abbrev pub com_port_option : ℕ
com_port_option = 44

pub data DecoderState : Type 0 where
  in_data after_iac : DecoderState
  negotiation : ℕ → DecoderState
  subneg subneg_iac : List ℕ → DecoderState

-- The decoder's state, and what its caller's three buffers hold.
pub record TelnetDecoder : Type 0 where
  pub state : DecoderState
  pub payload : List ℕ
  pub replies : List ℕ
  pub subnegotiations : List (List ℕ)

abbrev pub fresh_decoder : TelnetDecoder
fresh_decoder = record { state = in_data; payload = []; replies = []; subnegotiations = [] }

unfoldable pub negotiation_reply : ℕ → ℕ → List ℕ
negotiation_reply command option =
    if command == will
    then if option == com_port_option
      then iac ∷ do_option ∷ option ∷ []
      else iac ∷ dont ∷ option ∷ []
    else if command == wont
    then iac ∷ dont ∷ option ∷ []
    else if command == do_option
    then if option == com_port_option then iac ∷ will ∷ option ∷ [] else iac ∷ wont ∷ option ∷ []
    else if command == dont
    then iac ∷ wont ∷ option ∷ []
    else []

-- The match on the state, for one byte.
unfoldable pub feed_byte : TelnetDecoder → DecoderState → ℕ → TelnetDecoder
feed_byte d in_data byte =
    if byte == iac
    then record d { state = after_iac }
    else record d { state = in_data; payload = d.payload ++ byte ∷ [] }
feed_byte d after_iac byte =
    if byte == iac
    then record d { state = in_data; payload = d.payload ++ iac ∷ [] }
    else if (byte == will) || (byte == wont) || (byte == do_option) || (byte == dont)
    then record d { state = negotiation byte }
    else if byte == sb
    then record d { state = subneg [] }
    else record d { state = in_data }
feed_byte d (negotiation command) byte = record d {
  state = in_data;
  replies = d.replies ++ negotiation_reply command byte;
}
feed_byte d (subneg body) byte =
    if byte == iac
    then record d { state = subneg_iac body }
    else record d { state = subneg (body ++ byte ∷ []) }
feed_byte d (subneg_iac body) byte =
    if byte == iac
    then record d { state = subneg (body ++ iac ∷ []) }
    else if byte == se
    then record d { state = in_data; subnegotiations = d.subnegotiations ++ body ∷ [] }
    else record d { state = in_data }

unfoldable pub feed : TelnetDecoder → List ℕ → TelnetDecoder
feed d [] = d
feed d (byte ∷ bytes) = feed (feed_byte d d.state byte) bytes

unfoldable pub escape_iac : List ℕ → List ℕ
escape_iac [] = []
escape_iac (byte ∷ bytes) =
    if byte == iac then byte ∷ iac ∷ escape_iac bytes else byte ∷ escape_iac bytes

-- `command.saturating_add(100)` is on u8.
unfoldable pub rfc_reply : ℕ → List ℕ → List ℕ
rfc_reply command value =
    (iac ∷ sb ∷ com_port_option ∷ min (command + 100) 255 ∷ [])
    ++ (escape_iac value ++ iac ∷ se ∷ [])
