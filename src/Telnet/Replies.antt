-- ===== src/Telnet/Replies.antt =====
-- src/client/rfc2217.rs: a reply is one well-formed subnegotiation.
use oh_myserial.Common.{ℕ, ◌+◌, ◌<◌, ◌≡◌, ap, ◌∙◌, false, List, [], ◌∷◌, ◌++◌, arith, min, ◌==◌}
use oh_myserial.Telnet.{
  TelnetDecoder, in_data, iac, se, com_port_option, feed_byte, feed, escape_iac, rfc_reply,
}
use oh_myserial.Telnet.Escaping.{resumed, body_byte, escaped-body}

small_code : (command : ℕ) → command < 155 → min (command + 100) 255 ≡ command + 100
small_code command h = omega arith

not_iac : (command : ℕ) → command < 155 → ((command + 100) == iac) ≡ false
not_iac command h = ground arith

-- A decoder in the middle of data reads the reply to a command below 155 as one subnegotiation, of
-- the option, the command's number plus 100 and the value, and reads nothing else from it.
pub feed-rfc_reply :
    (d : TelnetDecoder) (command : ℕ) (value : List ℕ)
    → d.state ≡ in_data
    → command < 155
    → feed d (rfc_reply command value) ≡ record d {
      subnegotiations = d.subnegotiations ++ (com_port_option ∷ (command + 100) ∷ value) ∷ [];
    }
unfolding feed feed_byte rfc_reply
feed-rfc_reply d command value s h = rw (resumed d s) (
    rw (small_code command h) (
      ap (λ z. feed z (escape_iac value ++ iac ∷ se ∷ []))
        (body_byte d (com_port_option ∷ []) (command + 100) (not_iac command h))
      ∙ escaped-body d (com_port_option ∷ (command + 100) ∷ []) value (iac ∷ se ∷ [])))
