-- ===== src/Examples/Telnets.antt =====
-- Telnet data and a reply.
use oh_myserial.Common.{◌≡◌, refl, [], ◌∷◌, ◌++◌, arith}
use oh_myserial.Telnet.{subneg, feed_byte, fresh_decoder, feed, escape_iac, rfc_reply}
use oh_myserial.Telnet.Escaping.{with_payload, feed-escape_iac}
use oh_myserial.Telnet.Replies.{feed-rfc_reply}

split_escape : (1 ∷ 255 ∷ []) ++ (255 ∷ []) ≡ escape_iac (1 ∷ 255 ∷ [])
unfolding escape_iac
split_escape = refl

feed-escape_iac_example :
    feed (feed fresh_decoder (1 ∷ 255 ∷ [])) (255 ∷ []) ≡ with_payload fresh_decoder (1 ∷ 255 ∷ [])
feed-escape_iac_example =
    feed-escape_iac fresh_decoder (1 ∷ 255 ∷ []) (1 ∷ 255 ∷ []) (255 ∷ []) refl split_escape

feed-rfc_reply_example :
    feed fresh_decoder (rfc_reply 1 (255 ∷ 0 ∷ []))
    ≡ record fresh_decoder { subnegotiations = (44 ∷ 101 ∷ 255 ∷ 0 ∷ []) ∷ [] }
feed-rfc_reply_example = feed-rfc_reply fresh_decoder 1 (255 ∷ 0 ∷ []) refl (ground arith)

-- The reply to a command from 155 on leaves the reader in the middle of the subnegotiation.
reply_unfinished :
    feed fresh_decoder (rfc_reply 200 [])
    ≡ record fresh_decoder { state = subneg (44 ∷ 255 ∷ 240 ∷ []) }
unfolding feed feed_byte rfc_reply escape_iac
reply_unfinished = refl
