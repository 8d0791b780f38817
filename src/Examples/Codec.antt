-- ===== src/Examples/Codec.antt =====
-- A codec that stands for base64: each number in unary, `b` at its end.
use Prim.Native.String.{String}
use Prim.Native.Char.{code}
use oh_myserial.Common.{
  ℕ, zero, suc, ◌+◌, ◌≡◌, refl, List, [], ◌∷◌, Option, none, some, arith, ap, ◌∙◌, ◌==◌,
  if◌then◌else◌,
}

abbrev pub encode_number : ℕ → String → String
encode_number zero s = String.◌∷◌ "b" s
encode_number (suc n) s = String.◌∷◌ "a" (encode_number n s)

abbrev pub encode : List ℕ → String
encode [] = ""
encode (n ∷ ns) = encode_number n (encode ns)

abbrev pub push_number : ℕ → Option (List ℕ) → Option (List ℕ)
push_number k none = none
push_number k (some ns) = some (k ∷ ns)

abbrev pub decode_from : ℕ → String → Option (List ℕ)
decode_from k String.[] = some []
decode_from k (String.◌∷◌ c s) =
    if code c == 98 then push_number k (decode_from 0 s) else decode_from (k + 1) s

abbrev pub decode : String → Option (List ℕ)
decode = decode_from 0

decode_from-number :
    (k n : ℕ) (s : String)
    → decode_from k (encode_number n s) ≡ push_number (k + n) (decode_from 0 s)
decode_from-number k zero s = ap (λ z. push_number z (decode_from 0 s)) k_zero
  where
    k_zero : k ≡ k + 0
    k_zero = omega arith
decode_from-number k (suc n) s =
    decode_from-number (k + 1) n s ∙ ap (λ z. push_number z (decode_from 0 s)) k_suc
  where
    k_suc : k + 1 + n ≡ k + suc n
    k_suc = omega arith

pub decode-encode : (ns : List ℕ) → decode (encode ns) ≡ some ns
decode-encode [] = refl
decode-encode (n ∷ ns) =
    decode_from-number 0 n (encode ns)
    ∙ ap (λ o. push_number (0 + n) o) (decode-encode ns)
    ∙ ap (λ z. some (z ∷ ns)) zero_left
  where
    zero_left : 0 + n ≡ n
    zero_left = omega arith
