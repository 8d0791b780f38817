-- ===== src/Examples/Encoding.antt =====
-- Encodings of values as printable bytes, put together from numbers, pairs, options and lists.
use oh_myserial.Common.{
  ℕ, zero, suc, ◌+◌, ◌≤◌, ◌≡◌, ◌∙◌, refl, ap, List, [], ◌∷◌, ◌++◌, Option, none, some, arith, ◌==◌,
  if◌then◌else◌, All, All-append, length,
}
use mathlib.Core.List.{append_assoc}

abbrev pub AreBytes : List ℕ → Type 0
AreBytes = All (λ b. 32 ≤ b)

pub record Encoding (A : Type 0) : Type 0 where
  pub enc : A → List ℕ
  pub dec : List ℕ → Option (A × List ℕ)
  pub dec-enc : (a : A) (rest : List ℕ) → dec (enc a ++ rest) ≡ some (a, rest)
  pub printable : (a : A) → AreBytes (enc a)

infixl 1 ◌then◌
◌then◌ : {A B : Type 0} → Option A → (A → Option B) → Option B
none then f = none
some a then f = f a

enc_number : ℕ → List ℕ
enc_number zero = 98 ∷ []
enc_number (suc n) = 97 ∷ enc_number n

dec_number : ℕ → List ℕ → Option (ℕ × List ℕ)
dec_number n [] = none
dec_number n (b ∷ bytes) = if b == 98 then some (n, bytes) else dec_number (suc n) bytes

dec_number-enc :
    (k n m : ℕ) (rest : List ℕ) → m ≡ k + n → dec_number k (enc_number n ++ rest) ≡ some (m, rest)
unfolding dec_number enc_number
dec_number-enc k zero m rest e = ap (λ z. some (z, rest)) (omega arith)
dec_number-enc k (suc n) m rest e = dec_number-enc (suc k) n m rest (omega arith)

enc_number-AreBytes : (n : ℕ) → AreBytes (enc_number n)
unfolding enc_number
enc_number-AreBytes zero = ground arith
enc_number-AreBytes (suc n) = (omega arith, enc_number-AreBytes n)

pub numbers : Encoding ℕ
numbers = record {
  enc = enc_number;
  dec = dec_number 0;
  dec-enc = λ n rest. dec_number-enc 0 n n rest (omega arith);
  printable = enc_number-AreBytes;
}

module _ {A B : Type 0} (a : Encoding A) (b : Encoding B) where
  enc_pair : A × B → List ℕ
  enc_pair v = a.enc v.0 ++ b.enc v.1

  dec_pair : List ℕ → Option ((A × B) × List ℕ)
  dec_pair bytes =
      a.dec bytes then λ first. b.dec first.1 then λ second. some ((first.0, second.0), second.1)

  dec_pair-enc : (v : A × B) (rest : List ℕ) → dec_pair (enc_pair v ++ rest) ≡ some (v, rest)
  unfolding dec_pair enc_pair ◌then◌
  dec_pair-enc v rest =
      ap dec_pair (append_assoc (a.enc v.0) (b.enc v.1) rest)
      ∙ (ap (λ z. z then λ first. b.dec first.1 then λ second. some ((first.0, second.0), second.1))
            (a.dec-enc v.0 (b.enc v.1 ++ rest))
          ∙ ap (λ z. z then λ second. some ((v.0, second.0), second.1)) (b.dec-enc v.1 rest))

  pair_AreBytes : (v : A × B) → AreBytes (enc_pair v)
  unfolding enc_pair
  pair_AreBytes v =
      All-append (λ c. 32 ≤ c) (a.enc v.0) (b.enc v.1) (a.printable v.0) (b.printable v.1)

  pub pairs : Encoding (A × B)
  pairs = record {
    enc = enc_pair;
    dec = dec_pair;
    dec-enc = dec_pair-enc;
    printable = pair_AreBytes;
  }

module _ {A B : Type 0} (b : Encoding B) (to : A → B) (from : B → A)
    (back : (v : A) → from (to v) ≡ v) where
  dec_as : List ℕ → Option (A × List ℕ)
  dec_as bytes = b.dec bytes then λ v. some (from v.0, v.1)

  dec_as-enc : (v : A) (rest : List ℕ) → dec_as (b.enc (to v) ++ rest) ≡ some (v, rest)
  unfolding dec_as ◌then◌
  dec_as-enc v rest =
      ap (λ z. z then λ w. some (from w.0, w.1)) (b.dec-enc (to v) rest)
      ∙ ap (λ z. some (z, rest)) (back v)

  -- A type that is written as another.
  pub written_as : Encoding A
  written_as = record {
    enc = λ v. b.enc (to v);
    dec = dec_as;
    dec-enc = dec_as-enc;
    printable = λ v. b.printable (to v);
  }

module _ {A : Type 0} (a : Encoding A) where
  enc_items : List A → List ℕ
  enc_items [] = []
  enc_items (v ∷ vs) = a.enc v ++ enc_items vs

  dec_items : ℕ → List ℕ → Option (List A × List ℕ)
  dec_items zero bytes = some ([], bytes)
  dec_items (suc n) bytes = a.dec bytes then λ first.
      dec_items n first.1 then λ others. some (first.0 ∷ others.0, others.1)

  dec_items-enc :
      (vs : List A) (rest : List ℕ) → dec_items (length vs) (enc_items vs ++ rest) ≡ some (vs, rest)
  unfolding dec_items enc_items ◌then◌
  dec_items-enc [] rest = refl
  dec_items-enc (v ∷ vs) rest =
      ap (dec_items (suc (length vs))) (append_assoc (a.enc v) (enc_items vs) rest)
      ∙ (ap
            (λ z. z then λ first.
              dec_items (length vs) first.1 then λ others. some (first.0 ∷ others.0, others.1))
            (a.dec-enc v (enc_items vs ++ rest))
          ∙ ap (λ z. z then λ others. some (v ∷ others.0, others.1)) (dec_items-enc vs rest))

  items_AreBytes : (vs : List A) → AreBytes (enc_items vs)
  unfolding enc_items
  items_AreBytes [] = tt
  items_AreBytes (v ∷ vs) =
      All-append (λ c. 32 ≤ c) (a.enc v) (enc_items vs) (a.printable v) (items_AreBytes vs)

  enc_list : List A → List ℕ
  enc_list vs = enc_number (length vs) ++ enc_items vs

  dec_list : List ℕ → Option (List A × List ℕ)
  dec_list bytes = dec_number 0 bytes then λ count. dec_items count.0 count.1

  dec_list-enc : (vs : List A) (rest : List ℕ) → dec_list (enc_list vs ++ rest) ≡ some (vs, rest)
  unfolding dec_list enc_list ◌then◌
  dec_list-enc vs rest =
      ap dec_list (append_assoc (enc_number (length vs)) (enc_items vs) rest)
      ∙ (ap (λ z. z then λ count. dec_items count.0 count.1)
            (dec_number-enc 0 (length vs) (length vs) (enc_items vs ++ rest) (omega arith))
          ∙ dec_items-enc vs rest)

  list_AreBytes : (vs : List A) → AreBytes (enc_list vs)
  unfolding enc_list
  list_AreBytes vs =
      All-append (λ c. 32 ≤ c) (enc_number (length vs)) (enc_items vs)
        (enc_number-AreBytes (length vs)) (items_AreBytes vs)

  pub lists : Encoding (List A)
  lists = record {
    enc = enc_list;
    dec = dec_list;
    dec-enc = dec_list-enc;
    printable = list_AreBytes;
  }

  to_list : Option A → List A
  to_list none = []
  to_list (some v) = v ∷ []

  from_list : List A → Option A
  from_list [] = none
  from_list (v ∷ vs) = some v

  from_list-to_list : (o : Option A) → from_list (to_list o) ≡ o
  unfolding from_list to_list
  from_list-to_list none = refl
  from_list-to_list (some v) = refl

  pub options : Encoding (Option A)
  options = written_as lists to_list from_list from_list-to_list
