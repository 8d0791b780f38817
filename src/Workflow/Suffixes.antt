-- ===== src/Workflow/Suffixes.antt =====
-- Suffixes of lists, and the prefixes of a pattern that are suffixes of a text.
use oh_myserial.Common.{
  ℕ, zero, suc, ◌≤◌, ◌<◌, ◌≡◌, ◌∙◌, refl, sym, ap, List, [], ◌∷◌, ◌++◌, some, arith, length, take,
  get_elem?, length-append,
}
use mathlib.Core.List.{append_assoc, append-nil}

module _ {ℓ} {A : Type ℓ} where
  -- `text` ends with `end`.
  pub record IsSuffix (end text : List A) : Type ℓ where
    pub front : List A
    pub joined : text ≡ front ++ end

  pub IsSuffix-nil : (text : List A) → IsSuffix [] text
  IsSuffix-nil text = record { front = text; joined = sym (append-nil text) }

  pub IsSuffix-refl : (text : List A) → IsSuffix text text
  IsSuffix-refl text = record { front = []; joined = refl }

  pub IsSuffix-cons : (a : A) (end text : List A) → IsSuffix end text → IsSuffix end (a ∷ text)
  IsSuffix-cons a end text s = record { front = a ∷ s.front; joined = ap (λ z. a ∷ z) s.joined }

  pub IsSuffix-trans : (a b c : List A) → IsSuffix a b → IsSuffix b c → IsSuffix a c
  IsSuffix-trans a b c s t = record {
    front = t.front ++ s.front;
    joined = t.joined ∙ (ap (λ z. t.front ++ z) s.joined ∙ sym (append_assoc t.front s.front a));
  }

  pub IsSuffix-length : (end text : List A) → IsSuffix end text → length end ≤ length text
  IsSuffix-length end text s = omega (arith, ap length s.joined, length-append s.front end)

  tails_agree : (fa a fb b : List A) → fa ++ a ≡ fb ++ b → length a ≤ length b → IsSuffix a b
  tails_agree fa a [] b e h = record { front = fa; joined = sym e }
  tails_agree [] a (y ∷ fb) b e h = absurd (omega (arith, ap length e, length-append fb b))
  tails_agree (x ∷ fa) a (y ∷ fb) b e h = tails_agree fa a fb b (grind (arith, e)) h

  -- Of two suffixes the shorter is a suffix of the longer.
  pub IsSuffix-shorter :
      (a b text : List A) → IsSuffix a text → IsSuffix b text → length a ≤ length b → IsSuffix a b
  IsSuffix-shorter a b text s t h = tails_agree s.front a t.front b (sym s.joined ∙ t.joined) h

  last_equal : (xs ys : List A) (x y : A) → xs ++ x ∷ [] ≡ ys ++ y ∷ [] → (xs ≡ ys) × (x ≡ y)
  last_equal [] [] x y e = (refl, grind (arith, e))
  last_equal [] (b ∷ ys) x y e = absurd (omega (arith, ap length e, length-append ys (y ∷ [])))
  last_equal (a ∷ xs) [] x y e = absurd (omega (arith, ap length e, length-append xs (x ∷ [])))
  last_equal (a ∷ xs) (b ∷ ys) x y e =
      let (fronts, lasts) = last_equal xs ys x y (grind (arith, e)) in
      (grind (arith, e, fronts), lasts)

  -- A suffix of a text that grows by one element.
  pub IsSuffix-snoc :
      (end text : List A) (a : A) → IsSuffix end text → IsSuffix (end ++ a ∷ []) (text ++ a ∷ [])
  IsSuffix-snoc end text a s = record {
    front = s.front;
    joined = ap (λ z. z ++ a ∷ []) s.joined ∙ append_assoc s.front end (a ∷ []);
  }

  pub IsSuffix-unsnoc :
      (end text : List A) (a b : A)
      → IsSuffix (end ++ a ∷ []) (text ++ b ∷ [])
      → IsSuffix end text × (a ≡ b)
  IsSuffix-unsnoc end text a b s =
      let (fronts, lasts) =
        last_equal text (s.front ++ end) b a (s.joined ∙ sym (append_assoc s.front end (a ∷ []))) in
      (record { front = s.front; joined = fronts }, sym lasts)

  pub take-snoc :
      (xs : List A) (i : ℕ) (a : A)
      → get_elem? xs i ≡ some a
      → take (suc i) xs ≡ take i xs ++ a ∷ []
  take-snoc [] i a h = grind (arith, h)
  take-snoc (x ∷ xs) zero a h = grind (arith, h)
  take-snoc (x ∷ xs) (suc i) a h = ap (λ z. x ∷ z) (take-snoc xs i a h)

  pub length-take : (n : ℕ) (xs : List A) → n ≤ length xs → length (take n xs) ≡ n
  length-take zero xs h = refl
  length-take (suc n) [] h = absurd (omega arith)
  length-take (suc n) (x ∷ xs) h = omega (arith, length-take n xs)

  pub get_elem?-some : (xs : List A) (i : ℕ) → i < length xs → (a : A) × (get_elem? xs i ≡ some a)
  get_elem?-some [] i h = absurd (omega arith)
  get_elem?-some (x ∷ xs) zero h = (x, refl)
  get_elem?-some (x ∷ xs) (suc i) h = get_elem?-some xs i (omega arith)
