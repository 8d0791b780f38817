-- ===== src/Common/Results.antt =====
-- `Result` of the source, with `?` as the bind of a `do` block.
use mathlib.Core.Path.{◌≡◌, refl, ap, ◌∙◌}
use mathlib.Core.Logic.{◌⊎◌, inl, inr}
use mathlib.Core.Bool.{Bool, true, false}

pub data Result {ℓ} (A E : Type ℓ) : Type ℓ where
  ok : A → Result A E
  err : E → Result A E

infixl 5 ◌>>=◌ ◌>>◌
abbrev pub ◌>>=◌ {ℓ} : {A B E : Type ℓ} → Result A E → (A → Result B E) → Result B E
ok a >>= f = f a
err e >>= f = err e

abbrev pub ◌>>◌ : {B E : Type 0} → Result (Unit {0}) E → Result B E → Result B E
m >> k = m >>= λ _. k

-- `if !test { return Err(e) }`.
abbrev pub guard : {E : Type 0} → Bool → E → Result (Unit {0}) E
guard true e = ok tt
guard false e = err e

abbrev pub is_ok {ℓ} : {A E : Type ℓ} → Result A E → Bool
is_ok (ok a) = true
is_ok (err e) = false

pub Result-cases {ℓ} :
    {A E : Type ℓ} (r : Result A E) → ((a : A) × (r ≡ ok a)) ⊎ ((e : E) × (r ≡ err e))
Result-cases (ok a) = inl (a, refl)
Result-cases (err e) = inr (e, refl)

-- What holds of a success.
abbrev pub OnOk {ℓ κ} : {A E : Type ℓ} → Result A E → (A → Type κ) → Type κ
OnOk (ok a) P = P a
OnOk (err e) P = Unit

pub OnOk-bind :
    {A B E : Type 0} (P : B → Type 0) (m : Result A E) (f : A → Result B E)
    → ((a : A) → OnOk (f a) P)
    → OnOk (m >>= f) P
OnOk-bind P (ok a) f h = h a
OnOk-bind P (err e) f h = tt

-- A step that succeeds goes on to the next.
pub bind-ok :
    {A B E : Type 0} {m : Result A E} {r : Result B E} (a : A) (f : A → Result B E)
    → m ≡ ok a
    → f a ≡ r
    → (m >>= f) ≡ r
bind-ok a f e h = ap (λ z. z >>= f) e ∙ h

pub guard-ok :
    {B E : Type 0} {c : Bool} (error : E) (k : Result B E) → c ≡ true → (guard c error >> k) ≡ k
guard-ok error k e = ap (λ z. guard z error >> k) e

pub OnOk-then :
    {R E : Type 0} (P Q : R → Type 0) (m : Result R E) (f : R → Result R E)
    → OnOk m P
    → ((r : R) → P r → OnOk (f r) Q)
    → OnOk (m >>= f) Q
OnOk-then P Q (ok r) f p h = h r p
OnOk-then P Q (err e) f p h = tt

pub OnOk-map :
    {R E : Type 0} (P Q : R → Type 0) (m : Result R E) → ((r : R) → P r → Q r) → OnOk m P → OnOk m Q
OnOk-map P Q (ok r) h p = h r p
OnOk-map P Q (err e) h p = tt

pub OnOk-both :
    {R E : Type 0} (P Q : R → Type 0) (m : Result R E)
    → OnOk m P
    → OnOk m Q
    → OnOk m (λ r. P r × Q r)
OnOk-both P Q (ok r) p q = (p, q)
OnOk-both P Q (err e) p q = tt
