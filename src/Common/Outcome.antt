-- ===== src/Common/Outcome.antt =====
-- What a Go call that returns `(T, error)` can do: return a value, return an error (by its
-- message), or panic.
use Prim.Native.String.{String, ◌++◌}
use mathlib.Core.Path.{◌≡◌, refl, subst}
use crossform.Common.Tests.{if◌then◌else◌}
use mathlib.Core.Option.{Option, none, some}
use mathlib.Core.Logic.{◌⊎◌, inl, inr}
use mathlib.Core.Bool.{Bool, true, false}

pub data Outcome {ℓ} (A : Type ℓ) : Type ℓ where
  ok : A → Outcome A
  fail : String → Outcome A
  panic : Outcome A

infixl 5 ◌>>=◌ ◌>>◌
-- Shut, so that the rules below fit; the short functions that use it open it.
unfoldable pub ◌>>=◌ {ℓ κ} : {A : Type ℓ} {B : Type κ} → Outcome A → (A → Outcome B) → Outcome B
ok a >>= f = f a
fail e >>= f = fail e
panic >>= f = panic

abbrev pub ◌>>◌ {ℓ κ} : {A : Type ℓ} {B : Type κ} → Outcome A → Outcome B → Outcome B
m >> k = m >>= λ _. k

-- errors.Wrap(err, text)
abbrev pub wrap {ℓ} : {A : Type ℓ} → String → Outcome A → Outcome A
wrap text (ok a) = ok a
wrap text (fail e) = fail (text ++ ": " ++ e)
wrap text panic = panic

-- The value that the program dereferences or asserts to be there.
abbrev pub must {ℓ} : {A : Type ℓ} → Option A → Outcome A
must none = panic
must (some a) = ok a

pub bind-ok {ℓ κ} : {A : Type ℓ} {B : Type κ} (a : A) (f : A → Outcome B) → (ok a >>= f) ≡ f a
unfolding ◌>>=◌
bind-ok a f = refl

pub bind-eq-ok {ℓ κ} :
    {A : Type ℓ} {B : Type κ} (m : Outcome A) (f : A → Outcome B) {b : B}
    → (m >>= f) ≡ ok b
    → (a : A) × (m ≡ ok a) × (f a ≡ ok b)
unfolding ◌>>=◌
bind-eq-ok (ok a) f h = (a, refl, h)
bind-eq-ok (fail e) f h = cc
bind-eq-ok panic f h = cc

pub Outcome-cases {ℓ} :
    {A : Type ℓ} (m : Outcome A)
    → ((a : A) × (m ≡ ok a)) ⊎ (((e : String) × (m ≡ fail e)) ⊎ (m ≡ panic))
Outcome-cases (ok a) = inl (a, refl)
Outcome-cases (fail e) = inr (inl (e, refl))
Outcome-cases panic = inr (inr refl)

-- What a call returns, if it returns, satisfies `P`.
pub record Ensures {ℓ κ} {A : Type ℓ} (P : A → Type κ) (m : Outcome A) : Type (ℓ ⊔ κ) where
  pub at : (a : A) → m ≡ ok a → P a

pub Ensures-ok {ℓ κ} : {A : Type ℓ} {P : A → Type κ} (a : A) → P a → Ensures P (ok a)
Ensures-ok {P} a p = record { at = λ b e. subst P (cc) p }

pub Ensures-bind {ℓ κ μ ν} :
    {A : Type ℓ} {B : Type κ} (P : A → Type μ) {Q : B → Type ν} (m : Outcome A) (f : A → Outcome B)
    → Ensures P m
    → ((a : A) → P a → Ensures Q (f a))
    → Ensures Q (m >>= f)
unfolding ◌>>=◌
Ensures-bind P (ok a) f first rest = rest a (first.at a refl)
Ensures-bind P (fail e) f first rest = record { at = λ b h. cc }
Ensures-bind P panic f first rest = record { at = λ b h. cc }

pub Ensures-self {ℓ} : {A : Type ℓ} (m : Outcome A) → Ensures (λ a. m ≡ ok a) m
Ensures-self m = record { at = λ a h. h }

-- Where nothing is needed of the first call.
pub Ensures-then {ℓ κ ν} :
    {A : Type ℓ} {B : Type κ} {Q : B → Type ν} (m : Outcome A) (f : A → Outcome B)
    → ((a : A) → Ensures Q (f a))
    → Ensures Q (m >>= f)
unfolding ◌>>=◌
Ensures-then (ok a) f rest = rest a
Ensures-then (fail e) f rest = record { at = λ b h. cc }
Ensures-then panic f rest = record { at = λ b h. cc }

-- An error is wrapped, a value is not.
pub Ensures-wrap {ℓ κ} :
    {A : Type ℓ} {P : A → Type κ} (text : String) (m : Outcome A)
    → Ensures P m
    → Ensures P (wrap text m)
Ensures-wrap text (ok a) h = h
Ensures-wrap text (fail e) h = record { at = λ b p. cc }
Ensures-wrap text panic h = record { at = λ b p. cc }

-- On either branch of a test, whose value the branch may use.
pub Ensures-if {ℓ κ} :
    {A : Type ℓ} {P : A → Type κ} (b : Bool) (m n : Outcome A)
    → (b ≡ true → Ensures P m)
    → (b ≡ false → Ensures P n)
    → Ensures P (if b then m else n)
Ensures-if true m n hm hn = hm refl
Ensures-if false m n hm hn = hn refl
