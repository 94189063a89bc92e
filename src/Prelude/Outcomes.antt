-- ===== src/Prelude/Outcomes.antt =====
-- What holds of the result of a computation, if it has one.
use mathlib.Core.Path.{◌≡◌, refl, ap, ◌∙◌}
use mathlib.Core.Option.{Option, none, some}
use hang_analyzer.Prelude.Tests.{◌>>=◌}

unfoldable pub Given : {A : Type 0} → (A → Type 0) → Option A → Type 0
Given P none = Unit
Given P (some a) = P a

pub Given-bind :
    {A B : Type 0} (P : A → Type 0) (Q : B → Type 0) (o : Option A) (f : A → Option B)
    → Given P o
    → ((a : A) → P a → Given Q (f a))
    → Given Q (o >>= f)
unfolding Given
Given-bind P Q none f g h = tt
Given-bind P Q (some a) f g h = h a g

pub Given-any : {A : Type 0} (o : Option A) → Given (λ _. Unit) o
unfolding Given
Given-any none = tt
Given-any (some a) = tt

pub Given-self : {A : Type 0} (o : Option A) → Given (λ a. o ≡ some a) o
unfolding Given
Given-self none = tt
Given-self (some a) = refl

pub bind_returns :
    {A B : Type 0} {o : Option A} (f : A → Option B) {a : A} {b : B}
    → o ≡ some a
    → f a ≡ some b
    → (o >>= f) ≡ some b
bind_returns f e q = ap (λ o. o >>= f) e ∙ q
