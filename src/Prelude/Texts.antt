-- ===== src/Prelude/Texts.antt =====
-- Texts as lists of code points, with Python's string operations on them.
use Prim.Native.Nat.{ℕ, zero, suc, ◌+◌, ◌-◌, ◌/◌, ◌%◌}
use Prim.Native.Char.{code}
use Prim.Native.String.{String}
use mathlib.Core.Bool.{Bool, true, false, ◌&&◌, ◌||◌}
use mathlib.Core.List.{List, [], ◌∷◌, ◌++◌, reverse}
use mathlib.Core.Path.{◌≡◌, refl}
use mathlib.Core.Logic.{◌↔◌}
use native.Mathlib.Omega.{arith}
use native.Mathlib.Decide.{ℕ_discrete}
use hang_analyzer.Prelude.Tests.{leb, ltb, ◌==◌, if◌then◌else◌}
use hang_analyzer.Prelude.Lists.{length, drop}

abbrev pub Text : Type 0
Text = List ℕ

-- A text literal.
abbrev pub codes : String → Text
codes String.[] = []
codes (String.◌∷◌ c s) = code c ∷ codes s

unfoldable pub Text-discrete : Discrete Text
Text-discrete = hlevel ℕ_discrete

-- `s == t`
unfoldable pub text_eq : Text → Text → Bool
text_eq [] [] = true
text_eq (a ∷ s) (b ∷ t) = a == b && text_eq s t
text_eq _ _ = false

-- `s.startswith(p)`
unfoldable pub starts_with : Text → Text → Bool
starts_with s [] = true
starts_with [] (b ∷ p) = false
starts_with (a ∷ s) (b ∷ p) = a == b && starts_with s p

-- `s.endswith(t)`
unfoldable pub ends_with : Text → Text → Bool
unfolding text_eq
ends_with s t = leb (length t) (length s) && text_eq (drop (length s - length t) s) t

-- `s.replace(old, new)` for a non-empty `old`; the number counts code points of a match to skip.
replace_from : ℕ → Text → Text → Text → Text
replace_from k [] old new = []
replace_from (suc k) (c ∷ s) old new = replace_from k s old new
replace_from zero (c ∷ s) old new = elim (starts_with (c ∷ s) old) [
  | true ↦ new ++ replace_from (length old - 1) s old new
  | false ↦ c ∷ replace_from 0 s old new
]

unfoldable pub replace : Text → Text → Text → Text
unfolding replace_from starts_with
replace s old new = replace_from 0 s old new

-- Python's ASCII white space
unfoldable pub is_space : ℕ → Bool
is_space c = (leb 9 c && leb c 13) || (leb 28 c && leb c 32)

unfoldable pub skip_spaces : Text → Text
unfolding is_space
skip_spaces [] = []
skip_spaces (c ∷ s) = let rest = skip_spaces s in if is_space c then rest else c ∷ s

-- `s.strip()`
unfoldable pub strip : Text → Text
unfolding skip_spaces
strip s = reverse (skip_spaces (reverse (skip_spaces s)))

-- `str(n)`; a number has fewer than n + 1 decimal digits, or one.
digits_before : ℕ → ℕ → Text → Text
digits_before zero n acc = acc
digits_before (suc fuel) n acc = elim (ltb n 10) [
  | true ↦ (48 + n) ∷ acc
  | false ↦ digits_before fuel (n / 10) ((48 + n % 10) ∷ acc)
]

unfoldable pub decimal : ℕ → Text
unfolding digits_before
decimal n = digits_before (suc n) n []

pub text_eq_iff : (s t : Text) → (text_eq s t ≡ true) ↔ (s ≡ t)
unfolding text_eq
text_eq_iff [] [] = (λ _. refl, λ _. refl)
text_eq_iff [] (b ∷ t) = (λ h. cc, λ h. cc)
text_eq_iff (a ∷ s) [] = (λ h. cc, λ h. cc)
text_eq_iff (a ∷ s) (b ∷ t) = ground (arith, text_eq_iff s t)
