-- ===== src/Base/Texts.antt =====
-- Texts that are compared are native strings; a test of their characters reads the code points.
use Prim.Native.Char.{code}
use Prim.Native.Nat.{ℕ}
use Prim.Native.String.{String}
use text.Mathlib.Text.{◌==◌ as ◌===◌}
use text.Mathlib.TextEquality.{eq_iff}
use mathlib.Core.Path.{◌≡◌, refl}
use mathlib.Core.Logic.{◌↔◌}
use mathlib.Core.Bool.{Bool, true, false, ◌&&◌, ◌||◌}
use job_hound.Base.Tests.{ltb, ◌==◌}
use mathlib.Core.List.{List, [], ◌∷◌}

abbrev pub str_eq : String → String → Bool
str_eq s t = s === t

pub str_eq_iff : (s t : String) → (str_eq s t ≡ true) ↔ (s ≡ t)
str_eq_iff s t = eq_iff s t

pub str_eq_refl : (s : String) → str_eq s s ≡ true
str_eq_refl s = (eq_iff s s).1 refl

abbrev pub codes : String → List ℕ
codes String.[] = []
codes (String.◌∷◌ c s) = code c ∷ codes s

-- The order of texts, by their characters.
abbrev pub codes_before : List ℕ → List ℕ → Bool
codes_before [] [] = false
codes_before [] (b ∷ bs) = true
codes_before (a ∷ xs) [] = false
codes_before (a ∷ xs) (b ∷ bs) = let rest = codes_before xs bs in ltb a b || (a == b && rest)

abbrev pub text_before : String → String → Bool
text_before s t = codes_before (codes s) (codes t)
