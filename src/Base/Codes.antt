-- ===== src/Base/Codes.antt =====
-- Text as a list of code points. Case conversion is that of ASCII letters.
use Prim.Native.Nat.{ℕ, ◌≤◌, ◌+◌, ◌-◌}
use Prim.Native.Char.{code}
use Prim.Native.String.{String}
use mathlib.Core.Path.{◌≡◌, refl}
use mathlib.Core.Bool.{Bool, true, false, ◌&&◌, ◌||◌}
use mathlib.Core.List.{List, [], ◌∷◌, ◌++◌, map, map-append}
use enterprise_document_inte.Base.Lists.{All}
use native.Mathlib.Omega.{arith}
use enterprise_document_inte.Base.Tests.{◌==◌, leb, if◌then◌else◌}

abbrev pub Text : Type 0
Text = List ℕ

abbrev pub codes : String → Text
codes String.[] = []
codes (String.◌∷◌ c s) = code c ∷ codes s

abbrev pub text_eq : Text → Text → Bool
text_eq [] [] = true
text_eq [] (b ∷ t) = false
text_eq (a ∷ s) [] = false
text_eq (a ∷ s) (b ∷ t) = a == b && text_eq s t

-- `text.startswith(prefix)`
abbrev pub starts_with : Text → Text → Bool
starts_with text [] = true
starts_with [] (b ∷ prefix) = false
starts_with (a ∷ text) (b ∷ prefix) = a == b && starts_with text prefix

-- `part in text`
abbrev pub has_part : Text → Text → Bool
has_part part [] = starts_with [] part
has_part part (c ∷ text) = starts_with (c ∷ text) part || has_part part text

pub text_eq_refl : (s : Text) → text_eq s s ≡ true
text_eq_refl [] = refl
text_eq_refl (a ∷ s) = ground (arith, text_eq_refl s)

pub eq_of_text_eq : (s t : Text) → text_eq s t ≡ true → s ≡ t
eq_of_text_eq [] [] h = refl
eq_of_text_eq [] (b ∷ t) h = ground arith
eq_of_text_eq (a ∷ s) [] h = ground arith
eq_of_text_eq (a ∷ s) (b ∷ t) h = ground (arith, eq_of_text_eq s t)

lower_code : ℕ → ℕ
lower_code c = if leb b'A' c && leb c b'Z' then c + 32 else c

upper_code : ℕ → ℕ
upper_code c = if leb b'a' c && leb c b'z' then c - 32 else c

-- `s.lower()` and `s.upper()`.
unfoldable pub lower : Text → Text
unfolding lower_code
lower s = map lower_code s

unfoldable pub upper : Text → Text
unfolding upper_code
upper s = map upper_code s

-- Lowercasing a second time changes nothing.
pub lower_idem : (s : Text) → lower (lower s) ≡ lower s
unfolding lower
lower_idem [] = refl
lower_idem (c ∷ s) = ground (arith, lower_idem s)

pub upper-append : (s t : Text) → upper (s ++ t) ≡ upper s ++ upper t
unfolding upper
upper-append s t = map-append upper_code s t

-- Text below the small letters has none of them.
pub upper_of_le : (s : Text) → All (λ c. c ≤ b'Z') s → upper s ≡ s
unfolding upper
upper_of_le [] h = refl
upper_of_le (c ∷ s) h = ground (arith, h.0, upper_of_le s h.1)

pub upper-lower : (s : Text) → upper (lower s) ≡ upper s
unfolding upper lower
upper-lower [] = refl
upper-lower (c ∷ s) = ground (arith, upper-lower s)
