-- ===== src/Common/Text.antt =====
-- Texts: equality, Python's order of `str` by code points, and membership in a list of names.
use Prim.Native.Char.{code}
use Prim.Native.String.{String, [], ◌∷◌}
use mathlib.Core.Path.{◌≡◌, refl}
use mathlib.Core.Bool.{Bool, true, false, ◌||◌}
use native.Mathlib.Omega.{arith}
use text.Mathlib.TextEquality.{Char-path}
use houba.Common.Tests.{ltb, ◌==◌ as nat_eq, if◌then◌else◌}
pub use text.Mathlib.Text.{◌==◌}
pub use text.Mathlib.TextEquality.{eq_iff}
pub use text.Mathlib.TextPositions.{eq_refl}

-- `s <= t`
unfoldable pub str_leb : String → String → Bool
str_leb [] t = true
str_leb (c ∷ s) [] = false
str_leb (c ∷ s) (d ∷ t) =
    if ltb (code c) (code d) then true else if nat_eq (code c) (code d) then str_leb s t else false

pub str_leb_trans : (s t u : String) → str_leb s t ≡ true → str_leb t u ≡ true → str_leb s u ≡ true
unfolding str_leb
str_leb_trans [] t u h k = refl
str_leb_trans (c ∷ s) [] u h k = cc
str_leb_trans (c ∷ s) (d ∷ t) [] h k = cc
str_leb_trans (c ∷ s) (d ∷ t) (e ∷ u) h k = ground (arith, str_leb_trans s t u)

pub str_leb_total : (s t : String) → (str_leb s t || str_leb t s) ≡ true
unfolding str_leb
str_leb_total [] t = refl
str_leb_total (c ∷ s) [] = refl
str_leb_total (c ∷ s) (d ∷ t) = ground (arith, str_leb_total s t)

pub str_leb_antisymm : (s t : String) → str_leb s t ≡ true → str_leb t s ≡ true → s ≡ t
unfolding str_leb
str_leb_antisymm [] [] h k = refl
str_leb_antisymm [] (d ∷ t) h k = cc
str_leb_antisymm (c ∷ s) [] h k = cc
str_leb_antisymm (c ∷ s) (d ∷ t) h k = ground (arith, Char-path c d, str_leb_antisymm s t)
