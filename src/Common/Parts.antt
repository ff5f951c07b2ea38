-- ===== src/Common/Parts.antt =====
-- Parts of a text at a character: `s.split(c, 1)[0]`, `s.partition(c)[2]`, `s.startswith(p)`.
use Prim.Native.Char.{code}
use Prim.Native.String.{String, [], ◌∷◌}
use Prim.Native.Nat.{ℕ, suc}
use mathlib.Core.Bool.{Bool, true, false}
use houba.Common.Tests.{◌==◌, if◌then◌else◌}

-- `chr(c) in s`
unfoldable pub has_code : ℕ → String → Bool
has_code c [] = false
has_code c (d ∷ s) = let later = has_code c s in if code d == c then true else later

-- The text before the first such character, all of it if there is none.
unfoldable pub before : ℕ → String → String
before c [] = []
before c (d ∷ s) = let rest = before c s in if code d == c then [] else d ∷ rest

-- The text after the first such character, empty if there is none.
unfoldable pub after : ℕ → String → String
after c [] = []
after c (d ∷ s) = let rest = after c s in if code d == c then s else rest

-- The text before the last such character, all of it if there is none.
unfoldable pub before_last : ℕ → String → String
unfolding has_code
before_last c [] = []
before_last c (d ∷ s) =
    let rest = before_last c s in
    if has_code c s then d ∷ rest else if code d == c then [] else d ∷ s

-- The text after the last such character, all of it if there is none.
unfoldable pub after_last : ℕ → String → String
unfolding has_code
after_last c [] = []
after_last c (d ∷ s) =
    let rest = after_last c s in if has_code c s then rest else if code d == c then s else d ∷ s

-- `s.startswith(p)`
unfoldable pub starts_with : String → String → Bool
starts_with [] s = true
starts_with (c ∷ p) [] = false
starts_with (c ∷ p) (d ∷ s) = let rest = starts_with p s in if code c == code d then rest else false

-- `len(s)`
unfoldable pub text_length : String → ℕ
text_length [] = 0
text_length (c ∷ s) = suc (text_length s)
