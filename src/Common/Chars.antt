-- ===== src/Common/Chars.antt =====
-- Texts character by character: Python's `strip`, `split` and `int` on ASCII text.
use Prim.Native.Char.{code}
use Prim.Native.String.{String, [], ◌∷◌}
use mathlib.Core.Bool.{Bool, true, false, ◌&&◌, ◌||◌}
use mathlib.Core.Option.{Option, none, some}
use mathlib.Core.List.{List}
use Prim.Native.Nat.{ℕ, ◌+◌, ◌*◌, ◌-◌}
use houba.Common.Tests.{leb, ◌==◌, if◌then◌else◌}
use houba.Common.Int.{ℤ, pos, sub_ℕ}

-- The code points of a text.
abbrev pub codes : String → List ℕ
codes [] = List.[]
codes (c ∷ s) = List.◌∷◌ (code c) (codes s)

abbrev pub is_empty : String → Bool
is_empty [] = true
is_empty (c ∷ s) = false

-- `str.isspace` of one character
abbrev pub is_space : ℕ → Bool
is_space c = c == 32 || (leb 9 c && leb c 13) || (leb 28 c && leb c 31)

abbrev pub is_digit : ℕ → Bool
is_digit c = leb b'0' c && leb c b'9'

unfoldable pub lstrip : String → String
lstrip [] = []
lstrip (c ∷ s) = let rest = lstrip s in if is_space (code c) then rest else c ∷ s

unfoldable pub rstrip : String → String
rstrip [] = []
rstrip (c ∷ s) = let rest = rstrip s in if is_empty rest && is_space (code c) then [] else c ∷ rest

-- `s.strip()`
unfoldable pub strip : String → String
unfolding lstrip rstrip
strip s = rstrip (lstrip s)

-- `s.split(sep)` for a separator of one character; `cur` is the part that is being read.
abbrev pub prepend_head : (String → String) → List String → List String
prepend_head f List.[] = List.[]
prepend_head f (List.◌∷◌ x xs) = List.◌∷◌ (f x) xs

unfoldable pub split : ℕ → String → List String
split sep [] = List.◌∷◌ [] List.[]
split sep (c ∷ s) =
    let parts = split sep s in
    if code c == sep then List.◌∷◌ [] parts else prepend_head (λ x. c ∷ x) parts

-- The digits of `int(text)`: single underscores may stand between digits. `after_digit` says
-- whether the character before is a digit.
unfoldable pub digits_from : ℕ → Bool → String → Option ℕ
digits_from n after_digit [] = if after_digit then some n else none
digits_from n after_digit (c ∷ s) =
    let more = digits_from (n * 10 + (code c - b'0')) true s in
    let gap = digits_from n false s in
    if is_digit (code c) then more else if code c == b'_' && after_digit then gap else none

abbrev signed : Bool → Option ℕ → Option ℤ
signed negative none = none
signed true (some n) = some (sub_ℕ 0 n)
signed false (some n) = some (pos n)

unfoldable pub int_of_stripped : String → Option ℤ
unfolding digits_from
int_of_stripped [] = none
int_of_stripped (c ∷ s) =
    if code c == b'-'
    then signed true (digits_from 0 false s)
    else if code c == b'+'
    then signed false (digits_from 0 false s)
    else signed false (digits_from 0 false (c ∷ s))

-- `int(text)`: `none` is a `ValueError`.
unfoldable pub int_of : String → Option ℤ
unfolding strip int_of_stripped
int_of s = int_of_stripped (strip s)
