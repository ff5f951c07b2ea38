-- ===== src/IsoTime/Unary.antt =====
-- A notation that meets the laws of `IsoFormat`: an instant as so many strokes, closed by a dot.
use houba.Common.{ℕ, zero, suc, String, ◌≡◌, refl, Option, none, some, false, if◌then◌else◌, ◌==◌}
use houba.Common.Chars.{is_empty}
use houba.IsoTime.{IsoFormat, replace_z}
use Prim.Native.Char.{code}

write : ℕ → String
write zero = "."
write (suc n) = String.◌∷◌ "|" (write n)

abbrev raise_by_one : Option ℕ → Option ℕ
raise_by_one none = none
raise_by_one (some n) = some (suc n)

read : String → Option ℕ
read String.[] = none
read (String.◌∷◌ c s) = let more = read s in if code c == b'|' then raise_by_one more else some 0

read-write : (n : ℕ) → read (write n) ≡ some n
unfolding read write
read-write zero = refl
read-write (suc n) = rw (read-write n)

replace_z-write : (n : ℕ) → replace_z (write n) ≡ write n
unfolding replace_z write
replace_z-write zero = refl
replace_z-write (suc n) = rw (replace_z-write n)

is_empty-write : (n : ℕ) → is_empty (write n) ≡ false
unfolding write
is_empty-write zero = refl
is_empty-write (suc n) = refl

pub strokes : IsoFormat
strokes = record {
  isoformat = write;
  fromisoformat = read;
  reads_back = read-write;
  no_z = replace_z-write;
  nonempty = is_empty-write;
}
