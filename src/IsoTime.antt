-- ===== src/IsoTime.antt =====
-- Python's `datetime.isoformat` and `datetime.fromisoformat` for aware instants, given by the
-- standard library: an instant is a number of microseconds.
pub mod Unary
use houba.Common.{ℕ, String, ◌≡◌, Option, some, false, Bool, if◌then◌else◌, ◌==◌}
use houba.Common.Chars.{is_empty}
use Prim.Native.Char.{code}
use Prim.Native.String

-- `value.replace("Z", "+00:00")`
unfoldable pub replace_z : String → String
replace_z String.[] = String.[]
replace_z (String.◌∷◌ c s) =
    let rest = replace_z s in
    if code c == b'Z' then String.◌++◌ "+00:00" rest else String.◌∷◌ c rest

pub record IsoFormat : Type 0 where
  pub isoformat : ℕ → String
  -- `none` is a `ValueError`.
  pub fromisoformat : String → Option ℕ
  -- A text that `isoformat` writes reads back, has no letter Z and is not empty.
  pub reads_back : (t : ℕ) → fromisoformat (isoformat t) ≡ some t
  pub no_z : (t : ℕ) → replace_z (isoformat t) ≡ isoformat t
  pub nonempty : (t : ℕ) → is_empty (isoformat t) ≡ false
