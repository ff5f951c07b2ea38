-- ===== src/Scan/Refs.antt =====
-- knock/domain/scan/refs.py: references of images, taken apart.
use Prim.Native.Char.{code}
use houba.Common.{
  ℕ, zero, suc, String, Bool, true, false, not, ◌&&◌, ◌||◌, Option, none, some, leb, ◌==◌,
  if◌then◌else◌,
}
use houba.Common.Keys.{◌⊕◌}
use houba.Common.Parts.{has_code, before, before_last, after_last}
use houba.Common.Text.{◌==◌ as same_text}

abbrev pub is_lower_hex : ℕ → Bool
is_lower_hex c = leb b'0' c && leb c b'9' || leb b'a' c && leb c b'f'

-- `[0-9a-f]{n}\Z`
unfoldable pub all_hex : ℕ → String → Bool
all_hex zero String.[] = true
all_hex zero (String.◌∷◌ c s) = false
all_hex (suc n) String.[] = false
all_hex (suc n) (String.◌∷◌ c s) = let rest = all_hex n s in is_lower_hex (code c) && rest

-- `sha256-` and what follows it, for a text that starts so.
unfoldable pub strip_prefix : String → String → Option String
strip_prefix String.[] s = some s
strip_prefix (String.◌∷◌ c p) String.[] = none
strip_prefix (String.◌∷◌ c p) (String.◌∷◌ d s) =
    let rest = strip_prefix p s in if code c == code d then rest else none

abbrev pub is_digest : Option String → Bool
is_digest none = false
is_digest (some hex) = all_hex 64 hex

-- `\Asha256-[0-9a-f]{64}\Z`
unfoldable pub is_referrers_fallback_tag : String → Bool
unfolding all_hex strip_prefix
is_referrers_fallback_tag tag = is_digest (strip_prefix "sha256-" tag)

-- `colon > slash`: a colon that no slash follows.
unfoldable pub pin_to_digest : String → String → String
unfolding before before_last after_last has_code
pin_to_digest ref digest =
    let base = before b'@' ref in
    (if has_code b':' (after_last b'/' base) then before_last b':' base else base) ⊕ ("@" ⊕ digest)

unfoldable pub registry_host : String → Option String
unfolding has_code before
registry_host ref =
    let head = before b'/' ref in
    if not (has_code b'/' ref)
    then none
    else if has_code b'.' head || has_code b':' head || same_text head "localhost"
    then some head
    else none
