-- ===== src/Stamp/Keys.antt =====
-- What the blocks of a stamp write, key by key.
use Prim.Native.Char.{Char, code}
use text.Mathlib.TextLemmas.{append_assoc, nil-append, cons-append}
use houba.Common.{ℕ, String, ◌≡◌, refl, ap, sym, ◌∙◌, ◌≢◌, inl, inr, Bool-cases, false, arith}
use houba.Common.Eq.{string_eq}
use houba.Common.Keys.{◌⊕◌, suffix_eq}
use houba.Common.Text.{◌==◌}
use houba.Stamp.{base_digest_key}

-- The code of the last character, `n` for the empty text.
abbrev last_of : ℕ → String → ℕ
last_of n String.[] = n
last_of n (String.◌∷◌ c s) = last_of (code c) s

last_of-append :
    (n : ℕ) (p : String) (c : Char) (s : String)
    → last_of n (p ⊕ String.◌∷◌ c s) ≡ last_of (code c) s
last_of-append n String.[] c s = rw (nil-append (String.◌∷◌ c s)) refl
last_of-append n (String.◌∷◌ d p) c s =
    rw (cons-append d p (String.◌∷◌ c s)) (last_of-append (code d) p c s)

-- A text that ends in another character is another text.
ne_ending :
    (p : String) (c : Char) (s t : String)
    → last_of (code c) s ≢ last_of 0 t
    → string_eq.beq (p ⊕ String.◌∷◌ c s) t ≡ false
ne_ending p c s t h = elim (Bool-cases (string_eq.beq (p ⊕ String.◌∷◌ c s) t)) [
  | inl e ↦ absurd (h (sym (last_of-append 0 p c s) ∙ ap (last_of 0) ((string_eq.beq_iff _ t).0 e)))
  | inr e ↦ e
]

-- No key of the lineage block is the key of the base digest, whatever the prefix.
module _ (p : String) where
  pub type_ne_base_digest : (p ⊕ ".artifact.type" == base_digest_key) ≡ false
  type_ne_base_digest = ne_ending p "." "artifact.type" base_digest_key (omega arith)

  pub policy_ne_base_digest : (p ⊕ ".policy" == base_digest_key) ≡ false
  policy_ne_base_digest = ne_ending p "." "policy" base_digest_key (omega arith)

  pub owners_ne_base_digest : (p ⊕ ".owners" == base_digest_key) ≡ false
  owners_ne_base_digest = ne_ending p "." "owners" base_digest_key (omega arith)

  pub steps_ne_base_digest : (p ⊕ ".transform.steps" == base_digest_key) ≡ false
  steps_ne_base_digest = ne_ending p "." "transform.steps" base_digest_key (omega arith)

  pub version_ne_base_digest : (p ⊕ ".transform.version" == base_digest_key) ≡ false
  version_ne_base_digest = ne_ending p "." "transform.version" base_digest_key (omega arith)

  pub import_ne_base_digest : (p ⊕ ".import" == base_digest_key) ≡ false
  import_ne_base_digest = rw (sym (append_assoc p ".impor" "t")) (
      suffix_eq "t" (p ⊕ ".impor") "org.opencontainers.image.base.diges"
      ∙ ne_ending p "." "impor" "org.opencontainers.image.base.diges" (omega arith))

  pub variant_ne_base_digest : (p ⊕ ".variant" == base_digest_key) ≡ false
  variant_ne_base_digest = rw (sym (append_assoc p ".varian" "t")) (
      suffix_eq "t" (p ⊕ ".varian") "org.opencontainers.image.base.diges"
      ∙ ne_ending p "." "varian" "org.opencontainers.image.base.diges" (omega arith))
