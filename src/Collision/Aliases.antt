-- ===== src/Collision/Aliases.antt =====
-- When an alias is written twice.
use houba.Common.{String, ◌≡◌, refl, ap, ◌∙◌, Bool, true, not, ◌&&◌, List, [], ◌∷◌, all, arith}
use houba.Common.Dict.{Dict, put, has, has-put}
use houba.Common.Eq.{elem, beq_symm, string_eq, pair_eq}
use houba.Errors.{is_ok}
use houba.Collision.{AliasTarget, key_of, detect_from, detect_alias_collisions}

-- No two entries write one alias into one repository.
abbrev pub are_distinct : List (String × String) → Bool
are_distinct [] = true
are_distinct (k ∷ ks) = not (elem k ks) && are_distinct ks

abbrev keys_of : List AliasTarget → List (String × String)
keys_of [] = []
keys_of (e ∷ entries) = key_of e ∷ keys_of entries

abbrev are_new : Dict (String × String) String → List AliasTarget → Bool
are_new seen entries = all (λ e. not (has (key_of e) seen)) entries

are_new-put :
    (k : String × String) (v : String) (seen : Dict (String × String) String)
    (entries : List AliasTarget)
    → are_new (put k v seen) entries ≡ (not (elem k (keys_of entries)) && are_new seen entries)
unfolding elem
are_new-put k v seen [] = refl
are_new-put k v seen (e ∷ entries) =
    ground (arith, has-put k (key_of e) v seen, are_new-put k v seen entries, beq_symm k (key_of e))

are_new_nil : (entries : List AliasTarget) → are_new [] entries ≡ true
unfolding has elem
are_new_nil [] = refl
are_new_nil (e ∷ entries) = are_new_nil entries

detect_from-distinct :
    (seen : Dict (String × String) String) (entries : List AliasTarget)
    → is_ok (detect_from seen entries) ≡ (are_new seen entries && are_distinct (keys_of entries))
unfolding detect_from
detect_from-distinct seen [] = refl
detect_from-distinct seen (e ∷ entries) = ground (
  arith,
  detect_from-distinct (put (key_of e) e.target seen) entries,
  are_new-put (key_of e) e.target seen entries,
)

-- The check passes exactly when no two entries write one alias into one repository.
pub detect_alias_collisions-distinct :
    (entries : List AliasTarget)
    → is_ok (detect_alias_collisions entries) ≡ are_distinct (keys_of entries)
unfolding detect_alias_collisions
detect_alias_collisions-distinct entries =
    detect_from-distinct [] entries
    ∙ ap (λ b. b && are_distinct (keys_of entries)) (are_new_nil entries)
