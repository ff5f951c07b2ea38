-- ===== src/Packaging/Members.antt =====
-- What `posixpath.normpath` makes of a path that knock/domain/packaging.py lets through: names of
-- files under the root, each component a plain name.
use houba.Common.{
  String, ◌≡◌, refl, sym, subst, ◌⊎◌, inl, inr, true, false, ◌||◌, none, List, [], ◌∷◌, ◌++◌, All,
  arith, Bool-cases, ◌==◌ as nat_eq,
}
use Prim.Native.Char.{code}
use houba.Common.Chars.{is_empty, split, prepend_head}
use houba.Common.Keys.{◌⊕◌, join_by}
use houba.Common.Parts.{has_code, starts_with}
use houba.Common.Text.{◌==◌, eq_iff}
use text.Mathlib.TextLemmas.{cons-append, nil-append, append_assoc}
use houba.Packaging.{
  last_is_parent, pop_last, is_nil, normal_step, normal_comps, initial_slashes, or_dot, normpath,
  escape_reason,
}

-- A component without a separator, as the split gives it.
abbrev IsClear : String → Type 0
IsClear c = (has_code b'/' c ≡ false) × (has_code 92 c ≡ false)

-- The name of a file or a folder: not empty, `.` or `..`, and without a slash or a backslash.
abbrev pub IsPlain : String → Type 0
IsPlain c =
    (is_empty c ≡ false)
    × ((c == ".") ≡ false)
    × ((c == "..") ≡ false)
    × (has_code b'/' c ≡ false)
    × (has_code 92 c ≡ false)

-- Plain names, joined by slashes: no absolute path, and no step up.
abbrev pub IsMember : String → Type 0
IsMember path =
    (first : String) × (names : List String) × All IsPlain (first ∷ names)
    × (path ≡ join_by "/" (first ∷ names))

prepend-IsClear :
    (c : _) (parts : List String)
    → nat_eq (code c) b'/' ≡ false
    → nat_eq (code c) 92 ≡ false
    → All IsClear parts
    → All IsClear (prepend_head (λ x. String.◌∷◌ c x) parts)
unfolding has_code
prepend-IsClear c [] h k each = tt
prepend-IsClear c (x ∷ parts) h k each = ((ground arith, ground arith), each.1)

split-IsClear : (s : String) → has_code 92 s ≡ false → All IsClear (split b'/' s)
unfolding split has_code
split-IsClear String.[] h = ((refl, refl), tt)
split-IsClear (String.◌∷◌ c s) h = elim (Bool-cases (nat_eq (code c) b'/')) [
  | inl e ↦ rw e ((refl, refl), split-IsClear s (ground arith))
  | inr e ↦
      rw e (prepend-IsClear c (split b'/' s) e (ground arith) (split-IsClear s (ground arith)))
]

-- Steps up first, then plain names.
IsNormal : List String → Type 0
IsNormal [] = Unit
IsNormal (c ∷ comps) = (IsPlain c × All IsPlain comps) ⊎ (((c == "..") ≡ true) × IsNormal comps)

All-append :
    (comps : List String) (c : String)
    → All IsPlain comps
    → IsPlain c
    → All IsPlain (comps ++ c ∷ [])
All-append [] c h k = (k, tt)
All-append (d ∷ comps) c h k = (h.0, All-append comps c h.1 k)

plain-appended :
    (comps : List String) (c : String) → IsNormal comps → IsPlain c → IsNormal (comps ++ c ∷ [])
unfolding IsNormal
plain-appended [] c h k = inl (k, tt)
plain-appended (d ∷ comps) c (inl h) k = inl (h.0, All-append comps c h.1 k)
plain-appended (d ∷ comps) c (inr h) k = inr (h.0, plain-appended comps c h.1 k)

plain-last :
    (c : String) (comps : List String)
    → All IsPlain (c ∷ comps)
    → last_is_parent (c ∷ comps) ≡ false
unfolding last_is_parent
plain-last c [] h = h.0.2
plain-last c (d ∷ comps) h = plain-last d comps h.1

parent-appended :
    (comps : List String) (c : String)
    → IsNormal comps
    → (is_nil comps || last_is_parent comps) ≡ true
    → (c == "..") ≡ true
    → IsNormal (comps ++ c ∷ [])
unfolding IsNormal last_is_parent
parent-appended [] c h k e = inr (e, tt)
parent-appended (d ∷ comps) c (inl h) k e = ground (arith, plain-last d comps h)
parent-appended (d ∷ []) c (inr h) k e = inr (h.0, inr (e, tt))
parent-appended (d ∷ f ∷ comps) c (inr h) k e = inr (h.0, parent-appended (f ∷ comps) c h.1 k e)

All-pop : (comps : List String) → All IsPlain comps → All IsPlain (pop_last comps)
unfolding pop_last
All-pop [] h = tt
All-pop (c ∷ []) h = tt
All-pop (c ∷ d ∷ comps) h = (h.0, All-pop (d ∷ comps) h.1)

pop-IsNormal : (comps : List String) → IsNormal comps → IsNormal (pop_last comps)
unfolding pop_last IsNormal
pop-IsNormal [] h = tt
pop-IsNormal (c ∷ []) h = tt
pop-IsNormal (c ∷ d ∷ comps) (inl h) = inl (h.0, All-pop (d ∷ comps) h.1)
pop-IsNormal (c ∷ d ∷ comps) (inr h) = inr (h.0, pop-IsNormal (d ∷ comps) h.1)

step-IsNormal :
    (comps : List String) (c : String)
    → IsNormal comps
    → IsClear c
    → IsNormal (normal_step false comps c)
unfolding normal_step
step-IsNormal comps c h k = elim (Bool-cases (is_empty c || c == ".")) [
  | inl e ↦ rw e h
  | inr e ↦ elim (Bool-cases (c == "..")) [
    | inr f ↦ rw (e, f) (plain-appended comps c h (ground (arith), ground (arith), f, k.0, k.1))
    | inl f ↦ elim (Bool-cases (is_nil comps || last_is_parent comps)) [
      | inl g ↦ rw (e, f, g) (parent-appended comps c h g f)
      | inr g ↦ rw (e, f, g) (pop-IsNormal comps h)
    ]
  ]
]

normal_comps-IsNormal :
    (new_comps comps : List String)
    → IsNormal new_comps
    → All IsClear comps
    → IsNormal (normal_comps false new_comps comps)
unfolding normal_comps
normal_comps-IsNormal new_comps [] h k = h
normal_comps-IsNormal new_comps (c ∷ comps) h k =
    normal_comps-IsNormal (normal_step false new_comps c) comps (step-IsNormal new_comps c h k.0)
      k.1

-- What `_escape_reason` has tested when it finds no reason.
escape_reason_inversion :
    (path : String)
    → escape_reason path ≡ none
    → (has_code 92 path ≡ false)
      × (starts_with "/" path ≡ false)
      × ((normpath path == "..") ≡ false)
      × (starts_with "../" (normpath path) ≡ false)
      × ((normpath path == ".") ≡ false)
unfolding escape_reason
escape_reason_inversion path h =
    (ground arith, ground arith, ground arith, ground arith, ground arith)

initial_slashes-relative :
    (path : String) → starts_with "/" path ≡ false → initial_slashes path ≡ ""
unfolding initial_slashes starts_with
initial_slashes-relative String.[] h = refl
initial_slashes-relative (String.◌∷◌ c s) h = ground arith

-- A text that starts with a character.
append-is_empty : (a b : String) → is_empty a ≡ false → is_empty (a ⊕ b) ≡ false
append-is_empty String.[] b h = cc
append-is_empty (String.◌∷◌ c a) b h = rw (cons-append c a b) refl

join_by-is_empty :
    (first : String) (names : List String)
    → is_empty first ≡ false
    → is_empty (join_by "/" (first ∷ names)) ≡ false
join_by-is_empty first [] h = h
join_by-is_empty first (n ∷ names) h = append-is_empty first _ h

starts_with-append : (p s : String) → starts_with p (p ⊕ s) ≡ true
unfolding starts_with
starts_with-append String.[] s = refl
starts_with-append (String.◌∷◌ c p) s =
    rw (cons-append c p s) (ground (arith, starts_with-append p s))

-- Steps up at the front are seen in the text.
IsSeen : String → Type 0
IsSeen text = (or_dot text == ".." || starts_with "../" (or_dot text)) ≡ true

join_by-parent : (names : List String) → IsSeen (join_by "/" (".." ∷ names))
unfolding IsSeen
join_by-parent [] = refl
join_by-parent (n ∷ names) =
    let under : starts_with "../" (".." ⊕ ("/" ⊕ join_by "/" (n ∷ names))) ≡ true =
      subst (λ t. starts_with "../" t ≡ true) (append_assoc ".." "/" (join_by "/" (n ∷ names)))
        (starts_with-append "../" (join_by "/" (n ∷ names))) in
    rw (append-is_empty ".." ("/" ⊕ join_by "/" (n ∷ names)) refl) (ground (arith, under))

joined-IsMember :
    (comps : List String)
    → IsNormal comps
    → (or_dot (join_by "/" comps) == "..") ≡ false
    → starts_with "../" (or_dot (join_by "/" comps)) ≡ false
    → (or_dot (join_by "/" comps) == ".") ≡ false
    → IsMember (or_dot (join_by "/" comps))
unfolding IsNormal IsSeen
joined-IsMember [] n up under dot = cc
joined-IsMember (c ∷ comps) (inl plain) up under dot =
    (c, comps, plain, rw (join_by-is_empty c comps plain.0.0) refl)
joined-IsMember (c ∷ comps) (inr parent) up under dot =
    let same : ".." ≡ c = sym ((eq_iff c "..").0 parent.0) in
    let seen = subst (λ d. IsSeen (join_by "/" (d ∷ comps))) same (join_by-parent comps) in
    ground (arith, seen, up, under)

normpath-relative :
    (path : String)
    → is_empty path ≡ false
    → starts_with "/" path ≡ false
    → normpath path ≡ or_dot (join_by "/" (normal_comps false [] (split b'/' path)))
unfolding normpath
normpath-relative path h k =
    rw
      (
        h,
        k,
        initial_slashes-relative path k,
        nil-append (join_by "/" (normal_comps false [] (split b'/' path))),
      )
      refl

-- The empty path is `.`.
nonempty : (path : String) → (normpath path == ".") ≡ false → is_empty path ≡ false
unfolding normpath
nonempty String.[] h = cc
nonempty (String.◌∷◌ c s) h = refl

pub normpath-IsMember : (path : String) → escape_reason path ≡ none → IsMember (normpath path)
unfolding IsNormal
normpath-IsMember path h =
    let (clear, relative, up, under, dot) = escape_reason_inversion path h in
    let normal = normal_comps-IsNormal [] (split b'/' path) tt (split-IsClear path clear) in
    let same = normpath-relative path (nonempty path dot) relative in
    subst IsMember (sym same) (
      joined-IsMember _ normal (subst (λ t. (t == "..") ≡ false) same up)
        (subst (λ t. starts_with "../" t ≡ false) same under)
        (subst (λ t. (t == ".") ≡ false) same dot))
