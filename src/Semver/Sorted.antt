-- ===== src/Semver/Sorted.antt =====
-- The order of `sort_semver`, and what it keeps.
use houba.Common.{
  ℕ, String, ◌≡◌, refl, Bool, true, false, not, ◌||◌, List, [], ◌∷◌, ◌++◌, arith, filter,
  if◌then◌else◌, is_some, ◌==◌, All, AllPairs, Bool-cases, inl, inr,
}
use houba.Common.Text.{str_leb_total, str_leb_trans}
use houba.Common.Eq.{elem, elem-append, elem-filter, string_eq}
use houba.Common.Order.{sorted_by, elem-sorted_by, sorted_by-IsSortedBy, IsSortedBy}
use houba.Semver.{
  MatchGroups, key_of_match, semver_key, SortKey, lex, key_leb, ranks, at_or_before, sort_semver,
  match_semver, SemverParts, parse_semver,
}
use mathlib.Core.Option
use mathlib.Core.Option.{Option, none, some}

lex_total : (a b : ℕ) (p q : Bool) → (p || q) ≡ true → (lex a b p || lex b a q) ≡ true
unfolding lex
lex_total a b p q h = ground arith

lex_trans :
    (a b c : ℕ) {p q r : Bool}
    → (p ≡ true → q ≡ true → r ≡ true)
    → lex a b p ≡ true
    → lex b c q ≡ true
    → lex a c r ≡ true
unfolding lex
lex_trans a b c {p} {q} {r} f h k = ground arith

key_leb_total : (a b : SortKey) → (key_leb a b || key_leb b a) ≡ true
unfolding key_leb
key_leb_total a b = lex_total a.is_non_semver b.is_non_semver _ _ (
    lex_total a.major b.major _ _ (
      lex_total a.minor b.minor _ _ (
        lex_total a.patch b.patch _ _ (
          lex_total a.prerelease_rank b.prerelease_rank _ _
            (str_leb_total a.prerelease b.prerelease)))))

key_leb_trans : (a b c : SortKey) → key_leb a b ≡ true → key_leb b c ≡ true → key_leb a c ≡ true
unfolding key_leb
key_leb_trans a b c = lex_trans a.is_non_semver b.is_non_semver c.is_non_semver (
    lex_trans a.major b.major c.major (
      lex_trans a.minor b.minor c.minor (
        lex_trans a.patch b.patch c.patch (
          lex_trans a.prerelease_rank b.prerelease_rank c.prerelease_rank
            (str_leb_trans a.prerelease b.prerelease c.prerelease)))))

pub at_or_before_total : (a b : String) → (at_or_before a b || at_or_before b a) ≡ true
unfolding at_or_before
at_or_before_total a b = key_leb_total (semver_key a) (semver_key b)

pub at_or_before_trans :
    (a b c : String) → at_or_before a b ≡ true → at_or_before b c ≡ true → at_or_before a c ≡ true
unfolding at_or_before
at_or_before_trans a b c = key_leb_trans (semver_key a) (semver_key b) (semver_key c)

-- A tag is a version or it is none, and all that is none has one key.
key_of_match-ranks :
    (m : Option MatchGroups)
    → ((key_of_match m).is_non_semver == 1) ≡ not ((key_of_match m).is_non_semver == 0)
unfolding key_of_match
key_of_match-ranks none = refl
key_of_match-ranks (some m) = refl

pub ranks-exclusive : (v : String) → ranks 1 v ≡ not (ranks 0 v)
unfolding ranks semver_key
ranks-exclusive v = key_of_match-ranks (match_semver v)

key_of_match-end :
    (m n : Option MatchGroups)
    → ((key_of_match n).is_non_semver == 1) ≡ true
    → key_leb (key_of_match m) (key_of_match n) ≡ true
unfolding key_of_match key_leb lex
key_of_match-end none none h = refl
key_of_match-end (some m) none h = refl
key_of_match-end none (some n) h = ground arith
key_of_match-end (some m) (some n) h = ground arith

-- Whatever is no version goes last.
at_or_before-end : (a b : String) → ranks 1 b ≡ true → at_or_before a b ≡ true
unfolding ranks at_or_before semver_key
at_or_before-end a b h = key_of_match-end (match_semver a) (match_semver b) h

AllPairs-append {ℓ} :
    {A : Type ℓ} (R : A → A → Bool) (P : A → Bool) (xs ys : List A)
    → ((x y : A) → P y ≡ true → R x y ≡ true)
    → AllPairs (λ x y. R x y ≡ true) xs
    → All (λ y. P y ≡ true) ys
    → AllPairs (λ x y. R x y ≡ true) (xs ++ ys)
AllPairs-append R P [] ys f h k = all_end ys k
  where
    above : (x : _) (ys : List _) → All (λ y. P y ≡ true) ys → All (λ y. R x y ≡ true) ys
    above x [] k = tt
    above x (y ∷ ys) k = (f x y k.0, above x ys k.1)

    all_end : (ys : List _) → All (λ y. P y ≡ true) ys → AllPairs (λ x y. R x y ≡ true) ys
    all_end [] k = tt
    all_end (y ∷ ys) k = (above y ys k.1, all_end ys k.1)
AllPairs-append R P (x ∷ xs) ys f h k = (joined xs h.0, AllPairs-append R P xs ys f h.1 k)
  where
    below : (ys : List _) → All (λ y. P y ≡ true) ys → All (λ y. R x y ≡ true) ys
    below [] k = tt
    below (y ∷ ys) k = (f x y k.0, below ys k.1)

    joined : (xs : List _) → All (λ y. R x y ≡ true) xs → All (λ y. R x y ≡ true) (xs ++ ys)
    joined [] h = below ys k
    joined (z ∷ zs) h = (h.0, joined zs h.1)

filter-All {ℓ} : {A : Type ℓ} (p : A → Bool) (xs : List A) → All (λ x. p x ≡ true) (filter p xs)
filter-All p [] = tt
filter-All p (x ∷ xs) = elim (Bool-cases (p x)) [
  | inl e ↦ rw e (e, filter-All p xs)
  | inr e ↦ rw e (filter-All p xs)
]

-- A sort by version has the tags that it was given and no other.
pub elem-sort_semver :
    (reverse : Bool) (k : String) (values : List String)
    → elem k (sort_semver reverse values) ≡ elem k values
unfolding sort_semver
elem-sort_semver reverse k values = ground (
  arith,
  elem-append k (sorted_by (order reverse) (filter (ranks 0) values)) (filter (ranks 1) values),
  elem-sorted_by (order reverse) k (filter (ranks 0) values),
  elem-filter k (ranks 0) values,
  elem-filter k (ranks 1) values,
  ranks-exclusive k,
)
  where
    order : Bool → String → String → Bool
    order reverse a b = if reverse then at_or_before b a else at_or_before a b

-- Every tag of a forward sort is at or before all later ones in the order of the versions, in
-- which a pre-release precedes its release and everything that is no version comes last.
pub sort_semver-IsSortedBy :
    (values : List String) → IsSortedBy at_or_before (sort_semver false values)
unfolding sort_semver
sort_semver-IsSortedBy values =
    AllPairs-append at_or_before (ranks 1) (sorted_by at_or_before (filter (ranks 0) values))
      (filter (ranks 1) values) at_or_before-end
      (sorted_by-IsSortedBy at_or_before at_or_before_total at_or_before_trans
        (filter (ranks 0) values))
      (filter-All (ranks 1) values)

is_some_parse :
    (m : Option MatchGroups)
    → ((key_of_match m).is_non_semver == 0)
      ≡ is_some (
          Option.map {B = SemverParts}
            (λ g. record { major = g.major; minor = g.minor; patch = g.patch })
            m)
unfolding key_of_match
is_some_parse none = refl
is_some_parse (some m) = refl

-- A tag counts as a version in the sort exactly when its parts can be read.
pub ranks-parse_semver : (v : String) → ranks 0 v ≡ is_some (parse_semver v)
unfolding ranks semver_key parse_semver
ranks-parse_semver v = is_some_parse (match_semver v)
