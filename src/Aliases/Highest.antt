-- ===== src/Aliases/Highest.antt =====
-- Where `resolve_aliases` points an alias: at the highest of the tags that render to it.
use houba.Common.{
  String, ◌≡◌, refl, subst, ◌∙◌, inl, inr, Bool, true, false, not, ◌&&◌, ◌||◌, some, List, [], ◌∷◌,
  ◌++◌, arith, if◌then◌else◌, is_some, Bool-cases, filter, All,
}
use houba.Common.Text.{◌==◌, eq_iff, str_leb, str_leb_total, str_leb_trans}
use houba.Common.Eq.{elem, elem-append, elem-filter, string_eq}
use houba.Common.Order.{sorted_by, elem-sorted_by, sorted_by-IsSortedBy, IsSortedBy}
use houba.Semver.{ranks, at_or_before, sort_semver, parse_semver}
use houba.Semver.Sorted.{
  at_or_before_total, at_or_before_trans, ranks-exclusive, elem-sort_semver, ranks-parse_semver,
}
use houba.Aliases.{max_from, first_or_max, highest}

is_version : String → Bool
unfolding parse_semver
is_version tag = is_some (parse_semver tag)

-- `tag` is no higher than `target`: among versions by the order of the versions, in which any
-- version beats what is none, and among the rest by the text.
pub is_no_higher : String → String → Bool
unfolding is_version at_or_before
is_no_higher target tag =
    if is_version target
    then not (is_version tag) || at_or_before tag target
    else not (is_version tag) && str_leb tag target

elem-pick :
    (b : Bool) (k x y : String) (ys : List String)
    → elem k ((if b then x else y) ∷ ys) ≡ true
    → elem k (x ∷ y ∷ ys) ≡ true
unfolding elem
elem-pick true k x y ys h = ground arith
elem-pick false k x y ys h = ground arith

max_from-elem : (x : String) (xs : List String) → elem (max_from x xs) (x ∷ xs) ≡ true
unfolding max_from elem
max_from-elem x [] = ground (arith, eq_iff x x)
max_from-elem x (y ∷ ys) =
    let z : String = if str_leb y x then x else y in
    elem-pick (str_leb y x) (max_from z ys) x y ys (max_from-elem z ys)

pick-above :
    (b : Bool) (x y : String)
    → str_leb y x ≡ b
    → (str_leb x (if b then x else y) ≡ true) × (str_leb y (if b then x else y) ≡ true)
pick-above true x y h = (ground (arith, str_leb_total x x), h)
pick-above false x y h = (ground (arith, str_leb_total x y), ground (arith, str_leb_total y y))

max_from-above :
    (x : String) (xs : List String)
    → (str_leb x (max_from x xs) ≡ true) × All (λ k. str_leb k (max_from x xs) ≡ true) xs
unfolding max_from
max_from-above x [] = (ground (arith, str_leb_total x x), tt)
max_from-above x (y ∷ ys) =
    let z : String = if str_leb y x then x else y in
    let both = pick-above (str_leb y x) x y refl in
    let later = max_from-above z ys in
    (
      str_leb_trans x z (max_from z ys) both.0 later.0,
      (str_leb_trans y z (max_from z ys) both.1 later.0, later.1),
    )

All-elem :
    (p : String → Bool) (k : String) (xs : List String)
    → All (λ x. p x ≡ true) xs
    → elem k xs ≡ true
    → p k ≡ true
unfolding elem
All-elem p k [] h m = ground arith
All-elem p k (x ∷ xs) h m = elim (Bool-cases (x == k)) [
  | inl e ↦ subst (λ k. p k ≡ true) ((eq_iff x k).0 e) h.0
  | inr e ↦ All-elem p k xs h.1 (ground arith)
]

-- What the head of a sort that has the versions first points at.
first_or_max-highest :
    (versions others : List String) (tag : String) (tags : List String)
    → IsSortedBy (λ a b. at_or_before b a) versions
    → ((k : String) → elem k versions ≡ true → is_version k ≡ true)
    → ((k : String) → elem k others ≡ true → is_version k ≡ false)
    → ((k : String) → elem k (versions ++ others) ≡ elem k (tag ∷ tags))
    → (target : String) × (first_or_max (versions ++ others) (tag ∷ tags) ≡ some target)
      × (elem target (tag ∷ tags) ≡ true)
      × ((k : String) → elem k (tag ∷ tags) ≡ true → is_no_higher target k ≡ true)
unfolding first_or_max elem is_no_higher is_version
first_or_max-highest [] [] tag tags sorted v o same = ground (arith, same tag, eq_iff tag tag)
first_or_max-highest [] (y ∷ others) tag tags sorted v o same =
    let m : String = max_from tag tags in
    let found = max_from-elem tag tags in
    let first : is_version y ≡ false = o y (ground (arith, eq_iff y y)) in
    let low : is_version m ≡ false = o m (same m ∙ found) in
    (
      m,
      rw first refl,
      found,
      λ k h.
          let below : str_leb k m ≡ true =
            All-elem (λ k. str_leb k m) k (tag ∷ tags) (max_from-above tag tags) h in
          ground (arith, o k (same k ∙ h)),
    )
first_or_max-highest (x ∷ versions) others tag tags sorted v o same =
    let first : is_version x ≡ true = v x (ground (arith, eq_iff x x)) in
    (
      x,
      rw first refl,
      ground (arith, same x, eq_iff x x),
      λ k h. elim (Bool-cases (x == k)) [
        | inl e ↦ ground (arith, at_or_before_total k k, eq_iff x k)
        | inr e ↦ elim (Bool-cases (elem k versions)) [
          | inl c ↦
              let below : at_or_before k x ≡ true =
                All-elem (λ k. at_or_before k x) k versions sorted.0 c in
              ground arith
          | inr c ↦ ground (arith, o k, same k, elem-append k versions others)
        ]
      ],
    )

-- Of the tags of a group, one is chosen that no other one beats, so the first tag of the sort is
-- never looked for in vain: a version that no version follows if the group has versions, else the
-- last by text.
pub highest-is_no_higher :
    (tag : String) (tags : List String)
    → (target : String) × (highest (tag ∷ tags) ≡ some target)
      × (elem target (tag ∷ tags) ≡ true)
      × ((k : String) → elem k (tag ∷ tags) ≡ true → is_no_higher target k ≡ true)
unfolding highest sort_semver is_version
highest-is_no_higher tag tags =
    let sem = filter (ranks 0) (tag ∷ tags) in
    let oth = filter (ranks 1) (tag ∷ tags) in
    first_or_max-highest (sorted_by (λ a b. at_or_before b a) sem) oth tag tags
      (sorted_by-IsSortedBy (λ a b. at_or_before b a) (λ a b. at_or_before_total b a)
        (λ a b c h k. at_or_before_trans c b a k h) sem)
      (λ k h. ground (
        arith,
        elem-sorted_by (λ a b. at_or_before b a) k sem,
        elem-filter k (ranks 0) (tag ∷ tags),
        ranks-parse_semver k,
      ))
      (λ k h.
        ground
          (arith, elem-filter k (ranks 1) (tag ∷ tags), ranks-exclusive k, ranks-parse_semver k))
      (λ k. elem-sort_semver true k (tag ∷ tags))
