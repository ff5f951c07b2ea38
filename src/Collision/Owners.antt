-- ===== src/Collision/Owners.antt =====
-- When two policies write one repository.
use houba.Common.{
  String, ◌≡◌, refl, sym, subst, ap, ◌∙◌, ◌↔◌, inl, inr, Bool-cases, Bool, true, false, not, ◌||◌,
  Option, none, some, List, [], ◌∷◌, ◌++◌, any, Option-cases, length, ltb, arith, if◌then◌else◌,
}
use houba.Common.Dict.{Dict, get, put, put-IsDict, IsDict, values}
use houba.Common.Values.{get-put_by, any-of_get, get-of_any}
use houba.Common.Eq.{elem, add, elem-add, elem-append, IsDistinct, string_eq, pair_eq, beq_symm}
use houba.Errors.{is_ok}
use houba.Collision.{or_new, by_repo, check_single, detect_dest_repo_collisions}

-- The policies that claim a repository, one after another.
abbrev policies_from : String → List (String × String) → Option (List String) → Option (List String)
policies_from r [] found = found
policies_from r (o ∷ owners) found =
    policies_from r owners (if string_eq.beq o.0 r then some (add o.1 (or_new found)) else found)

by_repo-get :
    (r : String) (owners : List (String × String)) (d : Dict String (List String))
    → get r (by_repo owners d) ≡ policies_from r owners (get r d)
unfolding by_repo
by_repo-get r [] d = refl
by_repo-get r ((repo, policy) ∷ owners) d =
    by_repo-get r owners (put repo (add policy (or_new (get repo d))) d)
    ∙ ap (policies_from r owners) (get-put_by (λ found. add policy (or_new found)) repo r d)

by_repo-IsDict :
    (owners : List (String × String)) (d : Dict String (List String))
    → IsDict d
    → IsDict (by_repo owners d)
unfolding by_repo
by_repo-IsDict [] d u = u
by_repo-IsDict ((repo, policy) ∷ owners) d u = by_repo-IsDict owners _ (put-IsDict repo _ d u)

-- A policy is among them exactly when it claims the repository.
elem-policies_from :
    (r p : String) (owners : List (String × String)) (found : Option (List String))
    → elem p (or_new (policies_from r owners found)) ≡ (elem (r, p) owners || elem p (or_new found))
unfolding elem
elem-policies_from r p [] found = refl
elem-policies_from r p (o ∷ owners) found = elim (Bool-cases (string_eq.beq o.0 r)) [
  | inl e ↦ rw e (
      ground (
        arith,
        elem-policies_from r p owners (some (add o.1 (or_new found))),
        elem-add o.1 p (or_new found),
      ))
  | inr e ↦ rw e (ground (arith, elem-policies_from r p owners found))
]

snoc-IsDistinct :
    (p : String) (xs : List String) → IsDistinct xs → elem p xs ≡ false → IsDistinct (xs ++ p ∷ [])
unfolding elem
snoc-IsDistinct p [] h n = (refl, tt)
snoc-IsDistinct p (x ∷ xs) h n = (
  ground (arith, elem-append x xs (p ∷ []), beq_symm p x, h.0),
  snoc-IsDistinct p xs h.1 (ground arith),
)

add-IsDistinct : (p : String) (xs : List String) → IsDistinct xs → IsDistinct (add p xs)
unfolding add
add-IsDistinct p xs h = elim (Bool-cases (elem p xs)) [
  | inl e ↦ let same : add p xs ≡ xs = ground arith in subst IsDistinct (sym same) h
  | inr e ↦
      let longer : add p xs ≡ xs ++ p ∷ [] = ground arith in
      subst IsDistinct (sym longer) (snoc-IsDistinct p xs h e)
]

policies_from-IsDistinct :
    (r : String) (owners : List (String × String)) (found : Option (List String))
    → IsDistinct (or_new found)
    → IsDistinct (or_new (policies_from r owners found))
policies_from-IsDistinct r [] found h = h
policies_from-IsDistinct r (o ∷ owners) found h = elim (Bool-cases (string_eq.beq o.0 r)) [
  | inl e ↦ rw e (
      policies_from-IsDistinct r owners (some (add o.1 (or_new found)))
        (add-IsDistinct o.1 (or_new found) h))
  | inr e ↦ rw e (policies_from-IsDistinct r owners found h)
]

-- Two members of a list that differ make it longer than one, and a longer list has two.
two_members :
    (p q : String) (xs : List String)
    → elem p xs ≡ true
    → elem q xs ≡ true
    → string_eq.beq p q ≡ false
    → ltb 1 (length xs) ≡ true
unfolding elem
two_members p q [] h k n = cc
two_members p q (x ∷ []) h k n =
    ground (arith, string_eq.beq_iff x p, string_eq.beq_iff x q, string_eq.beq_iff p q)
two_members p q (x ∷ y ∷ xs) h k n = ground arith

-- Two policies that both stand in a list.
record IsTwo (xs : List String) : Type 0 where
  first : String
  second : String
  has_first : elem first xs ≡ true
  has_second : elem second xs ≡ true
  differ : string_eq.beq first second ≡ false

IsTwo-of_length : (xs : List String) → IsDistinct xs → ltb 1 (length xs) ≡ true → IsTwo xs
unfolding elem
IsTwo-of_length [] h k = cc
IsTwo-of_length (x ∷ []) h k = cc
IsTwo-of_length (x ∷ y ∷ xs) h k = record {
  first = x;
  second = y;
  has_first = ground (arith, string_eq.beq_iff x x);
  has_second = ground (arith, string_eq.beq_iff y y);
  differ = ground (arith, h.0, beq_symm x y);
}

abbrev is_shared : List String → Bool
is_shared xs = ltb 1 (length xs)

check_single-any :
    (sets : List (List String)) → is_ok (check_single sets) ≡ not (any is_shared sets)
unfolding check_single
check_single-any [] = refl
check_single-any (xs ∷ sets) = ground (arith, check_single-any sets)

-- A repository has one policy.
abbrev pub IsSingleOwner : List (String × String) → Type 0
IsSingleOwner owners =
    (repo p q : String) → elem (repo, p) owners ≡ true → elem (repo, q) owners ≡ true → p ≡ q

module _ (owners : List (String × String)) where
  grouped : Dict String (List String)
  unfolding by_repo
  grouped = by_repo owners []

  -- Whoever stands in the set of a repository claims it, and the reverse.
  elem-grouped : (r p : String) → elem p (or_new (get r grouped)) ≡ elem (r, p) owners
  unfolding grouped get elem
  elem-grouped r p =
      ap (λ found. elem p (or_new found)) (by_repo-get r owners [])
      ∙ ground (arith, elem-policies_from r p owners none)

  IsDict-grouped : IsDict grouped
  unfolding grouped
  IsDict-grouped = by_repo-IsDict owners [] tt

  IsDistinct-grouped : (r : String) → IsDistinct (or_new (get r grouped))
  unfolding grouped get
  IsDistinct-grouped r = rw (by_repo-get r owners []) (policies_from-IsDistinct r owners none tt)

  shared_of_two :
      (r p q : String)
      → elem (r, p) owners ≡ true
      → elem (r, q) owners ≡ true
      → string_eq.beq p q ≡ false
      → any is_shared (values grouped) ≡ true
  unfolding elem
  shared_of_two r p q h k n = elim (Option-cases (get r grouped)) [
    | inl e ↦ absurd (cc (rw e at (elem-grouped r p), h))
    | inr (xs, e) ↦
        any-of_get is_shared r xs grouped e (
          two_members p q xs ((rw e at (elem-grouped r p)) ∙ h) ((rw e at (elem-grouped r q)) ∙ k)
            n)
  ]

  two_of_shared :
      any is_shared (values grouped) ≡ true
      → (r p q : String) × (elem (r, p) owners ≡ true)
        × (elem (r, q) owners ≡ true)
        × (string_eq.beq p q ≡ false)
  two_of_shared h =
      let (r, xs, found, long) = get-of_any is_shared grouped IsDict-grouped h in
      let two = IsTwo-of_length xs (rw found at (IsDistinct-grouped r)) long in
      (
        r,
        two.first,
        two.second,
        sym (rw found at (elem-grouped r two.first)) ∙ two.has_first,
        sym (rw found at (elem-grouped r two.second)) ∙ two.has_second,
        two.differ,
      )

-- The check passes exactly when each repository is claimed by one policy only: no two policies
-- write one repository.
pub detect_dest_repo_collisions_iff :
    (owners : List (String × String))
    → (is_ok (detect_dest_repo_collisions owners) ≡ true) ↔ IsSingleOwner owners
unfolding detect_dest_repo_collisions grouped
detect_dest_repo_collisions_iff owners =
    let checked = check_single-any (values (by_repo owners [])) in
    (
      λ h repo p q claims_p claims_q. elim (Bool-cases (string_eq.beq p q)) [
        | inl same ↦ (string_eq.beq_iff p q).0 same
        | inr differ ↦
            absurd (ground (arith, checked, shared_of_two owners repo p q claims_p claims_q differ))
      ],
      λ single. elim (Bool-cases (any is_shared (values (by_repo owners [])))) [
        | inl shared ↦
            let (r, p, q, claims_p, claims_q, differ) = two_of_shared owners shared in
            absurd (ground (arith, string_eq.beq_iff p q, single r p q claims_p claims_q))
        | inr none_shared ↦ ground (arith, checked)
      ],
    )
