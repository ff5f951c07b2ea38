-- ===== src/Collision.antt =====
-- knock/domain/collision.py: two writers for one alias, or for one destination repository.
pub mod Aliases
pub mod Owners
use houba.Common.{ℕ, String, Bool, Option, none, some, List, [], ◌∷◌, length, ltb, if◌then◌else◌}
use houba.Common.Dict.{Dict, get, put, has, values}
use houba.Common.Eq.{string_eq, pair_eq, add}
use houba.Errors.{Result, ok, raise, policy_validation_error}
use houba.Session.{Done}

pub record AliasTarget : Type 0 where
  pub dest_repo : String
  pub alias : String
  pub target : String

abbrev pub key_of : AliasTarget → String × String
key_of e = (e.dest_repo, e.alias)

-- The loop of `detect_alias_collisions`, with the aliases seen so far.
unfoldable pub detect_from : Dict (String × String) String → List AliasTarget → Result Done
unfolding has put
detect_from seen [] = ok tt
detect_from seen (e ∷ entries) =
    let rest = detect_from (put (key_of e) e.target seen) entries in
    if has (key_of e) seen then raise policy_validation_error else rest

unfoldable pub detect_alias_collisions : List AliasTarget → Result Done
unfolding detect_from
detect_alias_collisions entries = detect_from [] entries

abbrev pub or_new : Option (List String) → List String
or_new none = []
or_new (some policies) = policies

-- `by_repo.setdefault(repo, set()).add(policy)`
unfoldable pub by_repo :
    List (String × String) → Dict String (List String) → Dict String (List String)
unfolding get put add
by_repo [] d = d
by_repo ((repo, policy) ∷ owners) d = by_repo owners (put repo (add policy (or_new (get repo d))) d)

-- The loop over `by_repo.items()`.
unfoldable pub check_single : List (List String) → Result Done
check_single [] = ok tt
check_single (policies ∷ rest) =
    let later = check_single rest in
    if ltb 1 (length policies) then raise policy_validation_error else later

unfoldable pub detect_dest_repo_collisions : List (String × String) → Result Done
unfolding by_repo check_single
detect_dest_repo_collisions owners = check_single (values (by_repo owners []))
