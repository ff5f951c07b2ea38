-- ===== src/Config/Match.antt =====
-- `match_registry_by_host` of knock/config.py: the roster entry that serves a reference.
use houba.Common.{
  String, Bool, true, false, ◌&&◌, ◌||◌, ◌≡◌, refl, Option, none, some, List, [], ◌∷◌, any, All,
  leb, ltb, if◌then◌else◌, arith, Bool-cases, inl, inr,
}
use houba.Common.Chars.{is_empty}
use houba.Common.Keys.{◌⊕◌}
use houba.Common.Order.{sorted_by, any-sorted_by, sorted_by-IsSortedBy, IsSortedBy}
use houba.Common.Parts.{starts_with, text_length}
use houba.Common.Text.{◌==◌}
use houba.Config.{RegistryConfig, Roster, registry_host, path_prefix}
use houba.Scan.Refs.{registry_host as host_of}

abbrev pub Entry : Type 0
Entry = String × RegistryConfig

-- The tests of the loop: the host, and the namespace where the entry has one.
unfoldable pub is_serving : String → String → Entry → Bool
is_serving host ref e =
    (registry_host e.1 == host) && (is_empty (path_prefix e.1) || starts_with (e.1.host ⊕ "/") ref)

-- `key=lambda kv: -len(kv[1].host)`
abbrev pub at_least_as_specific : Entry → Entry → Bool
at_least_as_specific a b = leb (text_length b.1.host) (text_length a.1.host)

unfoldable pub first_serving : String → String → List Entry → Option Entry
first_serving host ref [] = none
first_serving host ref (e ∷ entries) =
    let later = first_serving host ref entries in if is_serving host ref e then some e else later

abbrev match_on : Option String → String → Roster → Option Entry
match_on none ref roster = none
match_on (some host) ref roster = first_serving host ref (sorted_by at_least_as_specific roster)

unfoldable pub match_registry_by_host : String → Roster → Option Entry
unfolding first_serving
match_registry_by_host ref roster = match_on (host_of ref) ref roster

-- The entries that serve a reference; one without a host is served by none.
abbrev serves_on : Option String → String → Entry → Bool
serves_on none ref e = false
serves_on (some host) ref e = is_serving host ref e

unfoldable pub serves : String → Entry → Bool
serves ref e = serves_on (host_of ref) ref e

abbrev is_longer : Entry → Entry → Bool
is_longer found e = ltb (text_length found.1.host) (text_length e.1.host)

-- Nothing serves it, or the entry does and no entry that does has a longer host.
abbrev pub IsMostSpecific : (Entry → Bool) → Roster → Option Entry → Type 0
IsMostSpecific served roster none = any served roster ≡ false
IsMostSpecific served roster (some found) =
    (served found ≡ true) × (any (λ e. served e && is_longer found e) roster ≡ false)

none_longer :
    (served : Entry → Bool) (found : Entry) (entries : List Entry)
    → All (λ e. at_least_as_specific found e ≡ true) entries
    → any (λ e. served e && is_longer found e) entries ≡ false
none_longer served found [] h = refl
none_longer served found (e ∷ entries) h = ground (arith, none_longer served found entries h.1)

skipped :
    (served : Entry → Bool) (e : Entry) (entries : List Entry) (o : Option Entry)
    → served e ≡ false
    → IsMostSpecific served entries o
    → IsMostSpecific served (e ∷ entries) o
skipped served e entries none u h = ground arith
skipped served e entries (some found) u h = (h.0, ground arith)

first_serving-IsMostSpecific :
    (host ref : String) (entries : List Entry)
    → IsSortedBy at_least_as_specific entries
    → IsMostSpecific (is_serving host ref) entries (first_serving host ref entries)
unfolding first_serving
first_serving-IsMostSpecific host ref [] h = refl
first_serving-IsMostSpecific host ref (e ∷ entries) h = elim (Bool-cases (is_serving host ref e)) [
  | inl y ↦ rw y (y, none_longer (is_serving host ref) e (e ∷ entries) (ground (arith), h.0))
  | inr u ↦ rw u (
      skipped (is_serving host ref) e entries _ u
        (first_serving-IsMostSpecific host ref entries h.1))
]

unsorted :
    (served : Entry → Bool) (roster : Roster) (o : Option Entry)
    → IsMostSpecific served (sorted_by at_least_as_specific roster) o
    → IsMostSpecific served roster o
unsorted served roster none h = rw (← any-sorted_by at_least_as_specific served roster) h
unsorted served roster (some found) h =
    (h.0, rw (← any-sorted_by at_least_as_specific (λ e. served e && is_longer found e) roster) h.1)

none_served : (ref : String) (roster : Roster) → any (λ e. false) roster ≡ false
none_served ref [] = refl
none_served ref (e ∷ roster) = none_served ref roster

matched :
    (host : Option String) (ref : String) (roster : Roster)
    → IsMostSpecific (serves_on host ref) roster (match_on host ref roster)
matched none ref roster = none_served ref roster
matched (some host) ref roster = unsorted _ roster _ (
    first_serving-IsMostSpecific host ref _ (
      sorted_by-IsSortedBy at_least_as_specific (λ a b. ground arith) (λ a b c h k. ground arith)
        roster))

-- A reference is matched by the entry of the roster that serves it with the longest host, so that
-- an entry with a namespace wins over a bare one; there is no match only where no entry serves it.
pub match_registry_by_host-IsMostSpecific :
    (ref : String) (roster : Roster)
    → IsMostSpecific (serves ref) roster (match_registry_by_host ref roster)
unfolding match_registry_by_host serves
match_registry_by_host-IsMostSpecific ref roster = matched (host_of ref) ref roster
