-- ===== src/Scan/Gc/Groups.antt =====
-- What the grouping by tool and format amounts to.
use houba.Common.{
  ℕ, String, ◌≡◌, refl, sym, ap, ◌∙◌, ◌↔◌, Bool, true, Option, none, some, List, [], ◌∷◌, arith,
  any, if◌then◌else◌,
}
use houba.Common.Int.{ℤ}
use houba.Common.Dict.{Dict, get, put, put-IsDict, IsDict, values}
use houba.Common.Eq.{elem, elem-append, string_eq, pair_eq}
use houba.Common.Values.{get-put_by, any-of_get, get-of_any}
use houba.Common.Order.{elem-sorted}
use houba.Retention.{select_retention_excess}
use houba.Session.{Referrer}
use houba.Scan.Gc.{
  ParsedReferrer, Groups, or_new, key_of, file_under, collect_from, parse, file_parsed, group_by,
  select_superseded_referrers,
}

abbrev same_key : String × String → String × String → Bool
same_key a b = pair_eq.beq a b

module _ (fromisoformat : String → Option ℕ) (prefix : String) where
  -- One more scan result for the group of `key`.
  abbrev extend_with :
      String × String → Option (Dict String ℕ) → Option ParsedReferrer → Option (Dict String ℕ)
  extend_with key group none = group
  extend_with key group (some p) =
      if same_key (key_of p) key then some (put p.digest p.timestamp (or_new group)) else group

  -- The group of `key` alone: the later of two results with one digest gives its timestamp.
  abbrev pub group_from :
      String × String → List Referrer → Option (Dict String ℕ) → Option (Dict String ℕ)
  group_from key [] group = group
  group_from key (r ∷ referrers) group =
      group_from key referrers (extend_with key group (parse fromisoformat prefix r))

  file_parsed-get :
      (key : String × String) (o : Option ParsedReferrer) (groups : Groups)
      → get key (file_parsed fromisoformat o groups) ≡ extend_with key (get key groups) o
  unfolding file_under
  file_parsed-get key none groups = refl
  file_parsed-get key (some p) groups =
      get-put_by (λ group. put p.digest p.timestamp (or_new group)) (key_of p) key groups

  group_by-get :
      (key : String × String) (referrers : List Referrer) (groups : Groups)
      → get key (group_by fromisoformat prefix referrers groups)
        ≡ group_from key referrers (get key groups)
  unfolding group_by
  group_by-get key [] groups = refl
  group_by-get key (r ∷ referrers) groups =
      group_by-get key referrers (file_parsed fromisoformat (parse fromisoformat prefix r) groups)
      ∙ ap (group_from key referrers) (file_parsed-get key (parse fromisoformat prefix r) groups)

  file_parsed-IsDict :
      (o : Option ParsedReferrer) (groups : Groups)
      → IsDict groups
      → IsDict (file_parsed fromisoformat o groups)
  unfolding file_under
  file_parsed-IsDict none groups d = d
  file_parsed-IsDict (some p) groups d = put-IsDict (key_of p) _ groups d

  group_by-IsDict :
      (referrers : List Referrer) (groups : Groups)
      → IsDict groups
      → IsDict (group_by fromisoformat prefix referrers groups)
  unfolding group_by
  group_by-IsDict [] groups d = d
  group_by-IsDict (r ∷ referrers) groups d =
      group_by-IsDict referrers _ (file_parsed-IsDict (parse fromisoformat prefix r) groups d)

elem-collect_from :
    (d : String) (kepts : List (Dict String ℕ)) (keep older_than : ℤ) (now : ℕ)
    → elem d (collect_from kepts keep older_than now)
      ≡ any (λ kept. elem d (select_retention_excess kept keep older_than now [])) kepts
unfolding collect_from elem
elem-collect_from d [] keep older_than now = refl
elem-collect_from d (kept ∷ kepts) keep older_than now = ground (
  arith,
  elem-append d (select_retention_excess kept keep older_than now [])
      (collect_from kepts keep older_than now),
  elem-collect_from d kepts keep older_than now,
)

module _ (fromisoformat : String → Option ℕ) (prefix : String) (referrers : List Referrer)
    (keep older_than : ℤ) (now : ℕ) where
  -- `d` is excess in the group of a tool and a format, taken alone.
  pub record IsSuperseded (d : String) : Type 0 where
    pub group_key : String × String
    pub group : Dict String ℕ
    pub is_group : group_from fromisoformat prefix group_key referrers none ≡ some group
    pub is_excess : elem d (select_retention_excess group keep older_than now []) ≡ true

  -- A digest is collected exactly when it is retention excess within the group of one tool and
  -- one format, as if no other scan results were there.
  pub select_superseded_referrers-IsSuperseded :
      (d : String)
      → (elem d (select_superseded_referrers fromisoformat referrers keep older_than now prefix)
          ≡ true)
        ↔ IsSuperseded d
  unfolding select_superseded_referrers get
  select_superseded_referrers-IsSuperseded d =
      let groups = group_by fromisoformat prefix referrers [] in
      let collected = collect_from (values groups) keep older_than now in
      let found =
        elem-sorted d collected ∙ elem-collect_from d (values groups) keep older_than now in
      let test : Dict String ℕ → Bool =
        λ kept. elem d (select_retention_excess kept keep older_than now []) in
      (
        λ h.
            let (k, group, g, q) =
              get-of_any test groups (group_by-IsDict fromisoformat prefix referrers [] tt)
                (sym found ∙ h) in
            record {
              group_key = k;
              group = group;
              is_group = sym (group_by-get fromisoformat prefix k referrers []) ∙ g;
              is_excess = q;
            },
        λ s.
            found
            ∙ any-of_get test s.group_key s.group groups
                (group_by-get fromisoformat prefix s.group_key referrers [] ∙ s.is_group)
                s.is_excess,
      )
