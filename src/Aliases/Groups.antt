-- ===== src/Aliases/Groups.antt =====
-- How `resolve_aliases` groups the tags of one template.
use houba.Common.{
  String, ◌≡◌, refl, ap, subst, sym, ◌∙◌, inl, inr, Bool, true, false, ◌&&◌, ◌||◌, Option, none,
  some, List, [], ◌∷◌, ◌++◌, arith, Bool-cases, All,
}
use houba.Common.Text.{◌==◌, eq_iff}
use houba.Common.Eq.{elem, elem-append, string_eq}
use houba.Common.Dict.{Dict, get, put, get-put, IsDict, put-IsDict, All-keys}
use houba.Aliases.{group_members, join_group, group_all}

unfoldable pub is_value : String → Option String → Bool
is_value k none = false
is_value k (some rendered) = rendered == k

elem-put_self :
    (u tag k : String) (groups : Dict String (List String))
    → elem u (group_members (get k (put k (group_members (get k groups) ++ tag ∷ []) groups)))
      ≡ (elem u (group_members (get k groups)) || ((k == k) && tag == u))
unfolding group_members elem
elem-put_self u tag k groups = rw (get-put k k (group_members (get k groups) ++ tag ∷ []) groups) (
    rw ((eq_iff k k).1 refl)
      (ground (arith, elem-append u (group_members (get k groups)) (tag ∷ []))))

elem-join_group :
    (k u tag : String) (rendered : Option String) (groups : Dict String (List String))
    → elem u (group_members (get k (join_group rendered tag groups)))
      ≡ (elem u (group_members (get k groups)) || (is_value k rendered && tag == u))
unfolding join_group is_value
elem-join_group k u tag none groups = by_member (elem u (group_members (get k groups)))
  where
    by_member : (b : Bool) → b ≡ (b || false)
    by_member true = refl
    by_member false = refl
elem-join_group k u tag (some rendered) groups = elim (Bool-cases (rendered == k)) [
  | inl e ↦
      subst
        (λ k.
          elem u (
            group_members
              (get k (put rendered (group_members (get rendered groups) ++ tag ∷ []) groups)))
          ≡ (elem u (group_members (get k groups)) || (rendered == k && tag == u)))
        ((eq_iff rendered k).0 e) (elem-put_self u tag rendered groups)
  | inr e ↦
      rw (get-put rendered k (group_members (get rendered groups) ++ tag ∷ []) groups)
        (rw e (by_member (elem u (group_members (get k groups)))))
]
  where
    by_member : (b : Bool) → b ≡ (b || false)
    by_member true = refl
    by_member false = refl

module _ (render : String → Option String) where
  elem-group_all :
      (k u : String) (tags : List String) (groups : Dict String (List String))
      → elem u (group_members (get k (group_all render tags groups)))
        ≡ (elem u (group_members (get k groups)) || (is_value k (render u) && elem u tags))
  unfolding group_all elem
  elem-group_all k u [] groups = ground arith
  elem-group_all k u (tag ∷ tags) groups = elim (Bool-cases (tag == u)) [
    | inl e ↦
        subst
          (λ u.
            elem u
              (group_members (get k (group_all render tags (join_group (render tag) tag groups))))
            ≡ (elem u (group_members (get k groups))
                || (is_value k (render u) && (tag == u || elem u tags))))
          ((eq_iff tag u).0 e)
          (ground (
            arith,
            elem-group_all k tag tags (join_group (render tag) tag groups),
            elem-join_group k tag tag (render tag) groups,
            eq_iff tag tag,
          ))
    | inr e ↦ ground (
      arith,
      elem-group_all k u tags (join_group (render tag) tag groups),
      elem-join_group k u tag (render tag) groups,
      e,
    )
  ]

pub All-put {ℓ} :
    {V : Type ℓ} (P : String × V → Type ℓ) (k : String) (v : V) (d : Dict String V)
    → P (k, v)
    → All P d
    → All P (put k v d)
unfolding put
All-put P k v [] p h = (p, tt)
All-put P k v ((j, w) ∷ d) p h = elim (Bool-cases (j == k)) [
  | inl e ↦ rw e (subst (λ j. P (j, v)) (sym ((eq_iff j k).0 e)) p, h.1)
  | inr e ↦ rw e (h.0, All-put P k v d p h.1)
]

-- An entry of a dictionary is what its key is looked up as.
All-get {ℓ} : {V : Type ℓ} (d : Dict String V) → IsDict d → All (λ e. get e.0 d ≡ some e.1) d
unfolding get
All-get [] h = tt
All-get ((k, v) ∷ d) h = (rw ((eq_iff k k).1 refl) refl, later d (All-keys k d h.0) (All-get d h.1))
  where
    later :
        (xs : Dict String _)
        → All (λ x. (k == x.0) ≡ false) xs
        → All (λ x. get x.0 d ≡ some x.1) xs
        → All (λ x. get x.0 ((k, v) ∷ d) ≡ some x.1) xs
    later [] n g = tt
    later (x ∷ xs) n g = (rw (n.0) (g.0), later xs n.1 g.1)

unfoldable pub is_nonempty : List String → Bool
is_nonempty [] = false
is_nonempty (x ∷ xs) = true

nonempty-append : (xs : List String) (x : String) → is_nonempty (xs ++ x ∷ []) ≡ true
unfolding is_nonempty
nonempty-append [] x = refl
nonempty-append (y ∷ ys) x = refl

-- The tags of a group are those that render to its name, and there is one.
unfoldable pub IsGroup : (String → Option String) → List String → String × List String → Type 0
unfolding is_nonempty is_value
IsGroup render concrete_tags group =
    (is_nonempty group.1 ≡ true)
    × ((u : String) → elem u group.1 ≡ (is_value group.0 (render u) && elem u concrete_tags))

module _ (render : String → Option String) where
  join_group-nonempty :
      (tag : String) (rendered : Option String) (groups : Dict String (List String))
      → All (λ g. is_nonempty g.1 ≡ true) groups
      → IsDict groups
      → All (λ g. is_nonempty g.1 ≡ true) (join_group rendered tag groups)
        × IsDict (join_group rendered tag groups)
  unfolding join_group
  join_group-nonempty tag none groups h d = (h, d)
  join_group-nonempty tag (some r) groups h d = (
    All-put (λ g. is_nonempty g.1 ≡ true) r (group_members (get r groups) ++ tag ∷ []) groups
        (nonempty-append (group_members (get r groups)) tag) h,
    put-IsDict r (group_members (get r groups) ++ tag ∷ []) groups d,
  )

  group_all-nonempty :
      (tags : List String) (groups : Dict String (List String))
      → All (λ g. is_nonempty g.1 ≡ true) groups
      → IsDict groups
      → All (λ g. is_nonempty g.1 ≡ true) (group_all render tags groups)
        × IsDict (group_all render tags groups)
  unfolding group_all
  group_all-nonempty [] groups h d = (h, d)
  group_all-nonempty (tag ∷ tags) groups h d =
      let joined = join_group-nonempty tag (render tag) groups h d in
      group_all-nonempty tags (join_group (render tag) tag groups) joined.0 joined.1

  pub group_all-IsGroup :
      (tags : List String) → All (IsGroup render tags) (group_all render tags [])
  unfolding IsGroup group_members get elem
  group_all-IsGroup tags =
      let both = group_all-nonempty tags [] tt tt in
      go (group_all render tags []) both.0 (All-get (group_all render tags []) both.1)
    where
      go :
          (gs : Dict String (List String))
          → All (λ g. is_nonempty g.1 ≡ true) gs
          → All (λ g. get g.0 (group_all render tags []) ≡ some g.1) gs
          → All (IsGroup render tags) gs
      go [] n g = tt
      go ((k, us) ∷ gs) n g = (
        (
          n.0,
          λ u. ap (λ o. elem u (group_members o)) (sym g.0) ∙ elem-group_all render k u tags [],
        ),
        go gs n.1 g.1,
      )
