-- ===== src/Aliases/Resolved.antt =====
-- What `resolve_aliases` returns, for all templates together.
use houba.Common.{
  String, ◌≡◌, refl, ap, sym, ◌∙◌, inl, inr, true, false, ◌&&◌, Option, some, List, [], ◌∷◌, arith,
  Bool-cases, All,
}
use houba.Common.Text.{◌==◌, eq_iff}
use houba.Common.Eq.{elem, string_eq}
use houba.Common.Dict.{Dict, put}
use houba.Aliases.{
  point_all, renders, render_template, groups_of, resolve_from, resolve_aliases, group_all,
}
use houba.Aliases.Highest.{is_no_higher, highest-is_no_higher}
use houba.Aliases.Groups.{is_value, is_nonempty, IsGroup, group_all-IsGroup, All-put}

module _ (captures_in : String → String → Dict String String) where
  IsGroup-congr :
      (f g : String → Option String) (tags : List String)
      → ((u : String) → f u ≡ g u)
      → (groups : Dict String (List String)) → All (IsGroup f tags) groups
      → All (IsGroup g tags) groups
  unfolding IsGroup
  IsGroup-congr f g tags same [] h = tt
  IsGroup-congr f g tags same ((k, us) ∷ groups) h = (
    (h.0.0, λ u. h.0.1 u ∙ ap (λ r. is_value k r && elem u tags) (same u)),
    IsGroup-congr f g tags same groups h.1,
  )

  as_rendered :
      (template : String) (tags : List String) (include_regex : Option String)
      → (template == "latest") ≡ false
      → All
          (IsGroup (renders captures_in template include_regex) tags)
          (group_all (λ tag. render_template captures_in template tag include_regex) tags [])
  unfolding renders
  as_rendered template tags include_regex e =
      let render : String → Option String =
        (λ tag. render_template captures_in template tag include_regex) in
      IsGroup-congr render (renders captures_in template include_regex) tags (λ u. rw e refl)
        (group_all render tags []) (group_all-IsGroup render tags)

  renders-latest :
      (template : String) (include_regex : Option String)
      → (template == "latest") ≡ true
      → (u : String) → renders captures_in template include_regex u ≡ some "latest"
  unfolding renders
  renders-latest template include_regex e u = rw e refl

  groups_of-IsGroup :
      (template : String) (concrete_tags : List String) (include_regex : Option String)
      → All
          (IsGroup (renders captures_in template include_regex) concrete_tags)
          (groups_of captures_in template concrete_tags include_regex)
  unfolding groups_of IsGroup is_nonempty is_value elem
  groups_of-IsGroup template [] include_regex = elim (Bool-cases (template == "latest")) [
    | inl e ↦ rw e tt
    | inr e ↦ rw e (as_rendered template [] include_regex e)
  ]
  groups_of-IsGroup template (tag ∷ tags) include_regex = elim (Bool-cases (template == "latest")) [
    | inl e ↦ rw e (
      (
        refl,
        λ u. sym (
            ap (λ r. is_value "latest" r && elem u (tag ∷ tags))
              (renders-latest template include_regex e u)),
      ),
      tt,
    )
    | inr e ↦ rw e (as_rendered template (tag ∷ tags) include_regex e)
  ]

  module _ (templates concrete_tags : List String) (include_regex : Option String) where
    -- An alias has the name that some template gives its target, a concrete tag, and no tag with
    -- that name under the template is higher.
    pub IsPointed : String × String → Type 0
    IsPointed entry =
        (template : String) × (elem template templates ≡ true)
        × (elem entry.1 concrete_tags ≡ true)
        × (is_value entry.0 (renders captures_in template include_regex entry.1) ≡ true)
        × ((u : String)
            → elem u concrete_tags ≡ true
            → is_value entry.0 (renders captures_in template include_regex u) ≡ true
            → is_no_higher entry.1 u ≡ true)

    point_all-IsPointed :
        (template : String)
        → elem template templates ≡ true
        → (groups : Dict String (List String)) (aliases : Dict String String)
        → All (IsGroup (renders captures_in template include_regex) concrete_tags) groups
        → All IsPointed aliases
        → (out : Dict String String) × (point_all groups aliases ≡ some out) × All IsPointed out
    unfolding point_all IsGroup is_nonempty IsPointed
    point_all-IsPointed template m [] aliases h k = (aliases, refl, k)
    point_all-IsPointed template m ((name, []) ∷ groups) aliases h k = ground arith
    point_all-IsPointed template m ((name, tag ∷ tags) ∷ groups) aliases h k =
        let best = highest-is_no_higher tag tags in
        let found = sym (h.0.1 best.0) ∙ best.2 in
        rw (best.1, point_all)
          (point_all-IsPointed template m groups (put name best.0 aliases) h.1 (
            All-put IsPointed name best.0 aliases
              (template, m, ground arith, ground arith, λ u c r. best.3 u (h.0.1 u ∙ ground arith))
              k))

    resolve_from-IsPointed :
        (rest : List String) (aliases : Dict String String)
        → ((t : String) → elem t rest ≡ true → elem t templates ≡ true)
        → All IsPointed aliases
        → (out : Dict String String) × (resolve_from captures_in rest concrete_tags include_regex
              aliases
            ≡ some out)
          × All IsPointed out
    unfolding resolve_from elem
    resolve_from-IsPointed [] aliases m k = (aliases, refl, k)
    resolve_from-IsPointed (template ∷ rest) aliases m k =
        let pointed =
          point_all-IsPointed template (m template (ground (arith, eq_iff template template)))
            (groups_of captures_in template concrete_tags include_regex) aliases
            (groups_of-IsGroup template concrete_tags include_regex) k in
        rw (pointed.1, resolve_from)
          (resolve_from-IsPointed rest pointed.0 (λ t e. m t (ground arith)) pointed.2)

    -- The aliases are always resolved: no group is empty. Each alias that comes out has the name
    -- that some template gives its target, the target is one of the concrete tags, and no
    -- concrete tag to which the same template gives that name is higher: among versions by the
    -- order of the versions, where any version beats what is none, and else by the text.
    pub resolve_aliases-IsPointed :
        (out : Dict String String) × (resolve_aliases captures_in templates concrete_tags
            include_regex
          ≡ some out)
        × All IsPointed out
    unfolding resolve_aliases
    resolve_aliases-IsPointed = resolve_from-IsPointed templates [] (λ t e. e) tt
