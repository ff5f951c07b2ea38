-- ===== src/Session/Keeps.antt =====
-- What a run keeps: a predicate on the calls made so far that holds before it and after it.
use houba.Common.{
  String, Bool, inl, inr, Bool-cases, Option, none, some, List, [], ◌∷◌, if◌then◌else◌,
}
use houba.Common.Eq.{elem, string_eq}
use houba.Errors.{ErrorClass, Result, ok, raise}
use houba.Config.{RegistryConfig, Roster, registry_host}
use houba.Scan.Refs.{is_referrers_fallback_tag}
use houba.Common.Keys.{◌⊕◌}
use houba.Session.{
  Call, configured, logged_into, listed_repositories, listed_tags, History, Ports, Io, pure,
  continue_with, ◌>>=◌, handle, try_except, is_knock_error, for_each, for_each_with,
  ensure_registry_session, login_if_set, walk_repo_refs, walk_tags, walk_registry, walk_targets,
}

module _ {κ} (P : History → Type κ) where
  abbrev pub Keeps {ℓ} : {A : Type ℓ} → Io A → Type κ
  Keeps io = (h : History) → P h → P (io h).1

  -- A call that keeps the predicate, whatever it answers.
  abbrev pub IsKept : Call → Type κ
  IsKept call = (h : History) → P h → P (call ∷ h)

  module _ {ℓ μ} {A : Type ℓ} {B : Type μ} where
    after_call :
        (rest : A → Io B) (o : Result A × History)
        → P o.1
        → ((a : A) → Keeps (rest a))
        → P (continue_with rest o).1
    unfolding continue_with
    after_call rest (ok value, k) q r = r value k q
    after_call rest (raise exc, k) q r = q

    -- The same at one history.
    pub bind_at :
        (first : Io A) (rest : A → Io B) (h : History)
        → P (first h).1
        → ((a : A) → Keeps (rest a))
        → P ((first >>= rest) h).1
    unfolding ◌>>=◌
    bind_at first rest h q r = after_call rest (first h) q r

    pub Keeps-bind :
        (first : Io A) (rest : A → Io B)
        → Keeps first
        → ((a : A) → Keeps (rest a))
        → Keeps (first >>= rest)
    Keeps-bind first rest f r h p = bind_at first rest h (f h p) r

  module _ {ℓ} {A : Type ℓ} where
    handled : (handler : ErrorClass → A) (o : Result A × History) → P o.1 → P (handle handler o).1
    unfolding handle
    handled handler (ok value, k) q = q
    handled handler (raise exc, k) q = elim (Bool-cases (is_knock_error exc)) [
      | inl e ↦ rw e q
      | inr e ↦ rw e q
    ]

    pub try_at :
        (body : Io A) (handler : ErrorClass → A) (h : History)
        → P (body h).1
        → P (try_except body handler h).1
    unfolding try_except
    try_at body handler h q = handled handler (body h) q

    pub Keeps-try :
        (body : Io A) (handler : ErrorClass → A) → Keeps body → Keeps (try_except body handler)
    Keeps-try body handler f h p = try_at body handler h (f h p)

  pub Keeps-for_each {ℓ μ} :
      {A : Type ℓ} {B : Type μ} (body : A → Io (List B)) (xs : List A)
      → ((x : A) → Keeps (body x))
      → Keeps (for_each body xs)
  unfolding for_each
  Keeps-for_each body [] f = λ h p. p
  Keeps-for_each body (x ∷ xs) f =
      Keeps-bind _ _ (f x) (λ first. Keeps-bind _ _ (Keeps-for_each body xs f) (λ rest h p. p))

  pub Keeps-for_each_with {ℓ μ ν} :
      {A : Type ℓ} {B : Type μ} {S : Type ν} (body : A → S → Io (List B × S)) (xs : List A) (s : S)
      → ((x : A) (s : S) → Keeps (body x s))
      → Keeps (for_each_with body xs s)
  unfolding for_each_with
  Keeps-for_each_with body [] s f = λ h p. p
  Keeps-for_each_with body (x ∷ xs) s f =
      Keeps-bind _ _ (f x s)
        (λ first. Keeps-bind _ _ (Keeps-for_each_with body xs first.1 f) (λ rest h p. p))

  -- What the walk over the registries asks for is kept.
  pub record KeepsWalk : Type κ where
    pub configuring :
        (host : String) (tls : Bool) (ca : Option String) → IsKept (configured host tls ca)
    pub login : (host user pass : String) (tls : Bool) → IsKept (logged_into host user pass tls)
    pub catalog : (host : String) → IsKept (listed_repositories host)
    pub tags : (repo : String) → IsKept (listed_tags repo)

  module _ (ports : Ports) (w : KeepsWalk) where
    Keeps-login_if_set :
        (cfg : RegistryConfig) (host : String) (username password : Option String)
        → Keeps (login_if_set ports cfg host username password)
    Keeps-login_if_set cfg host none password h p = p
    Keeps-login_if_set cfg host (some u) none h p = p
    Keeps-login_if_set cfg host (some u) (some v) h p = w.login host u v cfg.tls_verify h p

    pub Keeps-ensure_registry_session :
        (cfg : RegistryConfig) (logged_in : List String)
        → Keeps (ensure_registry_session ports cfg logged_in)
    unfolding ensure_registry_session
    Keeps-ensure_registry_session cfg logged_in h p =
        elim (Bool-cases (elem (registry_host cfg) logged_in)) [
          | inl e ↦ rw e p
          | inr e ↦ rw e (
              Keeps-bind _ _
                (λ k q. w.configuring (registry_host cfg) cfg.tls_verify cfg.ca_cert k q)
                (λ configured_it.
                  Keeps-bind _ _
                    (Keeps-login_if_set cfg (registry_host cfg) cfg.username cfg.password)
                    (λ logged_it_in k q. q))
                h p)
        ]

    module _ {ℓ} {B : Type ℓ} (body : String → String → Io (List B))
        (b : (repo_ref image_ref : String) → Keeps (body repo_ref image_ref)) where
      Keeps-tag :
          (repo_ref tag : String)
          → Keeps (
              if is_referrers_fallback_tag tag
              then pure []
              else body repo_ref (repo_ref ⊕ (":" ⊕ tag)))
      Keeps-tag repo_ref tag h p = elim (Bool-cases (is_referrers_fallback_tag tag)) [
        | inl e ↦ rw e p
        | inr e ↦ rw e (b repo_ref (repo_ref ⊕ (":" ⊕ tag)) h p)
      ]

      Keeps-walk_tags : (repo_ref : String) → Keeps (walk_tags ports body repo_ref)
      unfolding walk_tags
      Keeps-walk_tags repo_ref =
          Keeps-bind _ _ (w.tags repo_ref) (λ tags. Keeps-for_each _ tags (Keeps-tag repo_ref))

      Keeps-walk_registry :
          (cfg : RegistryConfig) (logged_in : List String)
          → Keeps (walk_registry ports body cfg logged_in)
      unfolding walk_registry walk_repo_refs
      Keeps-walk_registry cfg logged_in =
          Keeps-bind _ _ (Keeps-ensure_registry_session cfg logged_in) (λ now_in.
            Keeps-bind _ _ (Keeps-bind _ _ (w.catalog (registry_host cfg)) (λ repos h p. p))
              (λ repo_refs.
                Keeps-bind _ _ (Keeps-for_each _ repo_refs Keeps-walk_tags) (λ outcomes h p. p)))

      -- The walk keeps what its own calls and the body keep.
      pub Keeps-walk_targets :
          (only_registry : Option String) (roster : Roster)
          → Keeps (walk_targets ports body only_registry roster)
      unfolding walk_targets
      Keeps-walk_targets only_registry roster =
          Keeps-bind _ _ (λ h p. p)
            (λ targets.
              Keeps-bind _ _ (Keeps-for_each_with _ targets [] Keeps-walk_registry)
                (λ result h p. p))
