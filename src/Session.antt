-- ===== src/Session.antt =====
-- knock/ports/registry.py, knock/ports/usage_oracle.py and knock/use_cases/registry_session.py.
-- What the registry and the oracle answer depends on all calls made so far, and is a parameter:
-- a run is a function from the calls made before it, latest first, to its outcome and the calls.
pub mod Keeps
pub mod Edges
pub mod Stages
pub mod Answers
pub mod Delivers
use houba.Common.{
  ℕ, String, Bool, true, false, not, ◌&&◌, ◌||◌, Option, none, some, List, [], ◌∷◌, ◌++◌,
  if◌then◌else◌,
}
use houba.Common.Chars.{is_empty}
use houba.Common.Dict.{Dict, values}
use houba.Common.Eq.{elem, add, string_eq}
use houba.Common.Keys.{◌⊕◌}
use houba.Common.Parts.{starts_with}
use houba.Attestation.{Statement}
use houba.Report.{OperationKind, Counts, RunReport}
use houba.Transforms.{Rendered}
use houba.Errors.{ErrorClass, ErrorInfo, Result, ok, raise, value_error, key_error, other_error}
use houba.Lifecycle.{MarkIdentity}
use houba.Common.Int.{ℤ}
use houba.Config.{RegistryConfig, Roster, registry_host, path_prefix, resolve_registry}
use houba.Scan.Refs.{is_referrers_fallback_tag}

-- What a call returns that returns nothing.
abbrev pub Done : Type 0
Done = Unit

pub record ImageInfo : Type 0 where
  pub digest : String
  pub created : Option ℕ
  pub annotations : Dict String String
  pub config_labels : Dict String String

pub record Referrer : Type 0 where
  pub digest : String
  pub artifact_type : String
  pub annotations : Dict String String
  pub subject_tag : String

pub record UsageQuery : Type 0 where
  pub digest : String
  pub image_ref : String
  pub identity : MarkIdentity
  pub since : ℤ

pub record UsageObservation : Type 0 where
  pub last_seen : Option ℕ
  pub detail : String

-- What `put_referrer` attaches; a marker has no blob.
pub record NewReferrer : Type 0 where
  pub artifact_type : String
  pub annotations : Dict String String
  pub blob : String
  pub media_type : Option String

-- With the files themselves where the code has their paths.
pub record BuildRequest : Type 0 where
  pub rendered : Rendered
  pub image_ref : String
  pub platform : String
  pub provenance : Bool
  pub tls_verify : Bool

pub record OperationEvent : Type 0 where
  pub policy : String
  pub dest_repo : String
  pub variant : String
  pub kind : OperationKind
  pub out_tag : String
  pub src_tag : Option String
  pub digest : Option String
  pub applied : Bool
  pub transform_steps : Option (List String)
  pub out_digest : Option String

-- The calls that have been made.
pub data Call : Type 0 where
  configured : (host : String) (tls_verify : Bool) (ca_cert : Option String) → Call
  logged_into : (host username password : String) (tls_verify : Bool) → Call
  listed_repositories : (registry : String) → Call
  listed_tags : (repo_ref : String) → Call
  listed_referrers : (image_ref artifact_type : String) → Call
  inspected : (image_ref : String) → Call
  read_annotations : (image_ref : String) → Call
  asked : UsageQuery → Call
  deleted_referrer : (referrer_ref : String) → Call
  deleted_tag : (image_ref : String) → Call
  listed_all_referrers : (image_ref : String) → Call
  copied : (src_ref dst_ref : String) → Call
  annotated :
      (image_ref : String) (annotations : Dict String String) (publish_as : Option String) → Call
  put_referrer_on : (subject : String) → NewReferrer → Call
  put_artifact_at :
      (image_ref artifact_type blob_path media_type : String) (annotations : Dict String String)
      → Call
  built : BuildRequest → Call
  generated_sboms : (image_ref : String) (formats : List String) → Call
  attested_ref : (subject_ref : String) → Statement → Call
  verified : (subject_ref predicate_type : String) → Call
  applied_operation : OperationEvent → Call
  failed_operation : OperationEvent → ErrorInfo → Call
  started_policy : (name source : String) → Call
  completed_policy : (name : String) → Counts → Call
  failed_policy : (name : String) → ErrorInfo → Call
  started_run : (policy_count : ℕ) (dry_run : Bool) → Call
  completed_run : RunReport → Call

abbrev pub History : Type 0
History = List Call

-- `RegistryPort` and `UsageOraclePort`
pub record Ports : Type 0 where
  pub configure_registry : History → String → Bool → Option String → Result Done
  pub login : History → String → String → String → Bool → Result Done
  pub list_repositories : History → String → Result (List String)
  pub list_tags : History → String → Result (List String)
  pub list_referrers : History → String → String → Result (List Referrer)
  pub inspect : History → String → Result ImageInfo
  pub get_annotations : History → String → Result (String × Dict String String)
  pub last_prod_usage : History → UsageQuery → Result UsageObservation
  pub delete_referrer : History → String → Result Done
  pub delete_tag : History → String → Result Done

abbrev pub Io {ℓ} : Type ℓ → Type ℓ
Io A = History → Result A × History

abbrev pub pure {ℓ} : {A : Type ℓ} → A → Io A
pure value h = (ok value, h)

abbrev pub throw {ℓ} : {A : Type ℓ} → ErrorClass → Io A
throw exc h = (raise exc, h)

abbrev pub lift {ℓ} : {A : Type ℓ} → Result A → Io A
lift result h = (result, h)

-- A call, with its answer.
abbrev pub perform {ℓ} : {A : Type ℓ} → Call → (History → Result A) → Io A
perform call answer h = (answer h, call ∷ h)

unfoldable pub continue_with {ℓ κ} :
    {A : Type ℓ} {B : Type κ} → (A → Io B) → Result A × History → Result B × History
continue_with rest (ok value, h) = rest value h
continue_with rest (raise exc, h) = (raise exc, h)

infixl 10 ◌>>=◌
unfoldable pub ◌>>=◌ {ℓ κ} : {A : Type ℓ} {B : Type κ} → Io A → (A → Io B) → Io B
unfolding continue_with
◌>>=◌ first rest h = continue_with rest (first h)

-- `isinstance(exc, KnockError)`
abbrev pub is_knock_error : ErrorClass → Bool
is_knock_error value_error = false
is_knock_error key_error = false
is_knock_error other_error = false
is_knock_error _ = true

unfoldable pub handle {ℓ} :
    {A : Type ℓ} → (ErrorClass → A) → Result A × History → Result A × History
handle handler (ok value, h) = (ok value, h)
handle handler (raise exc, h) = if is_knock_error exc then (ok (handler exc), h) else (raise exc, h)

-- `try: … except KnockError as exc: return …`
unfoldable pub try_except {ℓ} : {A : Type ℓ} → Io A → (ErrorClass → A) → Io A
unfolding handle
try_except body handler h = handle handler (body h)

-- A loop whose body returns what it appends to the outcomes.
unfoldable pub for_each {ℓ κ} : {A : Type ℓ} {B : Type κ} → (A → Io (List B)) → List A → Io (List B)
for_each body [] = pure []
for_each body (x ∷ xs) = do first ← body x; rest ← for_each body xs; pure (first ++ rest)

-- The same for a loop that threads a state.
unfoldable pub for_each_with {ℓ κ μ} :
    {A : Type ℓ} {B : Type κ} {S : Type μ}
    → (A → S → Io (List B × S))
    → List A
    → S
    → Io (List B × S)
for_each_with body [] s = pure ([], s)
for_each_with body (x ∷ xs) s = do
  (first, s₁) ← body x s
  (rest, s₂) ← for_each_with body xs s₁
  pure (first ++ rest, s₂)

-- `repo for repo in repos if not (prefix and not repo.startswith(f"{prefix}/"))`, qualified.
unfoldable pub owned_refs : String → String → List String → List String
unfolding starts_with
owned_refs host prefix [] = []
owned_refs host prefix (repo ∷ repos) =
    let rest = owned_refs host prefix repos in
    if not (is_empty prefix) && not (starts_with (prefix ⊕ "/") repo)
    then rest
    else (host ⊕ ("/" ⊕ repo)) ∷ rest

-- `targets`: one registry by its name, or all of them.
abbrev pub targets_of : Option String → Roster → Result (List RegistryConfig)
targets_of none roster = ok (values roster)
targets_of (some name) roster = elim (resolve_registry (some name) roster) [
  | ok found ↦ ok (found.1 ∷ [])
  | raise exc ↦ raise exc
]

module _ (ports : Ports) where
  abbrev pub login_if_set : RegistryConfig → String → Option String → Option String → Io Done
  login_if_set cfg host (some username) (some password) =
      perform (logged_into host username password cfg.tls_verify)
        (λ h. ports.login h host username password cfg.tls_verify)
  login_if_set cfg host _ _ = pure tt

  -- `ensure_registry_session`; `logged_in` is returned with the host added.
  unfoldable pub ensure_registry_session : RegistryConfig → List String → Io (List String)
  unfolding elem add registry_host
  ensure_registry_session cfg logged_in =
      let host = registry_host cfg in
      if elem host logged_in then pure logged_in else (do
        configured_it ←
            perform (configured host cfg.tls_verify cfg.ca_cert)
              (λ h. ports.configure_registry h host cfg.tls_verify cfg.ca_cert)
        logged_it_in ← login_if_set cfg host cfg.username cfg.password
        pure (add host logged_in))

  -- `walk_repo_refs`: one read of the catalog, filtered.
  unfoldable pub walk_repo_refs : RegistryConfig → Io (List String)
  unfolding owned_refs registry_host path_prefix
  walk_repo_refs cfg = do
    repos ←
        perform (listed_repositories (registry_host cfg))
          (λ h. ports.list_repositories h (registry_host cfg))
    pure (owned_refs (registry_host cfg) (path_prefix cfg) repos)

  module _ {ℓ} {B : Type ℓ} (body : String → String → Io (List B)) where
    -- `for tag in registry.list_tags(repo_ref)`, without the fallback tags.
    unfoldable pub walk_tags : String → Io (List B)
    unfolding for_each is_referrers_fallback_tag
    walk_tags repo_ref = do
      tags ← perform (listed_tags repo_ref) (λ h. ports.list_tags h repo_ref)
      for_each
          (λ tag.
            if is_referrers_fallback_tag tag
            then pure []
            else body repo_ref (repo_ref ⊕ (":" ⊕ tag)))
          tags

    unfoldable pub walk_registry : RegistryConfig → List String → Io (List B × List String)
    unfolding for_each walk_tags walk_repo_refs ensure_registry_session
    walk_registry cfg logged_in = do
      now_in ← ensure_registry_session cfg logged_in
      repo_refs ← walk_repo_refs cfg
      outcomes ← for_each walk_tags repo_refs
      pure (outcomes, now_in)

    -- The loops that `purge_marks` and `gc_referrers` share.
    unfoldable pub walk_targets : Option String → Roster → Io (List B)
    unfolding for_each_with walk_registry
    walk_targets only_registry roster = do
      targets ← lift (targets_of only_registry roster)
      result ← for_each_with walk_registry targets []
      pure result.0
