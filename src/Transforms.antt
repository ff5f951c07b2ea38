-- ===== src/Transforms.antt =====
-- knock/domain/transforms/base.py, steps.py, registry.py and render.py: the steps of a rebuild,
-- from the text of a policy to a Dockerfile. SHA-256 over the JSON of the steps is a parameter.
pub mod Resolve
use houba.Common.{
  String, Bool, true, false, Option, none, some, List, [], ◌∷◌, ◌++◌, map, if◌then◌else◌,
}
use houba.Common.Chars.{is_empty}
use houba.Common.Text.{◌==◌}
use houba.Common.Keys.{◌⊕◌, join_by}
use houba.Common.Dict.{Dict}
use houba.Errors.{Result, ok, raise, policy_validation_error, value_error, other_error, ◌>>=◌}
use houba.Policy.{Value, str, arr, Values, nil, cons, TransformStep}

-- The tags of a reference's `kind`.
pub data ResourceKind : Type 0 where
  ca_cert package_mirror : ResourceKind

pub record ResourceRef : Type 0 where
  pub kind : ResourceKind
  pub name : String

pub record ResolvedResource : Type 0 where
  pub kind : ResourceKind
  pub name : String
  pub filename : Option String
  pub content : Option String
  pub apt : Option String
  pub apk : Option String

pub record ContextFile : Type 0 where
  pub path : String
  pub content : String

pub record Fragment : Type 0 where
  pub instructions : List String
  pub context_files : List ContextFile

pub record ResolvedStep : Type 0 where
  pub step : TransformStep
  pub resources : List ResolvedResource

-- A compiler with its validated parameters.
pub data Step : Type 0 where
  inject_ca : (certs : List String) → Step
  rewrite_package_sources : (mirror : String) → Step
  set_timezone : (zone : String) → Step

pub data StepName : Type 0 where
  inject_ca_step rewrite_step timezone_step : StepName

-- `DEFAULT_REGISTRY.get(name)`
unfoldable pub get_compiler : String → Result StepName
get_compiler name =
    if name == "injectCA"
    then ok inject_ca_step
    else if name == "rewritePackageSources"
    then ok rewrite_step
    else if name == "setTimezone"
    then ok timezone_step
    else raise policy_validation_error

-- `list[str]`
abbrev strings : Values → Option (List String)
strings nil = some []
strings (cons (str s) values) = elim (strings values) [ none ↦ none | some ss ↦ some (s ∷ ss) ]
strings (cons _ values) = none

-- `Field(min_length=1)` on a list of texts and on a text
abbrev nonempty_strings : Value → Option (List String)
nonempty_strings (arr (cons v values)) = strings (cons v values)
nonempty_strings _ = none

abbrev nonempty_string : Value → Option String
nonempty_string (str s) = if is_empty s then none else some s
nonempty_string _ = none

-- The only key that the model of the parameters knows, with `extra="forbid"`.
abbrev only_field : String → Dict String Value → Option Value
only_field name ((key, value) ∷ []) = if key == name then some value else none
only_field name _ = none

abbrev read_certs : Option Value → Option Step
read_certs none = none
read_certs (some value) = elim (nonempty_strings value) [
  | none ↦ none
  | some certs ↦ some (inject_ca certs)
]

abbrev read_text : (String → Step) → Option Value → Option Step
read_text make none = none
read_text make (some value) = elim (nonempty_string value) [ none ↦ none | some s ↦ some (make s) ]

-- `compiler.params_model.model_validate(params)`; `none` is a `ValidationError`.
unfoldable pub model_validate : StepName → Dict String Value → Option Step
model_validate inject_ca_step params = read_certs (only_field "certs" params)
model_validate rewrite_step params = read_text rewrite_package_sources (only_field "mirror" params)
model_validate timezone_step params = read_text set_timezone (only_field "zone" params)

-- `ValidationError` is a `ValueError`.
abbrev pub or_raise {ℓ} : {A : Type ℓ} → Result A → Option A → Result A
or_raise failed none = failed
or_raise failed (some value) = ok value

unfoldable pub validate_transform_steps : List TransformStep → Result (Unit {0})
unfolding get_compiler model_validate
validate_transform_steps [] = ok tt
validate_transform_steps (step ∷ steps) = do
  compiler ← get_compiler step.name
  params ← or_raise (raise policy_validation_error) (model_validate compiler step.params)
  validate_transform_steps steps

-- The step as `render` and `_resolve_transform` compile it.
unfoldable pub compile : TransformStep → Result Step
unfolding get_compiler model_validate
compile step = do
  compiler ← get_compiler step.name
  or_raise (raise value_error) (model_validate compiler step.params)

unfoldable pub resource_refs : Step → List ResourceRef
resource_refs (inject_ca certs) = map (λ c. record { kind = ca_cert; name = c }) certs
resource_refs (rewrite_package_sources mirror) =
    record { kind = package_mirror; name = mirror } ∷ []
resource_refs (set_timezone zone) = []

abbrev pub ca_dir : String
ca_dir = "/usr/local/share/ca-certificates"

-- `assert r.filename is not None and r.content is not None`
abbrev context_file : Option String → Option String → Result ContextFile
context_file (some filename) (some content) = ok (record { path = filename; content = content })
context_file _ _ = raise other_error

unfoldable pub context_files_of : List ResolvedResource → Result (List ContextFile)
context_files_of [] = ok []
context_files_of (r ∷ resources) = do
  file ← context_file r.filename r.content
  files ← context_files_of resources
  ok (file ∷ files)

abbrev apt_rewrites : String → List String
apt_rewrites apt =
    ("if [ -f /etc/apt/sources.list ]; then sed -ri 's#https?://[^/]+#"
      ⊕ (apt ⊕ "#g' /etc/apt/sources.list; fi"))
    ∷ ("if ls /etc/apt/sources.list.d/*.list >/dev/null 2>&1; then sed -ri 's#https?://[^/]+#"
        ⊕ (apt ⊕ "#g' /etc/apt/sources.list.d/*.list; fi"))
    ∷ ("if ls /etc/apt/sources.list.d/*.sources >/dev/null 2>&1; then sed -ri 's#https?://[^/]+#"
        ⊕ (apt ⊕ "#g' /etc/apt/sources.list.d/*.sources; fi"))
    ∷ []

abbrev apk_rewrites : String → List String
apk_rewrites apk =
    ("if [ -f /etc/apk/repositories ]; then sed -ri 's#https?://[^/]+#"
      ⊕ (apk ⊕ "#g' /etc/apk/repositories; fi"))
    ∷ []

-- `if m.apt:`
abbrev if_set : (String → List String) → Option String → List String
if_set rewrites none = []
if_set rewrites (some url) = if is_empty url then [] else rewrites url

abbrev run_all : List String → List String
run_all [] = []
run_all (r ∷ rewrites) = ("RUN set -eux; " ⊕ join_by "; " (r ∷ rewrites)) ∷ []

unfoldable pub fragment : Step → List ResolvedResource → Result Fragment
unfolding context_files_of
fragment (inject_ca certs) resources = do
  files ← context_files_of resources
  ok (record {
    instructions =
        ("COPY " ⊕ (join_by " " (map (λ f. f.path) files) ⊕ (" " ⊕ (ca_dir ⊕ "/"))))
        ∷ "RUN update-ca-certificates"
        ∷ [];
    context_files = files;
  })
fragment (rewrite_package_sources mirror) (m ∷ []) = ok (record {
  instructions = run_all (if_set apt_rewrites m.apt ++ if_set apk_rewrites m.apk);
  context_files = [];
})
fragment (rewrite_package_sources mirror) _ = raise value_error
fragment (set_timezone zone) resources = ok (record {
  instructions =
      ("RUN ln -snf /usr/share/zoneinfo/"
        ⊕ (zone ⊕ (" /etc/localtime && echo " ⊕ (zone ⊕ " > /etc/timezone"))))
      ∷ ("ENV TZ=" ⊕ zone)
      ∷ [];
  context_files = [];
})

pub record Rendered : Type 0 where
  pub dockerfile : String
  pub context_files : List ContextFile

-- The loop of `render`.
unfoldable pub fragments_of : List ResolvedStep → Result Fragment
unfolding compile fragment
fragments_of [] = ok (record { instructions = []; context_files = [] })
fragments_of (rs ∷ resolved_steps) = do
  params ← compile rs.step
  frag ← fragment params rs.resources
  rest ← fragments_of resolved_steps
  ok (record {
    instructions = frag.instructions ++ rest.instructions;
    context_files = frag.context_files ++ rest.context_files;
  })

unfoldable pub render : List ResolvedStep → String → Result Rendered
unfolding fragments_of
render resolved_steps source_ref = do
  frag ← fragments_of resolved_steps
  ok (record {
    dockerfile = join_by "\n" (("FROM " ⊕ source_ref) ∷ frag.instructions) ⊕ "\n";
    context_files = frag.context_files;
  })
