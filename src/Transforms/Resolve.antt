-- ===== src/Transforms/Resolve.antt =====
-- `_resolve_ref` and `_resolve_transform` of knock/use_cases/reconcile_registry.py: the named
-- resources of a step become texts. Reading a file is a parameter: `none` is an `OSError`.
pub mod Renders
use houba.Common.{String, Option, none, some, List, [], ◌∷◌}
use houba.Common.Dict.{Dict}
use houba.Common.Keys.{◌⊕◌}
use houba.Config.{CaCertSource, PackageMirror, resolve_ca_certs, resolve_mirror}
use houba.Errors.{Result, ok, raise, config_error, value_error, other_error, ◌>>=◌}
use houba.Policy.{TransformStep}
use houba.Transforms.{
  ca_cert, package_mirror, ResourceKind, ResourceRef, ResolvedResource, ResolvedStep, compile,
  resource_refs, or_raise,
}

pub record ResolvedTransform : Type 0 where
  pub resolved_steps : List ResolvedStep
  pub version : String

module _ (read_text : String → Option String) (ca_certs : Dict String CaCertSource)
    (package_mirrors : Dict String PackageMirror) where
  -- The text of a certificate: inline, or from its file.
  abbrev pub content_of : CaCertSource → Result String
  content_of source = elim source.pem [
    | some content ↦ ok content
    | none ↦ elim source.path [
      | none ↦ raise other_error
      | some path ↦ or_raise (raise config_error) (read_text path)
    ]
  ]

  -- `((name, src),) = resolve_ca_certs([ref.name], ca_certs)`
  abbrev pub resolve_ca : List (String × CaCertSource) → Result ResolvedResource
  resolve_ca ((name, source) ∷ []) = do
    content ← content_of source
    ok (record {
      kind = ca_cert;
      name = name;
      filename = some (name ⊕ ".crt");
      content = some content;
      apt = none;
      apk = none;
    })
  resolve_ca _ = raise value_error

  abbrev resolve_kind : ResourceKind → String → Result ResolvedResource
  resolve_kind ca_cert name = do found ← resolve_ca_certs (name ∷ []) ca_certs; resolve_ca found
  resolve_kind package_mirror name = do
    m ← resolve_mirror name package_mirrors
    ok (record {
      kind = package_mirror;
      name = name;
      filename = none;
      content = none;
      apt = m.apt;
      apk = m.apk;
    })

  unfoldable pub resolve_ref : ResourceRef → Result ResolvedResource
  unfolding resolve_ca_certs resolve_mirror
  resolve_ref ref = resolve_kind ref.kind ref.name

  unfoldable pub resolve_refs : List ResourceRef → Result (List ResolvedResource)
  unfolding resolve_ref
  resolve_refs [] = ok []
  resolve_refs (ref ∷ refs) = do
    resource ← resolve_ref ref
    resources ← resolve_refs refs
    ok (resource ∷ resources)

  unfoldable pub resolve_steps : List TransformStep → Result (List ResolvedStep)
  unfolding compile resource_refs resolve_refs
  resolve_steps [] = ok []
  resolve_steps (step ∷ steps) = do
    params ← compile step
    resources ← resolve_refs (resource_refs params)
    rest ← resolve_steps steps
    ok (record { step = step; resources = resources } ∷ rest)

  unfoldable pub resolve_transform :
      (List ResolvedStep → String) → List TransformStep → Result ResolvedTransform
  unfolding resolve_steps
  resolve_transform transform_version steps = do
    resolved_steps ← resolve_steps steps
    ok (record { resolved_steps = resolved_steps; version = transform_version resolved_steps })
