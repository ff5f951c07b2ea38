-- ===== src/Transforms/Resolve/Renders.antt =====
-- A transform that was resolved is rendered.
use houba.Common.{String, ◌≡◌, refl, sym, ap, Option, none, some, List, [], ◌∷◌, map}
use houba.Common.Dict.{Dict}
use houba.Common.Keys.{◌⊕◌}
use houba.Config.{CaCertSource, PackageMirror, resolve_ca_certs}
use houba.Errors.{ok, bind_inversion}
use houba.Policy.{TransformStep}
use houba.Transforms.{
  ca_cert, package_mirror, ResourceRef, ResolvedResource, ResolvedStep, Step, inject_ca,
  rewrite_package_sources, set_timezone, compile, resource_refs, context_files_of, ContextFile,
  fragment, Fragment, fragments_of, render, Rendered,
}
use houba.Transforms.Resolve.{
  resolve_ref, resolve_refs, resolve_steps, resolve_transform, ResolvedTransform, resolve_ca,
  content_of,
}

module _ (read_text : String → Option String) (ca_certs : Dict String CaCertSource)
    (package_mirrors : Dict String PackageMirror) where
  ca_file_of :
      (found : List (String × CaCertSource)) {r : ResolvedResource}
      → resolve_ca read_text ca_certs package_mirrors found ≡ ok r
      → (filename : String) × (content : String) × (r.filename ≡ some filename)
        × (r.content ≡ some content)
  ca_file_of [] h = cc
  ca_file_of (x ∷ y ∷ found) h = cc
  ca_file_of ((name, source) ∷ []) {r} h =
      let read = bind_inversion (content_of read_text ca_certs package_mirrors source) _ h in
      let same : record {
        kind = ca_cert;
        name = name;
        filename = some (name ⊕ ".crt");
        content = some read.0;
        apt = none;
        apk = none;
      }
          ≡ r =
        cc in
      (name ⊕ ".crt", read.0, ap (λ x. x.filename) (sym same), ap (λ x. x.content) (sym same))

  -- What a certificate resolves to has a file name and a text.
  ca_file :
      (name : String) {r : ResolvedResource}
      → resolve_ref read_text ca_certs package_mirrors (record { kind = ca_cert; name = name })
        ≡ ok r
      → (filename : String) × (content : String) × (r.filename ≡ some filename)
        × (r.content ≡ some content)
  unfolding resolve_ref resolve_ca_certs
  ca_file name h =
      let got = bind_inversion (resolve_ca_certs (name ∷ []) ca_certs) _ h in ca_file_of got.0 got.2

  -- As many resources as references, each resolved.
  resolve_refs-cons :
      (ref : ResourceRef) (refs : List ResourceRef) {rs : List ResolvedResource}
      → resolve_refs read_text ca_certs package_mirrors (ref ∷ refs) ≡ ok rs
      → (r : ResolvedResource) × (rest : List ResolvedResource) × (resolve_ref read_text ca_certs
            package_mirrors ref
          ≡ ok r)
        × (resolve_refs read_text ca_certs package_mirrors refs ≡ ok rest)
        × (rs ≡ r ∷ rest)
  unfolding resolve_refs
  resolve_refs-cons ref refs h =
      let first = bind_inversion (resolve_ref read_text ca_certs package_mirrors ref) _ h in
      let later = bind_inversion (resolve_refs read_text ca_certs package_mirrors refs) _ first.2 in
      (first.0, later.0, first.1, later.1, cc)

  context_files-resolve_refs :
      (certs : List String) {rs : List ResolvedResource}
      → resolve_refs read_text ca_certs package_mirrors
          (map (λ c. record { kind = ca_cert; name = c }) certs)
        ≡ ok rs
      → (files : List ContextFile) × (context_files_of rs ≡ ok files)
  unfolding context_files_of resolve_refs
  context_files-resolve_refs [] {rs} h = let same : [] ≡ rs = cc in rw (← same) ([], refl)
  context_files-resolve_refs (c ∷ certs) h =
      let split = resolve_refs-cons (record { kind = ca_cert; name = c }) _ h in
      let file = ca_file c split.2 in
      let later = context_files-resolve_refs certs split.3 in
      rw (split.4) (rw (file.2, file.3) (rw (later.1) (_, refl)))

  fragment-resolve_refs :
      (params : Step) {rs : List ResolvedResource}
      → resolve_refs read_text ca_certs package_mirrors (resource_refs params) ≡ ok rs
      → (frag : Fragment) × (fragment params rs ≡ ok frag)
  unfolding fragment resource_refs resolve_refs
  fragment-resolve_refs (inject_ca certs) h =
      let files = context_files-resolve_refs certs h in rw (files.1) (_, refl)
  fragment-resolve_refs (rewrite_package_sources mirror) h =
      let split = resolve_refs-cons (record { kind = package_mirror; name = mirror }) [] h in
      let same : [] ≡ split.1 = cc in rw (split.4) (rw (← same) (_, refl))
  fragment-resolve_refs (set_timezone zone) h = (_, refl)

  render-resolve_steps :
      (steps : List TransformStep) {resolved_steps : List ResolvedStep}
      → resolve_steps read_text ca_certs package_mirrors steps ≡ ok resolved_steps
      → (frag : Fragment) × (fragments_of resolved_steps ≡ ok frag)
  unfolding resolve_steps fragments_of
  render-resolve_steps [] {resolved_steps} h =
      let same : [] ≡ resolved_steps = cc in rw (← same) (_, refl)
  render-resolve_steps (step ∷ steps) {resolved_steps} h =
      let compiled = bind_inversion (compile step) _ h in
      let resources =
        bind_inversion (resolve_refs read_text ca_certs package_mirrors (resource_refs compiled.0))
          _ compiled.2 in
      let rest =
        bind_inversion (resolve_steps read_text ca_certs package_mirrors steps) _ resources.2 in
      let same : (record { step = step; resources = resources.0 } ∷ rest.0) ≡ resolved_steps = cc in
      let frag = fragment-resolve_refs compiled.0 resources.1 in
      let later = render-resolve_steps steps rest.1 in
      rw (← same) (rw (compiled.1, frag.1, later.1) (_, refl))

-- The rendering of a transform that was resolved never fails, whatever its source reference: each
-- step is compiled as before, each certificate has its file, and a rewrite has its one mirror.
pub render-resolve_transform :
    (read_text : String → Option String) (ca_certs : Dict String CaCertSource)
    (package_mirrors : Dict String PackageMirror) (transform_version : List ResolvedStep → String)
    (steps : List TransformStep) (source_ref : String) (rt : ResolvedTransform)
    → resolve_transform read_text ca_certs package_mirrors transform_version steps ≡ ok rt
    → (out : Rendered) × (render rt.resolved_steps source_ref ≡ ok out)
unfolding resolve_transform render
render-resolve_transform read_text ca_certs package_mirrors transform_version steps source_ref rt
      h =
    let resolved = bind_inversion (resolve_steps read_text ca_certs package_mirrors steps) _ h in
    let same : resolved.0 ≡ rt.resolved_steps = cc in
    let frag = render-resolve_steps read_text ca_certs package_mirrors steps resolved.1 in
    rw (← same) (rw (frag.1) (_, refl))
