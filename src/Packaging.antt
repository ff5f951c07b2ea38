-- ===== src/Packaging.antt =====
-- knock/domain/packaging.py: what enters an archive, in which order, and what is refused. The texts
-- of the refusals are not modelled, and `str.lower` is a parameter.
pub mod Members
pub mod Distinct
pub mod Planned
use Prim.Native.Char.{code}
use houba.Common.{
  ℕ, ◌+◌, String, Bool, true, false, not, ◌&&◌, ◌||◌, Option, none, some, List, [], ◌∷◌, ◌++◌, map,
  any, sum_by, length, ltb, if◌then◌else◌,
}
use houba.Common.Chars.{is_empty, split}
use houba.Common.Dict.{Dict, get, put, values}
use houba.Common.Eq.{elem, add_all, string_eq}
use houba.Common.Int.{ℤ, pos, pos_part, neg_part, sub_ℕ, ltb_ℤ}
use houba.Common.Keys.{◌⊕◌, join_by}
use houba.Common.Order.{sorted_by}
use houba.Common.Parts.{has_code, before, starts_with}
use houba.Common.Text.{◌==◌, str_leb}
use houba.Errors.{Result, ok, raise, ErrorClass, archive_error, archive_layout_error}
use houba.Scan.Refs.{strip_prefix}

abbrev pub max_archive_bytes : ℤ
max_archive_bytes = pos 104857600

abbrev pub plugin_marker_dirs : List String
plugin_marker_dirs =
    ".claude-plugin" ∷ "commands" ∷ "skills" ∷ "agents" ∷ "hooks" ∷ "themes" ∷ "output-styles"
    ∷ "monitors" ∷ "workflows" ∷ []

abbrev pub plugin_marker_files : List String
plugin_marker_files = "SKILL.md" ∷ ".mcp.json" ∷ ".lsp.json" ∷ []

pub record SourceFile : Type 0 where
  pub path : String
  pub size : ℤ
  pub is_symlink : Bool
  pub is_executable : Bool

pub record ArchiveEntry : Type 0 where
  pub path : String
  pub mode : ℕ
  pub size : ℤ

-- `new_comps[-1] == ".."` and `new_comps.pop()` of `posixpath.normpath`.
unfoldable pub last_is_parent : List String → Bool
last_is_parent [] = false
last_is_parent (c ∷ []) = c == ".."
last_is_parent (c ∷ d ∷ comps) = last_is_parent (d ∷ comps)

unfoldable pub pop_last : List String → List String
pop_last [] = []
pop_last (c ∷ []) = []
pop_last (c ∷ d ∷ comps) = c ∷ pop_last (d ∷ comps)

abbrev pub is_nil : List String → Bool
is_nil [] = true
is_nil (c ∷ comps) = false

-- The body of its loop.
unfoldable pub normal_step : Bool → List String → String → List String
normal_step absolute new_comps comp =
    if is_empty comp || comp == "."
    then new_comps
    else if not (comp == "..") || (not absolute && is_nil new_comps || last_is_parent new_comps)
    then new_comps ++ comp ∷ []
    else pop_last new_comps

unfoldable pub normal_comps : Bool → List String → List String → List String
normal_comps absolute new_comps [] = new_comps
normal_comps absolute new_comps (comp ∷ comps) =
    normal_comps absolute (normal_step absolute new_comps comp) comps

unfoldable pub initial_slashes : String → String
initial_slashes path =
    if starts_with "///" path
    then "/"
    else if starts_with "//" path
    then "//"
    else if starts_with "/" path
    then "/"
    else ""

abbrev pub or_dot : String → String
or_dot text = if is_empty text then "." else text

-- `posixpath.normpath`
unfoldable pub normpath : String → String
normpath path =
    if is_empty path
    then "."
    else or_dot (
        initial_slashes path
        ⊕ join_by "/" (normal_comps (starts_with "/" path) [] (split b'/' path)))

pub data Reason : Type 0 where
  backslash escapes : Reason

-- `_escape_reason`
unfoldable pub escape_reason : String → Option Reason
escape_reason path =
    if has_code 92 path
    then some backslash
    else if starts_with "/" path
    then some escapes
    else (let normalised = normpath path in
        if normalised == ".." || (starts_with "../" normalised || normalised == ".")
        then some escapes
        else none)

abbrev pub is_backslash : Option Reason → Bool
is_backslash (some backslash) = true
is_backslash _ = false

abbrev pub is_escape : Option Reason → Bool
is_escape (some escapes) = true
is_escape _ = false

abbrev is_set : Option Reason → Bool
is_set none = false
is_set (some reason) = true

unfoldable pub path_escapes_root : String → Bool
path_escapes_root path = is_set (escape_reason path)

unfoldable pub path_is_canonical : String → Bool
path_is_canonical path = normpath path == path

-- The body of the loop of `_root_marker`.
abbrev pub is_marker : String → Bool
is_marker path =
    if has_code b'/' path
    then elem (before b'/' path) plugin_marker_dirs
    else elem path plugin_marker_files

unfoldable pub root_marker : List String → Bool
root_marker paths = any is_marker paths

-- The paths under a wrapper directory, without it.
unfoldable pub inner_paths : String → List String → List String
inner_paths wrapper [] = []
inner_paths wrapper (path ∷ paths) =
    let rest = inner_paths wrapper paths in
    elim (strip_prefix (wrapper ⊕ "/") path) [ none ↦ rest | some inner ↦ inner ∷ rest ]

abbrev pub marker_in : List String → List String → Bool
marker_in (wrapper ∷ []) paths =
    let inner = inner_paths wrapper paths in not (is_nil inner) && root_marker inner
marker_in _ paths = false

-- `_has_marker`
unfoldable pub has_marker : List String → Bool
has_marker paths = root_marker paths || marker_in (add_all (map (before b'/') paths) []) paths

-- `sum(file.size for file, _ in normalised)`
abbrev pub total {ℓ} : {A : Type ℓ} → (A → ℤ) → List A → ℤ
total size xs = sub_ℕ (sum_by (λ x. pos_part (size x)) xs) (sum_by (λ x. neg_part (size x)) xs)

abbrev pub or_new : Option (List String) → List String
or_new none = []
or_new (some paths) = paths

-- `if …: raise …`
unfoldable pub refuse {ℓ} : {A : Type ℓ} → Bool → ErrorClass → Result A → Result A
refuse true exc rest = raise exc
refuse false exc rest = rest

abbrev pub entry_of : SourceFile × String → ArchiveEntry
entry_of pair = record {
  path = pair.1;
  mode = if pair.0.is_executable then 493 else 420;
  size = pair.0.size;
}

abbrev pub path_leb : SourceFile × String → SourceFile × String → Bool
path_leb a b = str_leb a.1 b.1

module _ (lower : String → String) where
  -- `collisions.setdefault(path.lower(), []).append(path)`
  unfoldable pub group_paths : List String → Dict String (List String) → Dict String (List String)
  group_paths [] collisions = collisions
  group_paths (path ∷ paths) collisions =
      group_paths paths
        (put (lower path) (or_new (get (lower path) collisions) ++ path ∷ []) collisions)

  unfoldable pub has_collision : List String → Bool
  has_collision paths = any (λ same. ltb 1 (length same)) (values (group_paths paths []))

  unfoldable pub plan_archive : List SourceFile → ℤ → Result (List ArchiveEntry)
  plan_archive files max_bytes =
      let normalised = map (λ file. (file, normpath file.path)) files in
      let paths = map (λ pair. pair.1) normalised in
      refuse (any (λ file. ltb_ℤ file.size (pos 0)) files) archive_error (
        refuse (any (λ file. file.is_symlink) files) archive_error (
          refuse (any (λ file. is_backslash (escape_reason file.path)) files) archive_error (
            refuse (any (λ file. is_escape (escape_reason file.path)) files) archive_error (
              refuse (has_collision paths) archive_error (
                refuse (ltb_ℤ max_bytes (total (λ file. file.size) files)) archive_error (
                  refuse (not (has_marker paths)) archive_layout_error
                    (ok (map entry_of (sorted_by path_leb normalised)))))))))
