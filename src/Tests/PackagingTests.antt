-- ===== src/Tests/PackagingTests.antt =====
-- Runs of knock/domain/packaging.py.
use houba.Common.{◌≡◌, refl, true, false, String, List, [], ◌∷◌, map, All}
use houba.Common.Chars.{split}
use houba.Common.Dict.{get, put}
use houba.Common.Eq.{elem, add_all}
use houba.Common.Int.{ℤ, pos, negsuc, leb_ℤ}
use houba.Common.Order.{IsSortedBy, sorted_by}
use houba.Common.Parts.{starts_with, has_code, before}
use houba.Common.Text.{str_leb}
use houba.Errors.{ok, raise, archive_error, archive_layout_error}
use houba.Scan.Refs.{strip_prefix}
use houba.Packaging.{
  normpath, normal_comps, normal_step, last_is_parent, pop_last, initial_slashes, path_escapes_root,
  escape_reason, has_marker, root_marker, inner_paths, SourceFile, ArchiveEntry, plan_archive,
  refuse, has_collision, group_paths, total,
}
use houba.Packaging.Members.{IsMember}
use houba.Packaging.Planned.{AreApart, entry_leb, plan_archive-IsArchive}

normalises :
    map normpath ("a//b/./c" ∷ "a/../../b/" ∷ "../.." ∷ "./" ∷ "//x/.." ∷ "///a" ∷ "" ∷ [])
    ≡ "a/b/c" ∷ "../b" ∷ "../.." ∷ "." ∷ "//" ∷ "/a" ∷ "." ∷ []
unfolding normpath starts_with normal_comps split normal_step last_is_parent pop_last
    initial_slashes
normalises = refl

escaping :
    map path_escapes_root ("a/../b" ∷ "a/../../b" ∷ "/etc" ∷ "a\\b" ∷ "." ∷ [])
    ≡ false ∷ true ∷ true ∷ true ∷ true ∷ []
unfolding path_escapes_root escape_reason has_code starts_with normpath normal_comps split
    normal_step last_is_parent pop_last initial_slashes
escaping = refl

markers :
    map has_marker
      (("w/skills/a.md" ∷ "w/b.md" ∷ []) ∷ ("a/b/skills/foo.md" ∷ []) ∷ ("SKILL.md" ∷ []) ∷ [])
    ≡ true ∷ false ∷ true ∷ []
unfolding has_marker root_marker has_code elem before add_all inner_paths strip_prefix
markers = refl

abbrev file : String → ℤ → SourceFile
file path size = record { path = path; size = size; is_symlink = false; is_executable = false }

abbrev lower : String → String
lower s = s

abbrev skill : List SourceFile
skill = file "./w/skills/b.md" (pos 5) ∷ file "w/a.md" (pos 0) ∷ []

abbrev entries : List ArchiveEntry
entries =
    record { path = "w/a.md"; mode = 420; size = pos 0 }
    ∷ record { path = "w/skills/b.md"; mode = 420; size = pos 5 }
    ∷ []

archived : plan_archive lower skill (pos 5) ≡ ok entries
unfolding plan_archive refuse escape_reason has_code starts_with normpath normal_comps split
    normal_step last_is_parent pop_last initial_slashes has_collision group_paths get put has_marker
    root_marker elem before add_all inner_paths strip_prefix sorted_by str_leb
archived = refl

refused :
    map
      (λ files. plan_archive lower files (pos 5))
      ((file "SKILL.md" (negsuc 0) ∷ [])
        ∷ (file "SKILL.md" (pos 6) ∷ [])
        ∷ (file "a" (pos 1) ∷ file "./a" (pos 1) ∷ [])
        ∷ (file "x/../../SKILL.md" (pos 1) ∷ [])
        ∷ (file "readme.md" (pos 1) ∷ [])
        ∷ [])
    ≡ raise archive_error
      ∷ raise archive_error
      ∷ raise archive_error
      ∷ raise archive_error
      ∷ raise archive_layout_error
      ∷ []
unfolding plan_archive refuse escape_reason has_code starts_with normpath normal_comps split
    normal_step last_is_parent pop_last initial_slashes has_collision group_paths get put has_marker
    root_marker elem before add_all inner_paths strip_prefix sorted_by
refused = refl

plan_archive-IsArchive_example :
    All (λ e. IsMember e.path) entries
    × AreApart lower entries
    × IsSortedBy entry_leb entries
    × (leb_ℤ (total (λ e. e.size) entries) (pos 5) ≡ true)
plan_archive-IsArchive_example = plan_archive-IsArchive lower skill (pos 5) entries archived
