-- ===== src/Packaging/Planned.antt =====
-- What `plan_archive` of knock/domain/packaging.py lets into an archive.
use houba.Common.{
  ℕ, String, ◌≡◌, refl, ◌∙◌, subst, Bool, true, false, Option, none, some, List, [], ◌∷◌, map, any,
  All, AllPairs, arith, sum_by, All-map, AllPairs-map, AllPairs-of_map, sum_by-map,
}
use houba.Common.Eq.{string_eq}
use houba.Common.Int.{ℤ, pos_part, neg_part, ltb_ℤ, leb_ℤ}
use houba.Common.Order.{
  sorted_by, All-sorted_by, AllPairs-sorted_by, sorted_by-IsSortedBy, IsSortedBy, sum_by-sorted_by,
}
use houba.Common.Text.{◌==◌, eq_iff, str_leb, str_leb_total, str_leb_trans}
use houba.Errors.{Result, ok, ErrorClass}
use houba.Session.Stages.{Returns}
use houba.Packaging.{
  SourceFile, ArchiveEntry, normpath, escape_reason, is_backslash, is_escape, Reason, backslash,
  escapes, refuse, entry_of, path_leb, total, has_collision, plan_archive,
}
use houba.Packaging.Members.{IsMember, normpath-IsMember}
use houba.Packaging.Distinct.{has_collision-AreDistinct}

abbrev Pair : Type 0
Pair = SourceFile × String

abbrev normalised : List SourceFile → List Pair
normalised files = map (λ file. (file, normpath file.path)) files

-- A refusal that did not happen.
module _ {ℓ} {A : Type ℓ} where
  let_through :
      (b : Bool) (exc : ErrorClass) (rest : Result A) (value : A)
      → refuse b exc rest ≡ ok value
      → (b ≡ false) × (rest ≡ ok value)
  unfolding refuse
  let_through true exc rest value e = cc
  let_through false exc rest value e = (refl, e)

no_reason : (o : Option Reason) → is_backslash o ≡ false → is_escape o ≡ false → o ≡ none
no_reason none h k = refl
no_reason (some backslash) h k = cc
no_reason (some escapes) h k = cc

files-AreMembers :
    (files : List SourceFile)
    → any (λ file. is_backslash (escape_reason file.path)) files ≡ false
    → any (λ file. is_escape (escape_reason file.path)) files ≡ false
    → All (λ file. IsMember (normpath file.path)) files
files-AreMembers [] h k = tt
files-AreMembers (f ∷ files) h k = (
  normpath-IsMember f.path (no_reason (escape_reason f.path) (ground (arith)) (ground (arith))),
  files-AreMembers files (ground (arith)) (ground (arith)),
)

-- A sum over the planned entries is the sum over the files.
entries_sum :
    (part : ℤ → ℕ) (files : List SourceFile)
    → sum_by (λ e. part e.size) (map entry_of (sorted_by path_leb (normalised files)))
      ≡ sum_by (λ file. part file.size) files
entries_sum part files =
    sum_by-map entry_of (λ e. part e.size) (sorted_by path_leb (normalised files))
    ∙ (sum_by-sorted_by path_leb (λ pair. part pair.0.size) (normalised files)
        ∙ sum_by-map (λ file. (file, normpath file.path)) (λ pair. part pair.0.size) files)

abbrev pub entry_leb : ArchiveEntry → ArchiveEntry → Bool
entry_leb a b = str_leb a.path b.path

module _ (lower : String → String) where
  -- No two entries that a file system without case would take for one.
  abbrev pub AreApart : List ArchiveEntry → Type 0
  AreApart = AllPairs (λ a b. (lower b.path == lower a.path) ≡ false)

  entries_apart :
      (files : List SourceFile)
      → has_collision lower (map (λ pair. pair.1) (normalised files)) ≡ false
      → AreApart (map entry_of (sorted_by path_leb (normalised files)))
  entries_apart files h =
      AllPairs-map entry_of (λ a b. (lower b.path == lower a.path) ≡ false)
        (sorted_by path_leb (normalised files))
        (AllPairs-sorted_by path_leb (λ a b. (lower b.1 == lower a.1) ≡ false)
          (λ a b k. ground (arith, eq_iff (lower a.1) (lower b.1), eq_iff (lower b.1) (lower a.1)))
          (normalised files)
          (AllPairs-of_map (λ pair. pair.1) (λ a b. (lower b == lower a) ≡ false) (normalised files)
            (has_collision-AreDistinct lower (map (λ pair. pair.1) (normalised files)) h)))

  entries_sorted :
      (pairs : List Pair) → IsSortedBy entry_leb (map entry_of (sorted_by path_leb pairs))
  entries_sorted pairs =
      AllPairs-map entry_of (λ a b. entry_leb a b ≡ true) (sorted_by path_leb pairs)
        (sorted_by-IsSortedBy path_leb (λ a b. str_leb_total a.1 b.1)
          (λ a b c. str_leb_trans a.1 b.1 c.1) pairs)

  -- What an archive may hold.
  abbrev IsArchive : ℤ → List ArchiveEntry → Type 0
  IsArchive max_bytes entries =
      All (λ e. IsMember e.path) entries
      × AreApart entries
      × IsSortedBy entry_leb entries
      × (leb_ℤ (total (λ e. e.size) entries) max_bytes ≡ true)

  entries-IsArchive :
      (files : List SourceFile) (max_bytes : ℤ)
      → All (λ file. IsMember (normpath file.path)) files
      → has_collision lower (map (λ pair. pair.1) (normalised files)) ≡ false
      → ltb_ℤ max_bytes (total (λ file. file.size) files) ≡ false
      → IsArchive max_bytes (map entry_of (sorted_by path_leb (normalised files)))
  entries-IsArchive files max_bytes members apart bound = (
    All-map entry_of (λ e. IsMember e.path) (sorted_by path_leb (normalised files))
        (All-sorted_by path_leb (λ pair. IsMember pair.1) (normalised files)
          (All-map (λ file. (file, normpath file.path)) (λ pair. IsMember pair.1) files members)),
    entries_apart files apart,
    entries_sorted (normalised files),
    rw (entries_sum pos_part files, entries_sum neg_part files) (ground (arith, bound)),
  )

  -- An archive that is planned holds only members under its root: each path is one or more plain
  -- names, neither empty nor `.` nor `..` and without a backslash, joined by slashes. No two paths
  -- are the same in lower case, the entries are sorted by their paths, and their sizes are together
  -- within the bound.
  pub plan_archive-IsArchive :
      (files : List SourceFile) (max_bytes : ℤ) (entries : List ArchiveEntry)
      → plan_archive lower files max_bytes ≡ ok entries
      → All (λ e. IsMember e.path) entries
        × AreApart entries
        × IsSortedBy entry_leb entries
        × (leb_ℤ (total (λ e. e.size) entries) max_bytes ≡ true)
  unfolding plan_archive
  plan_archive-IsArchive files max_bytes entries e =
      let (sized, e₁) = let_through _ _ _ entries e in
      let (unlinked, e₂) = let_through _ _ _ entries e₁ in
      let (slashed, e₃) = let_through _ _ _ entries e₂ in
      let (inside, e₄) = let_through _ _ _ entries e₃ in
      let (apart, e₅) = let_through _ _ _ entries e₄ in
      let (bound, e₆) = let_through _ _ _ entries e₅ in
      let (marked, e₇) = let_through _ _ _ entries e₆ in
      subst (Returns (IsArchive max_bytes)) e₇
        (entries-IsArchive files max_bytes (files-AreMembers files slashed inside) apart bound)
