-- ===== src/Lifecycle.antt =====
-- knock/domain/lifecycle.py: the pending-deletion mark, written as annotations and read back.
pub mod RoundTrip
use houba.Common.{ℕ, String, Bool, Option, none, some, List, [], ◌∷◌, if◌then◌else◌}
use houba.Common.Chars.{is_empty}
use houba.Common.Dict.{Dict, get, put}
use houba.Common.Eq.{string_eq}
use houba.Common.Keys.{◌⊕◌}
use houba.IsoTime.{IsoFormat, replace_z}

abbrev pub pending_deletion_artifact_type : String
pending_deletion_artifact_type = "application/vnd.knock.lifecycle.pending+json"

pub record MarkIdentity : Type 0 where
  pub policy : String
  pub import_name : String
  pub variant : String

pub record MarkedCandidate : Type 0 where
  pub image_ref : String
  pub identity : MarkIdentity
  pub marked_at : Option ℕ
  pub reason : String

-- `f"{prefix}.lifecycle" if prefix else "lifecycle"`
abbrev pub lifecycle : String → String
lifecycle prefix = if is_empty prefix then "lifecycle" else prefix ⊕ ".lifecycle"

abbrev pub text_or : String → Option String → String
text_or default none = default
text_or default (some value) = value

-- `{prefix}.{suffix}` with the empty-prefix collapse (`_key`).
abbrev pub key : String → String → String
key prefix suffix = if is_empty prefix then suffix else prefix ⊕ ("." ⊕ suffix)

module _ (time : IsoFormat) where
  unfoldable pub build_pending_deletion_annotations :
      String → ℕ → String → MarkIdentity → Dict String String
  unfolding put
  build_pending_deletion_annotations prefix marked_at reason identity =
      let lc = lifecycle prefix in
      let marks : Dict String String =
        (lc ⊕ ".state", "pending-deletion")
        ∷ (lc ⊕ ".marked-at", time.isoformat marked_at)
        ∷ (lc ⊕ ".reason", reason)
        ∷ [] in
      if is_empty prefix
      then marks
      else let named =
          put (prefix ⊕ ".import") identity.import_name
            (put (prefix ⊕ ".policy") identity.policy marks) in
        if is_empty identity.variant
        then named
        else put (prefix ⊕ ".variant") identity.variant named

  -- `_parse_marked_at`
  unfoldable pub parse_marked_at : Option String → Option ℕ
  unfolding replace_z
  parse_marked_at none = none
  parse_marked_at (some value) =
      if is_empty value then none else time.fromisoformat (replace_z value)

  unfoldable pub parse_pending_mark : String → String → Dict String String → MarkedCandidate
  unfolding get parse_marked_at
  parse_pending_mark prefix image_ref annotations = record {
    image_ref = image_ref;
    identity = record {
      policy = text_or "" (get (key prefix "policy") annotations);
      import_name = text_or "" (get (key prefix "import") annotations);
      variant = text_or "" (get (key prefix "variant") annotations);
    };
    marked_at = parse_marked_at (get (key prefix "lifecycle.marked-at") annotations);
    reason = text_or "" (get (key prefix "lifecycle.reason") annotations);
  }
