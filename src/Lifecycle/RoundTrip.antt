-- ===== src/Lifecycle/RoundTrip.antt =====
-- The reader inverts the writer.
use Prim.Native.Char.{Char}
use text.Mathlib.TextLemmas.{append_assoc}
use houba.Common.{ℕ, String, ◌≡◌, some, if◌then◌else◌}
use houba.Common.Chars.{is_empty}
use houba.Common.Dict.{get, put}
use houba.Common.Eq.{string_eq}
use houba.Common.Keys.{prefix_eq}
use houba.IsoTime.{IsoFormat}
use houba.Lifecycle.{
  MarkIdentity, build_pending_deletion_annotations, parse_marked_at, parse_pending_mark,
}

abbrev pub blank : MarkIdentity
blank = record { policy = ""; import_name = ""; variant = "" }

module _ (time : IsoFormat) where
  parse_marked_at-isoformat : (t : ℕ) → parse_marked_at time (some (time.isoformat t)) ≡ some t
  unfolding parse_marked_at
  parse_marked_at-isoformat t = rw (time.nonempty t, time.no_z t) (time.reads_back t)

  parse_pending_mark-build_named :
      (c : Char) (p image_ref reason : String) (marked_at : ℕ) (policy import_name variant : String)
      → parse_pending_mark time (String.◌∷◌ c p) image_ref (
          build_pending_deletion_annotations time
            (String.◌∷◌ c p)
            marked_at
            reason
            (record { policy = policy; import_name = import_name; variant = variant }))
        ≡ record {
          image_ref = image_ref;
          identity = record { policy = policy; import_name = import_name; variant = variant };
          marked_at = some marked_at;
          reason = reason;
        }
  unfolding parse_pending_mark build_pending_deletion_annotations get put
  parse_pending_mark-build_named c p image_ref reason marked_at policy import_name String.[] =
      simp (append_assoc, prefix_eq, parse_marked_at-isoformat marked_at)
  parse_pending_mark-build_named c p image_ref reason marked_at policy import_name
        (String.◌∷◌ d v) =
      simp (append_assoc, prefix_eq, parse_marked_at-isoformat marked_at)

  -- A mark that was written reads back to the same policy, import, variant, instant and reason;
  -- under an empty prefix the three names are not written, and read back empty.
  pub parse_pending_mark-build :
      (prefix image_ref reason : String) (marked_at : ℕ) (identity : MarkIdentity)
      → parse_pending_mark time prefix image_ref
          (build_pending_deletion_annotations time prefix marked_at reason identity)
        ≡ record {
          image_ref = image_ref;
          identity = if is_empty prefix then blank else identity;
          marked_at = some marked_at;
          reason = reason;
        }
  unfolding parse_pending_mark build_pending_deletion_annotations get put
  parse_pending_mark-build String.[] image_ref reason marked_at identity =
      simp (parse_marked_at-isoformat marked_at)
  parse_pending_mark-build (String.◌∷◌ c p) image_ref reason marked_at identity =
      parse_pending_mark-build_named c p image_ref reason marked_at identity.policy
        identity.import_name identity.variant
