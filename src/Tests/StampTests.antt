-- ===== src/Tests/StampTests.antt =====
-- Runs of knock/domain/stamp.py and knock/domain/coverage.py.
use houba.Common.{ℕ, String, ◌≡◌, refl, none, some, [], ◌∷◌}
use houba.Common.Dict.{get}
use houba.Common.Eq.{string_eq}
use houba.Common.Parts.{after_last, has_code}
use houba.Stamp.{
  base_digest_key, Lineage, ImageOrigin, GitOrigin, TransformStamp, build_stamp_annotations,
  build_git_stamp_annotations, short_name,
}
use houba.Stamp.Covered.{build_stamp-base_digest, IsGitOutcome, build_git_stamp-outcome}

abbrev iso : ℕ → String
iso t = "2026-01-01T00:00:00+00:00"

abbrev lineage : Lineage
lineage = record {
  owners = some ("team-a" ∷ "team-b" ∷ []);
  artifact_type = "image";
  policy = "nginx";
  import_name = "stable";
  variant = "hardened";
}

abbrev origin : ImageOrigin
origin = record {
  source_registry = "docker.io";
  source_repository = "library/nginx";
  source_tag = "1.27";
  source_digest = "sha256:aa";
  source_revision = some "0f3c";
}

abbrev rebuilt : TransformStamp
rebuilt = record {
  transform_steps = some ("inject-ca" ∷ "rewrite" ∷ []);
  transform_version_value = some "v1";
}

abbrev git_origin : GitOrigin
git_origin = record { url = "https://git/x.git"; revision = "9e1c"; title = "skill" }

short_name_test : short_name "library/nginx" ≡ "nginx"
unfolding short_name after_last has_code
short_name_test = refl

build_stamp-base_digest_example :
    get base_digest_key
      (build_stamp_annotations iso "io.knock" origin 0 (some "acme") lineage rebuilt)
    ≡ some "sha256:aa"
build_stamp-base_digest_example =
    build_stamp-base_digest iso "io.knock" origin 0 (some "acme") lineage rebuilt

build_git_stamp-outcome_example :
    IsGitOutcome "io.knock" git_origin lineage
      (build_git_stamp_annotations iso "io.knock" git_origin 0 none lineage)
build_git_stamp-outcome_example = build_git_stamp-outcome iso "io.knock" git_origin 0 none lineage
