-- ===== src/Tests/PolicyTests.antt =====
-- Runs of knock/domain/policy_merge.py and of the rules of knock/domain/mirror_policy.py.
use houba.Common.{ℕ, count_if, arith, String, ◌≡◌, refl, true, none, some, List, [], ◌∷◌}
use houba.Errors.{is_ok}
use houba.Sharding.{owns}
use houba.Sharding.Owners.{shards, owns-exactly_one}
use houba.Policy.{generic, registry_source, TagSelection, TransformStep, ImportProfile, Spec}
use houba.Merge.{ResolvedImport, resolve_imports}
use houba.Merge.Accepted.{resolve_imports_variants_unchecked}

abbrev every_tag : TagSelection
every_tag = record {
  include_regex = none;
  exclude_regex = [];
  semver_only = true;
  names = [];
  aliases = [];
  fields_set = [];
}

abbrev step : TransformStep
step = record { name = "injectCA"; params = [] }

-- Two platforms, and a variant with a transform of its own.
abbrev charts : ImportProfile
charts = record {
  name = "charts";
  tags = every_tag;
  destinations = none;
  transform = none;
  archive = none;
  platforms = some ("linux/amd64" ∷ "linux/arm64" ∷ []);
  variants = some (record { name = "eu"; suffix = "-eu"; transform = some (step ∷ []) } ∷ []);
  owners = none;
  vendor = none;
}

abbrev spec : Spec
spec = record {
  artifact_type = generic;
  source = registry_source "docker.io" "acme/charts";
  deletion_mode = none;
  defaults = none;
  imports = charts ∷ [];
}

abbrev resolved : List ResolvedImport
resolved =
    record {
      name = "charts";
      tags = every_tag;
      destinations = none;
      transform = [];
      archive = none;
      platforms = some ("linux/amd64" ∷ "linux/arm64" ∷ []);
      variants = some (record { name = "eu"; suffix = "-eu"; transform = some (step ∷ []) } ∷ []);
      owners = none;
      vendor = none;
    }
    ∷ []

resolve_imports_variants_unchecked_example : is_ok (resolve_imports spec) ≡ true
resolve_imports_variants_unchecked_example = resolve_imports_variants_unchecked spec refl refl

abbrev digest_of : String → List ℕ
digest_of name = 1 ∷ 2 ∷ 3 ∷ 4 ∷ 5 ∷ 6 ∷ 7 ∷ 8 ∷ 9 ∷ []

owns-exactly_one_example : count_if (λ i. owns digest_of "nginx" i 3) (shards 3) ≡ 1
owns-exactly_one_example = owns-exactly_one digest_of "nginx" 3 (omega arith)
