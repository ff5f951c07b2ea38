-- ===== src/Config.antt =====
-- knock/config.py: the roster of registries and its lookups. Only the fields that the modelled
-- code reads are here.
pub mod Match
use houba.Common.{String, Bool, Option, none, some, List, [], ◌∷◌, is_none, is_some}
use houba.Common.Dict.{Dict, get}
use houba.Common.Eq.{string_eq}
use houba.Common.Parts.{before, after}
use houba.Errors.{Result, ok, raise, config_error, ◌>>=◌}
use houba.Policy.{DeletionMode}

pub record RegistryConfig : Type 0 where
  pub host : String
  pub username : Option String
  pub password : Option String
  pub tls_verify : Bool
  pub ca_cert : Option String
  pub deletion_mode : Option DeletionMode

-- `self.host.split("/", 1)[0]`
unfoldable pub registry_host : RegistryConfig → String
unfolding before
registry_host cfg = before b'/' cfg.host

-- `self.host.partition("/")[2]`
unfoldable pub path_prefix : RegistryConfig → String
unfolding after
path_prefix cfg = after b'/' cfg.host

abbrev pub Roster : Type 0
Roster = Dict String RegistryConfig

abbrev pub found_or_config_error : String → Option RegistryConfig → Result (String × RegistryConfig)
found_or_config_error name none = raise config_error
found_or_config_error name (some cfg) = ok (name, cfg)

unfoldable pub resolve_registry : Option String → Roster → Result (String × RegistryConfig)
unfolding get
resolve_registry (some name) roster = found_or_config_error name (get name roster)
resolve_registry none (only ∷ []) = ok only
resolve_registry none _ = raise config_error

-- `CACertSource` and `PackageMirror`, with the validators that refuse a value.
pub record CaCertSource : Type 0 where
  pub path : Option String
  pub pem : Option String

unfoldable pub exactly_one : CaCertSource → Bool
exactly_one source = elim source.path [ none ↦ is_some source.pem | some path ↦ is_none source.pem ]

pub record PackageMirror : Type 0 where
  pub apt : Option String
  pub apk : Option String

unfoldable pub resolve_ca_certs :
    List String → Dict String CaCertSource → Result (List (String × CaCertSource))
unfolding get
resolve_ca_certs [] roster = ok []
resolve_ca_certs (name ∷ names) roster = elim (get name roster) [
  | none ↦ raise config_error
  | some source ↦ (do out ← resolve_ca_certs names roster; ok ((name, source) ∷ out))
]

unfoldable pub resolve_mirror : String → Dict String PackageMirror → Result PackageMirror
unfolding get
resolve_mirror name roster = elim (get name roster) [
  | none ↦ raise config_error
  | some mirror ↦ ok mirror
]
