-- ===== src/Version/Tests.antt =====
-- A build from a modified tree (internal/version/version.go).
use Prim.Native.String.{◌++◌ as ◌⧺◌}
use rocm_llamacpp_envoy_ai_g.Prelude.{◌≡◌, refl, some, List, [], ◌∷◌}
use rocm_llamacpp_envoy_ai_g.Version.{
  VersionInfo, BuildSetting, get_revision_from_settings, is_dirty_from_settings, get_version,
}

abbrev not_injected : VersionInfo
not_injected = record { git_version = "devel"; git_commit = "0123456789abcdef" }

abbrev settings : List BuildSetting
settings = ("vcs.revision", "0123456789abcdef") ∷ ("vcs.modified", "true") ∷ []

shortened : get_version not_injected (some settings) ≡ "0123456-dirty"
unfolding get_version is_dirty_from_settings get_revision_from_settings
shortened = refl
