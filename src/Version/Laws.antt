-- ===== src/Version/Laws.antt =====
-- How the version, the commit and the dirty flag agree (internal/version/version.go).
use Prim.Native.String.{◌++◌ as ◌⧺◌, len, slice}
use rocm_llamacpp_envoy_ai_g.Prelude.{String, ◌≡◌, List, ◌⊎◌, ltb, if◌then◌else◌}
use rocm_llamacpp_envoy_ai_g.Version.{VersionInfo, BuildSetting, get_revision_from_settings}

-- The first seven bytes of a commit, or all of it.
abbrev pub abbreviated : String → String
abbreviated commit = if ltb 7 (len commit) then slice commit 0 7 else commit

-- The version information without a version: the linker has injected none, which release-utils reports
-- as "devel"; its commit is then that of the build, or empty.
pub record NotInjected (info : VersionInfo) (settings : List BuildSetting) : Type 0 where
  pub no_version : (info.git_version ≡ "") ⊎ (info.git_version ≡ "devel")
  pub commit_of_build :
      (info.git_commit ≡ "") ⊎ (info.git_commit ≡ get_revision_from_settings settings)
