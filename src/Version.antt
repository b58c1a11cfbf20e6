-- ===== src/Version.antt =====
-- internal/version/version.go: the version text. The information that the linker injected and the build
-- information of the Go runtime, `none` where there is none, are arguments.
pub mod Laws
mod Tests
use Prim.Native.String.{◌++◌ as ◌⧺◌, len, slice}
use rocm_llamacpp_envoy_ai_g.Prelude.{
  ℕ, String, Bool, true, false, not, ◌&&◌, Option, none, some, List, [], ◌∷◌, ◌==◌, ltb,
  if◌then◌else◌,
}

abbrev pub short_revision_length : ℕ
short_revision_length = 7

abbrev pub devel_version : String
devel_version = "devel"

-- The fields of the injected information that are read.
pub record VersionInfo : Type 0 where
  pub git_version : String
  pub git_commit : String

-- debug.BuildSetting: the key and the value.
abbrev pub BuildSetting : Type 0
BuildSetting = String × String

unfoldable pub get_revision_from_settings : List BuildSetting → String
get_revision_from_settings [] = ""
get_revision_from_settings ((key, value) ∷ settings) =
    let rest = get_revision_from_settings settings in if key == "vcs.revision" then value else rest

unfoldable pub is_dirty_from_settings : List BuildSetting → Bool
is_dirty_from_settings [] = false
is_dirty_from_settings ((key, value) ∷ settings) =
    let rest = is_dirty_from_settings settings in
    if key == "vcs.modified" then value == "true" else rest

abbrev pub short_revision : String → String
short_revision rev =
    if ltb short_revision_length (len rev) then slice rev 0 short_revision_length else rev

abbrev pub version_of : String → Bool → String
version_of rev dirty =
    if rev == ""
    then devel_version
    else if dirty
    then short_revision rev ⧺ "-dirty"
    else short_revision rev

unfoldable pub get_version_from_build_info : Option (List BuildSetting) → String
unfolding get_revision_from_settings is_dirty_from_settings
get_version_from_build_info none = devel_version
get_version_from_build_info (some settings) =
    version_of (get_revision_from_settings settings) (is_dirty_from_settings settings)

unfoldable pub get_version : VersionInfo → Option (List BuildSetting) → String
unfolding get_version_from_build_info
get_version info build =
    if not (info.git_version == "") && not (info.git_version == devel_version)
    then info.git_version
    else get_version_from_build_info build

-- The loop of GetGitCommit, and what it returns after it.
unfoldable pub commit_of : List BuildSetting → String
commit_of [] = "unknown"
commit_of ((key, value) ∷ settings) =
    let rest = commit_of settings in if key == "vcs.revision" then value else rest

abbrev pub build_commit : Option (List BuildSetting) → String
build_commit none = "unknown"
build_commit (some settings) = commit_of settings

unfoldable pub get_git_commit : VersionInfo → Option (List BuildSetting) → String
unfolding commit_of
get_git_commit info build =
    if not (info.git_commit == "") then info.git_commit else build_commit build

-- The loop of IsDirty is that of isDirtyFromSettings.
unfoldable pub is_dirty : Option (List BuildSetting) → Bool
unfolding is_dirty_from_settings
is_dirty none = false
is_dirty (some settings) = is_dirty_from_settings settings
