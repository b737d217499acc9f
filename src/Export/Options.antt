-- ===== src/Export/Options.antt =====
-- gp_get_export_creds_type and gp_export_creds_to_gssx_options of src/gp_export.c.
use gssproxy.Prelude.{
  ℕ, List, [], ◌∷◌, ◌++◌, Bool, if◌then◌else◌, Option, none, some, length, enoent, enomem, einval,
}
use gssproxy.Creds.Options.{options_find, string_match}
use gssproxy.Export.Linux.{
  NssCalls, Local, Exported, exported, refused, waiting, export_creds_linux,
}
use gssproxy.Gss.Status.{Major, failure, Minor, errno}
use gssproxy.Wire.Types.{GssxOption}

-- EXP_CREDS_TYPE_OPTION and LINUX_CREDS_V1, as sizeof counts them: with the NUL.
abbrev pub exp_creds_type_option : List ℕ
exp_creds_type_option =
    101 ∷ 120 ∷ 112 ∷ 111 ∷ 114 ∷ 116 ∷ 101 ∷ 100 ∷ 95 ∷ 99 ∷ 114 ∷ 101 ∷ 100 ∷ 115 ∷ 95 ∷ 116 ∷ 121
    ∷ 112 ∷ 101 ∷ 0 ∷ []

abbrev pub linux_creds_v1 : List ℕ
linux_creds_v1 =
    108 ∷ 105 ∷ 110 ∷ 117 ∷ 120 ∷ 95 ∷ 99 ∷ 114 ∷ 101 ∷ 100 ∷ 115 ∷ 95 ∷ 118 ∷ 49 ∷ 0 ∷ []

-- enum exp_creds_types; `creds_invalid` is -1.
pub data CredsType : Type 0 where
  no_creds linux_v1 creds_invalid : CredsType

unfoldable pub creds_type_of : Option GssxOption → CredsType
unfolding string_match
creds_type_of none = no_creds
creds_type_of (some val) = if string_match val.value linux_creds_v1 then linux_v1 else creds_invalid

-- gp_get_export_creds_type
unfoldable pub get_export_creds_type : List GssxOption → CredsType
unfolding creds_type_of options_find
get_export_creds_type options = creds_type_of (options_find options exp_creds_type_option)

-- The options after the function, or its two statuses.
pub data Added : Type 0 where
  added : List GssxOption → Added
  not_added : Major → Minor → Added
  not_yet : Added

module _ (nss : NssCalls) (realloc_ok : Bool) where
  -- What follows the export, which for a client that is no user adds nothing.
  unfoldable pub add_exported : List GssxOption → Exported → Added
  add_exported options (exported buffer) =
      if realloc_ok
      then (if nss.malloc (length linux_creds_v1)
          then added (options ++ record { option = linux_creds_v1; value = buffer } ∷ [])
          else not_added failure (errno enomem))
      else not_added failure (errno enomem)
  add_exported options (refused maj (errno enoent)) = added options
  add_exported options (refused maj min) = not_added maj min
  add_exported options waiting = not_yet

  -- gp_export_creds_to_gssx_options
  unfoldable pub export_creds_to_gssx_options : CredsType → Local → List GssxOption → Added
  unfolding add_exported export_creds_linux
  export_creds_to_gssx_options no_creds l options = added options
  export_creds_to_gssx_options linux_v1 l options = add_exported options (export_creds_linux nss l)
  export_creds_to_gssx_options creds_invalid l options = not_added failure (errno einval)
