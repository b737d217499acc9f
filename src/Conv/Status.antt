-- ===== src/Conv/Status.antt =====
-- gp_conv_err_to_gssx_string and gp_conv_status_to_gssx of src/gp_conv.c.
use gssproxy.Prelude.{
  ℕ, ◌+◌, List, [], ◌∷◌, ◌++◌, Bool, if◌then◌else◌, length, ◌==◌, Option, none, some, Errno, enomem,
  einval, Result, ok, err,
}
use gssproxy.Creds.Allowed.{until_nul}
use gssproxy.Export.Names.{oid_to_gssx}
use gssproxy.Export.Handle.{wide}
use gssproxy.Wire.Filter.{UInt}
use gssproxy.Wire.Types.{GssxOid, GssxStatus}

-- What a call of gss_display_status gives: a message, and whether msg_ctx says that there are more; or
-- an error.
pub data Displayed : Type 0 where
  message : List ℕ → Bool → Displayed
  undisplayed : Displayed

-- What the function returns: 0 and the string, an error number, or the result of an asprintf, which is
-- the length of what it has printed; `unanswered` is a call of gss_display_status that has not returned.
pub data Text : Type 0 where
  text : List ℕ → Text
  failed : Errno → Text
  printed : ℕ → Text
  unanswered : Text

-- The status, or what the function returns in its place.
pub data Converted : Type 0 where
  converted : GssxStatus → Converted
  not_converted : Text → Converted

-- The string that asprintf makes of two, with ", " between them.
abbrev pub joined : List ℕ → List ℕ → List ℕ
joined str msg = str ++ 44 ∷ 32 ∷ until_nul msg

module _ (malloc : ℕ → Bool) where
  -- `ret` after asprintf, which `if (ret)` behind it takes for an error.
  unfoldable pub after_asprintf : List ℕ → Bool → Text → Text
  after_asprintf str room again =
      if room then (if length str == 0 then again else printed (length str)) else failed enomem

  -- The do loop, with the string so far.
  unfoldable pub display : Option (List ℕ) → List Displayed → Text
  unfolding after_asprintf until_nul
  display str [] = unanswered
  display str (undisplayed ∷ rest) = failed einval
  display none (message msg more ∷ rest) =
      let further = display (some (until_nul msg)) rest in
      if malloc (length (until_nul msg) + 1)
      then (if more then further else text (until_nul msg ++ 0 ∷ []))
      else failed enomem
  display (some str) (message msg more ∷ rest) =
      let further = display (some (joined str msg)) rest in
      after_asprintf (joined str msg) (malloc (length (joined str msg) + 1))
        (if more then further else text (joined str msg ++ 0 ∷ []))

  -- gp_conv_err_to_gssx_string, for the results of gss_display_status one after the other
  unfoldable pub err_to_gssx_string : List Displayed → Text
  unfolding display
  err_to_gssx_string displayed = display none displayed

  -- The string of a status, which 0 has not.
  unfoldable pub status_string : UInt 32 → List Displayed → Text
  unfolding err_to_gssx_string
  status_string (n, small) displayed = if n == 0 then text [] else err_to_gssx_string displayed

  unfoldable pub with_strings : UInt 32 → UInt 32 → GssxOid → Text → Text → Converted
  with_strings maj min mech (text major) (text minor) = converted record {
    major_status = wide maj;
    mech = mech;
    minor_status = wide min;
    major_status_string = major;
    minor_status_string = minor;
    server_ctx = [];
    options = [];
  }
  with_strings maj min mech (text major) t = not_converted t
  with_strings maj min mech t minor = not_converted t

  unfoldable pub with_mech :
      UInt 32 → UInt 32 → Result GssxOid → List Displayed → List Displayed → Converted
  unfolding with_strings status_string
  with_mech maj min (err e) majors minors = not_converted (failed e)
  with_mech maj min (ok mech) majors minors =
      with_strings maj min mech (status_string maj majors) (status_string min minors)

  -- gp_conv_status_to_gssx, with what gss_display_status gives for the major and for the minor status
  unfoldable pub status_to_gssx :
      UInt 32 → UInt 32 → Option (List ℕ) → List Displayed → List Displayed → Converted
  unfolding with_mech oid_to_gssx
  status_to_gssx maj min mech majors minors =
      with_mech maj min (oid_to_gssx malloc mech) majors minors
