-- ===== src/Tests/Messages.antt =====
-- Statuses with one message and with two: src/gp_conv.c.
use gssproxy.Prelude.{◌≡◌, ◌≢◌, refl, [], ◌∷◌, true, false, none, arith}
use gssproxy.Conv.Status.{
  message, text, printed, converted, not_converted, after_asprintf, display, err_to_gssx_string,
  status_string, with_strings, with_mech, status_to_gssx,
}
use gssproxy.Conv.Messages.{status_to_gssx_fails}
use gssproxy.Creds.Allowed.{until_nul}
use gssproxy.Export.Names.{oid_to_gssx, conv_octet_string}
use gssproxy.Wire.Filter.{UInt}
use gssproxy.Wire.Types.{GssxStatus}
use gssproxy.Tests.Exports.{all_there}

abbrev no_status : UInt 32
no_status = (0, omega arith)

abbrev gss_s_failure : UInt 32
gss_s_failure = (851968, omega arith)

abbrev reported : GssxStatus
reported = record {
  major_status = (851968, omega arith);
  mech = [];
  minor_status = (0, omega arith);
  major_status_string = 72 ∷ 105 ∷ 0 ∷ [];
  minor_status_string = [];
  server_ctx = [];
  options = [];
}

-- One message is the string, with its NUL.
one : err_to_gssx_string all_there (message (72 ∷ 105 ∷ []) false ∷ []) ≡ text (72 ∷ 105 ∷ 0 ∷ [])
unfolding err_to_gssx_string display until_nul
one = refl

-- Two messages give the length of "Hi, Ho".
two :
    status_to_gssx all_there gss_s_failure no_status none
      (message (72 ∷ 105 ∷ []) true ∷ message (72 ∷ 111 ∷ []) false ∷ [])
      []
    ≡ not_converted (printed 6)
unfolding status_to_gssx with_mech with_strings status_string err_to_gssx_string display
    after_asprintf until_nul oid_to_gssx conv_octet_string
two = refl

status_to_gssx_fails_example :
    status_to_gssx all_there gss_s_failure no_status none
      (message (72 ∷ 105 ∷ []) true ∷ message (72 ∷ 111 ∷ []) false ∷ [])
      []
    ≢ converted reported
status_to_gssx_fails_example =
    status_to_gssx_fails all_there gss_s_failure no_status none (72 ∷ 105 ∷ []) (72 ∷ 111 ∷ [])
      false [] [] reported (ground arith)
