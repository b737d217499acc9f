-- ===== src/Wire/Zeros.antt =====
-- What memset leaves of the results: src/gp_rpc_process.c, gp_rpc_process_call.
use gssproxy.Prelude.{[], none, arith}
use gssproxy.Wire.Filter.{UInt}
use gssproxy.Wire.Types.{GssxStatus, GssxCallCtx}
use gssproxy.Wire.Args.{GssxArgIndicateMechs}
use gssproxy.Wire.Results.{
  GssxResReleaseHandle, GssxResIndicateMechs, GssxResImportAndCanonName, GssxResGetCallContext,
  GssxResAcquireCred, GssxResExportCred, GssxResImportCred, GssxResStoreCred, GssxResInitSecContext,
  GssxResAcceptSecContext, GssxResGetMic, GssxResVerifyMic, GssxResWrap, GssxResUnwrap,
  GssxResWrapSizeLimit,
}

abbrev pub zero64 : UInt 64
zero64 = (0, omega arith)

abbrev pub zero32 : UInt 32
zero32 = (0, omega arith)

abbrev pub zero_status : GssxStatus
zero_status = record {
  major_status = zero64;
  mech = [];
  minor_status = zero64;
  major_status_string = [];
  minor_status_string = [];
  server_ctx = [];
  options = [];
}

abbrev pub zero_call_ctx : GssxCallCtx
zero_call_ctx = record { locale = []; server_ctx = []; options = [] }

abbrev pub zero_arg_indicate_mechs : GssxArgIndicateMechs
zero_arg_indicate_mechs = record { call_ctx = zero_call_ctx }

abbrev pub zero_res_indicate_mechs : GssxResIndicateMechs
zero_res_indicate_mechs = record {
  status = zero_status;
  mechs = [];
  mech_attr_descs = [];
  supported_extensions = [];
  extensions = [];
}

abbrev pub zero_res_get_call_context : GssxResGetCallContext
zero_res_get_call_context = record { status = zero_status; server_call_ctx = []; options = [] }

abbrev pub zero_res_import_and_canon_name : GssxResImportAndCanonName
zero_res_import_and_canon_name = record { status = zero_status; output_name = none; options = [] }

abbrev pub zero_res_export_cred : GssxResExportCred
zero_res_export_cred = record {
  status = zero_status;
  usage_exported = zero32;
  exported_handle = none;
  options = [];
}

abbrev pub zero_res_import_cred : GssxResImportCred
zero_res_import_cred = record { status = zero_status; output_cred_handle = none; options = [] }

abbrev pub zero_res_acquire_cred : GssxResAcquireCred
zero_res_acquire_cred = record { status = zero_status; output_cred_handle = none; options = [] }

abbrev pub zero_res_store_cred : GssxResStoreCred
zero_res_store_cred = record {
  status = zero_status;
  elements_stored = [];
  cred_usage_stored = zero32;
  options = [];
}

abbrev pub zero_res_init_sec_context : GssxResInitSecContext
zero_res_init_sec_context = record {
  status = zero_status;
  context_handle = none;
  output_token = none;
  options = [];
}

abbrev pub zero_res_accept_sec_context : GssxResAcceptSecContext
zero_res_accept_sec_context = record {
  status = zero_status;
  context_handle = none;
  output_token = none;
  delegated_cred_handle = none;
  options = [];
}

abbrev pub zero_res_release_handle : GssxResReleaseHandle
zero_res_release_handle = record { status = zero_status }

abbrev pub zero_res_get_mic : GssxResGetMic
zero_res_get_mic = record {
  status = zero_status;
  context_handle = none;
  token_buffer = [];
  qop_state = none;
}

abbrev pub zero_res_verify_mic : GssxResVerifyMic
zero_res_verify_mic = record { status = zero_status; context_handle = none; qop_state = none }

abbrev pub zero_res_wrap : GssxResWrap
zero_res_wrap = record {
  status = zero_status;
  context_handle = none;
  token_buffer = [];
  conf_state = none;
  qop_state = none;
}

abbrev pub zero_res_unwrap : GssxResUnwrap
zero_res_unwrap = record {
  status = zero_status;
  context_handle = none;
  message_buffer = [];
  conf_state = none;
  qop_state = none;
}

abbrev pub zero_res_wrap_size_limit : GssxResWrapSizeLimit
zero_res_wrap_size_limit = record { status = zero_status; max_input_size = zero64 }
