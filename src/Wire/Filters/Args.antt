-- ===== src/Wire/Filters/Args.antt =====
-- The filters of the arguments: rpcgen/gss_proxy_xdr.c.
use gssproxy.Wire.Filter.{Filter, XdrLib, on, ◌⊙◌, ◌⊛◌, struct}
use gssproxy.Wire.Args.{
  GssxArgReleaseHandle, GssxArgIndicateMechs, GssxArgImportAndCanonName, GssxArgGetCallContext,
  GssxArgAcquireCred, GssxArgExportCred, GssxArgImportCred, GssxArgStoreCred, GssxArgInitSecContext,
  GssxArgAcceptSecContext, GssxArgGetMic, GssxArgVerifyMic, GssxArgWrap, GssxArgUnwrap,
  GssxArgWrapSizeLimit,
}
use gssproxy.Wire.Filters.Basics.{
  xdr_octet_string, xdr_gssx_uint64, xdr_gssx_qop, xdr_gssx_buffer, xdr_gssx_oid, xdr_gssx_oid_set,
  xdr_gssx_cred_usage, xdr_gssx_time, xdr_gssx_handle, xdr_gssx_option, xdr_gssx_name_attr,
  xdr_gssx_call_ctx, xdr_gssx_name, xdr_gssx_cred, xdr_gssx_ctx, xdr_gssx_cb,
}

module _ (lib : XdrLib) where
  unfoldable pub xdr_gssx_arg_release_handle : Filter GssxArgReleaseHandle
  xdr_gssx_arg_release_handle = struct (
      (λ a b. record { call_ctx = a; cred_handle = b })
      ⊙ on (λ v. v.call_ctx) (xdr_gssx_call_ctx lib)
      ⊛ on (λ v. v.cred_handle) (xdr_gssx_handle lib))

  unfoldable pub xdr_gssx_arg_indicate_mechs : Filter GssxArgIndicateMechs
  xdr_gssx_arg_indicate_mechs =
      struct ((λ a. record { call_ctx = a }) ⊙ on (λ v. v.call_ctx) (xdr_gssx_call_ctx lib))

  unfoldable pub xdr_gssx_arg_import_and_canon_name : Filter GssxArgImportAndCanonName
  xdr_gssx_arg_import_and_canon_name = struct (
      (λ a b c d e. record {
        call_ctx = a;
        input_name = b;
        mech = c;
        name_attributes = d;
        options = e;
      })
      ⊙ on (λ v. v.call_ctx) (xdr_gssx_call_ctx lib)
      ⊛ on (λ v. v.input_name) (xdr_gssx_name lib)
      ⊛ on (λ v. v.mech) (xdr_gssx_oid lib)
      ⊛ on (λ v. v.name_attributes) (lib.xdr_array (xdr_gssx_name_attr lib))
      ⊛ on (λ v. v.options) (lib.xdr_array (xdr_gssx_option lib)))

  unfoldable pub xdr_gssx_arg_get_call_context : Filter GssxArgGetCallContext
  xdr_gssx_arg_get_call_context = struct (
      (λ a b. record { call_ctx = a; options = b })
      ⊙ on (λ v. v.call_ctx) (xdr_gssx_call_ctx lib)
      ⊛ on (λ v. v.options) (lib.xdr_array (xdr_gssx_option lib)))

  unfoldable pub xdr_gssx_arg_acquire_cred : Filter GssxArgAcquireCred
  xdr_gssx_arg_acquire_cred = struct (
      (λ a b c d e f g h i j. record {
        call_ctx = a;
        input_cred_handle = b;
        add_cred_to_input_handle = c;
        desired_name = d;
        time_req = e;
        desired_mechs = f;
        cred_usage = g;
        initiator_time_req = h;
        acceptor_time_req = i;
        options = j;
      })
      ⊙ on (λ v. v.call_ctx) (xdr_gssx_call_ctx lib)
      ⊛ on (λ v. v.input_cred_handle) (lib.xdr_pointer (xdr_gssx_cred lib))
      ⊛ on (λ v. v.add_cred_to_input_handle) lib.xdr_bool
      ⊛ on (λ v. v.desired_name) (lib.xdr_pointer (xdr_gssx_name lib))
      ⊛ on (λ v. v.time_req) (xdr_gssx_time lib)
      ⊛ on (λ v. v.desired_mechs) (xdr_gssx_oid_set lib)
      ⊛ on (λ v. v.cred_usage) (xdr_gssx_cred_usage lib)
      ⊛ on (λ v. v.initiator_time_req) (xdr_gssx_time lib)
      ⊛ on (λ v. v.acceptor_time_req) (xdr_gssx_time lib)
      ⊛ on (λ v. v.options) (lib.xdr_array (xdr_gssx_option lib)))

  unfoldable pub xdr_gssx_arg_export_cred : Filter GssxArgExportCred
  xdr_gssx_arg_export_cred = struct (
      (λ a b c d. record { call_ctx = a; input_cred_handle = b; cred_usage = c; options = d })
      ⊙ on (λ v. v.call_ctx) (xdr_gssx_call_ctx lib)
      ⊛ on (λ v. v.input_cred_handle) (xdr_gssx_cred lib)
      ⊛ on (λ v. v.cred_usage) (xdr_gssx_cred_usage lib)
      ⊛ on (λ v. v.options) (lib.xdr_array (xdr_gssx_option lib)))

  unfoldable pub xdr_gssx_arg_import_cred : Filter GssxArgImportCred
  xdr_gssx_arg_import_cred = struct (
      (λ a b c. record { call_ctx = a; exported_handle = b; options = c })
      ⊙ on (λ v. v.call_ctx) (xdr_gssx_call_ctx lib)
      ⊛ on (λ v. v.exported_handle) (xdr_octet_string lib)
      ⊛ on (λ v. v.options) (lib.xdr_array (xdr_gssx_option lib)))

  unfoldable pub xdr_gssx_arg_store_cred : Filter GssxArgStoreCred
  xdr_gssx_arg_store_cred = struct (
      (λ a b c d e f g. record {
        call_ctx = a;
        input_cred_handle = b;
        cred_usage = c;
        desired_mech = d;
        overwrite_cred = e;
        default_cred = f;
        options = g;
      })
      ⊙ on (λ v. v.call_ctx) (xdr_gssx_call_ctx lib)
      ⊛ on (λ v. v.input_cred_handle) (xdr_gssx_cred lib)
      ⊛ on (λ v. v.cred_usage) (xdr_gssx_cred_usage lib)
      ⊛ on (λ v. v.desired_mech) (xdr_gssx_oid lib)
      ⊛ on (λ v. v.overwrite_cred) lib.xdr_bool
      ⊛ on (λ v. v.default_cred) lib.xdr_bool
      ⊛ on (λ v. v.options) (lib.xdr_array (xdr_gssx_option lib)))

  unfoldable pub xdr_gssx_arg_init_sec_context : Filter GssxArgInitSecContext
  xdr_gssx_arg_init_sec_context = struct (
      (λ a b c d e f g h i j. record {
        call_ctx = a;
        context_handle = b;
        cred_handle = c;
        target_name = d;
        mech_type = e;
        req_flags = f;
        time_req = g;
        input_cb = h;
        input_token = i;
        options = j;
      })
      ⊙ on (λ v. v.call_ctx) (xdr_gssx_call_ctx lib)
      ⊛ on (λ v. v.context_handle) (lib.xdr_pointer (xdr_gssx_ctx lib))
      ⊛ on (λ v. v.cred_handle) (lib.xdr_pointer (xdr_gssx_cred lib))
      ⊛ on (λ v. v.target_name) (lib.xdr_pointer (xdr_gssx_name lib))
      ⊛ on (λ v. v.mech_type) (xdr_gssx_oid lib)
      ⊛ on (λ v. v.req_flags) (xdr_gssx_uint64 lib)
      ⊛ on (λ v. v.time_req) (xdr_gssx_time lib)
      ⊛ on (λ v. v.input_cb) (lib.xdr_pointer (xdr_gssx_cb lib))
      ⊛ on (λ v. v.input_token) (lib.xdr_pointer (xdr_gssx_buffer lib))
      ⊛ on (λ v. v.options) (lib.xdr_array (xdr_gssx_option lib)))

  unfoldable pub xdr_gssx_arg_accept_sec_context : Filter GssxArgAcceptSecContext
  xdr_gssx_arg_accept_sec_context = struct (
      (λ a b c d e f g. record {
        call_ctx = a;
        context_handle = b;
        cred_handle = c;
        input_token = d;
        input_cb = e;
        ret_deleg_cred = f;
        options = g;
      })
      ⊙ on (λ v. v.call_ctx) (xdr_gssx_call_ctx lib)
      ⊛ on (λ v. v.context_handle) (lib.xdr_pointer (xdr_gssx_ctx lib))
      ⊛ on (λ v. v.cred_handle) (lib.xdr_pointer (xdr_gssx_cred lib))
      ⊛ on (λ v. v.input_token) (xdr_gssx_buffer lib)
      ⊛ on (λ v. v.input_cb) (lib.xdr_pointer (xdr_gssx_cb lib))
      ⊛ on (λ v. v.ret_deleg_cred) lib.xdr_bool
      ⊛ on (λ v. v.options) (lib.xdr_array (xdr_gssx_option lib)))

  unfoldable pub xdr_gssx_arg_get_mic : Filter GssxArgGetMic
  xdr_gssx_arg_get_mic = struct (
      (λ a b c d. record { call_ctx = a; context_handle = b; qop_req = c; message_buffer = d })
      ⊙ on (λ v. v.call_ctx) (xdr_gssx_call_ctx lib)
      ⊛ on (λ v. v.context_handle) (xdr_gssx_ctx lib)
      ⊛ on (λ v. v.qop_req) (xdr_gssx_qop lib)
      ⊛ on (λ v. v.message_buffer) (xdr_gssx_buffer lib))

  unfoldable pub xdr_gssx_arg_verify_mic : Filter GssxArgVerifyMic
  xdr_gssx_arg_verify_mic = struct (
      (λ a b c d. record { call_ctx = a; context_handle = b; message_buffer = c; token_buffer = d })
      ⊙ on (λ v. v.call_ctx) (xdr_gssx_call_ctx lib)
      ⊛ on (λ v. v.context_handle) (xdr_gssx_ctx lib)
      ⊛ on (λ v. v.message_buffer) (xdr_gssx_buffer lib)
      ⊛ on (λ v. v.token_buffer) (xdr_gssx_buffer lib))

  unfoldable pub xdr_gssx_arg_wrap : Filter GssxArgWrap
  xdr_gssx_arg_wrap = struct (
      (λ a b c d e. record {
        call_ctx = a;
        context_handle = b;
        conf_req = c;
        message_buffer = d;
        qop_state = e;
      })
      ⊙ on (λ v. v.call_ctx) (xdr_gssx_call_ctx lib)
      ⊛ on (λ v. v.context_handle) (xdr_gssx_ctx lib)
      ⊛ on (λ v. v.conf_req) lib.xdr_bool
      ⊛ on (λ v. v.message_buffer) (lib.xdr_array (xdr_gssx_buffer lib))
      ⊛ on (λ v. v.qop_state) (xdr_gssx_qop lib))

  unfoldable pub xdr_gssx_arg_unwrap : Filter GssxArgUnwrap
  xdr_gssx_arg_unwrap = struct (
      (λ a b c d. record { call_ctx = a; context_handle = b; token_buffer = c; qop_state = d })
      ⊙ on (λ v. v.call_ctx) (xdr_gssx_call_ctx lib)
      ⊛ on (λ v. v.context_handle) (xdr_gssx_ctx lib)
      ⊛ on (λ v. v.token_buffer) (lib.xdr_array (xdr_gssx_buffer lib))
      ⊛ on (λ v. v.qop_state) (xdr_gssx_qop lib))

  unfoldable pub xdr_gssx_arg_wrap_size_limit : Filter GssxArgWrapSizeLimit
  xdr_gssx_arg_wrap_size_limit = struct (
      (λ a b c d e. record {
        call_ctx = a;
        context_handle = b;
        conf_req = c;
        qop_state = d;
        req_output_size = e;
      })
      ⊙ on (λ v. v.call_ctx) (xdr_gssx_call_ctx lib)
      ⊛ on (λ v. v.context_handle) (xdr_gssx_ctx lib)
      ⊛ on (λ v. v.conf_req) lib.xdr_bool
      ⊛ on (λ v. v.qop_state) (xdr_gssx_qop lib)
      ⊛ on (λ v. v.req_output_size) (xdr_gssx_uint64 lib))
