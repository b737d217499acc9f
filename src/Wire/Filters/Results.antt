-- ===== src/Wire/Filters/Results.antt =====
-- The filters of the results: rpcgen/gss_proxy_xdr.c.
use gssproxy.Wire.Filter.{Filter, XdrLib, on, ◌⊙◌, ◌⊛◌, struct}
use gssproxy.Wire.Results.{
  GssxResReleaseHandle, GssxResIndicateMechs, GssxResImportAndCanonName, GssxResGetCallContext,
  GssxResAcquireCred, GssxResExportCred, GssxResImportCred, GssxResStoreCred, GssxResInitSecContext,
  GssxResAcceptSecContext, GssxResGetMic, GssxResVerifyMic, GssxResWrap, GssxResUnwrap,
  GssxResWrapSizeLimit,
}
use gssproxy.Wire.Filters.Basics.{
  xdr_octet_string, xdr_gssx_uint64, xdr_gssx_qop, xdr_gssx_buffer, xdr_gssx_oid_set,
  xdr_gssx_cred_usage, xdr_gssx_option, xdr_gssx_mech_attr, xdr_gssx_mech_info, xdr_gssx_status,
  xdr_gssx_name, xdr_gssx_cred, xdr_gssx_ctx,
}

module _ (lib : XdrLib) where
  unfoldable pub xdr_gssx_res_release_handle : Filter GssxResReleaseHandle
  xdr_gssx_res_release_handle =
      struct ((λ a. record { status = a }) ⊙ on (λ v. v.status) (xdr_gssx_status lib))

  unfoldable pub xdr_gssx_res_indicate_mechs : Filter GssxResIndicateMechs
  xdr_gssx_res_indicate_mechs = struct (
      (λ a b c d e. record {
        status = a;
        mechs = b;
        mech_attr_descs = c;
        supported_extensions = d;
        extensions = e;
      })
      ⊙ on (λ v. v.status) (xdr_gssx_status lib)
      ⊛ on (λ v. v.mechs) (lib.xdr_array (xdr_gssx_mech_info lib))
      ⊛ on (λ v. v.mech_attr_descs) (lib.xdr_array (xdr_gssx_mech_attr lib))
      ⊛ on (λ v. v.supported_extensions) (lib.xdr_array (xdr_gssx_buffer lib))
      ⊛ on (λ v. v.extensions) (lib.xdr_array (xdr_gssx_option lib)))

  unfoldable pub xdr_gssx_res_import_and_canon_name : Filter GssxResImportAndCanonName
  xdr_gssx_res_import_and_canon_name = struct (
      (λ a b c. record { status = a; output_name = b; options = c })
      ⊙ on (λ v. v.status) (xdr_gssx_status lib)
      ⊛ on (λ v. v.output_name) (lib.xdr_pointer (xdr_gssx_name lib))
      ⊛ on (λ v. v.options) (lib.xdr_array (xdr_gssx_option lib)))

  unfoldable pub xdr_gssx_res_get_call_context : Filter GssxResGetCallContext
  xdr_gssx_res_get_call_context = struct (
      (λ a b c. record { status = a; server_call_ctx = b; options = c })
      ⊙ on (λ v. v.status) (xdr_gssx_status lib)
      ⊛ on (λ v. v.server_call_ctx) (xdr_octet_string lib)
      ⊛ on (λ v. v.options) (lib.xdr_array (xdr_gssx_option lib)))

  unfoldable pub xdr_gssx_res_acquire_cred : Filter GssxResAcquireCred
  xdr_gssx_res_acquire_cred = struct (
      (λ a b c. record { status = a; output_cred_handle = b; options = c })
      ⊙ on (λ v. v.status) (xdr_gssx_status lib)
      ⊛ on (λ v. v.output_cred_handle) (lib.xdr_pointer (xdr_gssx_cred lib))
      ⊛ on (λ v. v.options) (lib.xdr_array (xdr_gssx_option lib)))

  unfoldable pub xdr_gssx_res_export_cred : Filter GssxResExportCred
  xdr_gssx_res_export_cred = struct (
      (λ a b c d. record { status = a; usage_exported = b; exported_handle = c; options = d })
      ⊙ on (λ v. v.status) (xdr_gssx_status lib)
      ⊛ on (λ v. v.usage_exported) (xdr_gssx_cred_usage lib)
      ⊛ on (λ v. v.exported_handle) (lib.xdr_pointer (xdr_octet_string lib))
      ⊛ on (λ v. v.options) (lib.xdr_array (xdr_gssx_option lib)))

  unfoldable pub xdr_gssx_res_import_cred : Filter GssxResImportCred
  xdr_gssx_res_import_cred = struct (
      (λ a b c. record { status = a; output_cred_handle = b; options = c })
      ⊙ on (λ v. v.status) (xdr_gssx_status lib)
      ⊛ on (λ v. v.output_cred_handle) (lib.xdr_pointer (xdr_gssx_cred lib))
      ⊛ on (λ v. v.options) (lib.xdr_array (xdr_gssx_option lib)))

  unfoldable pub xdr_gssx_res_store_cred : Filter GssxResStoreCred
  xdr_gssx_res_store_cred = struct (
      (λ a b c d. record { status = a; elements_stored = b; cred_usage_stored = c; options = d })
      ⊙ on (λ v. v.status) (xdr_gssx_status lib)
      ⊛ on (λ v. v.elements_stored) (xdr_gssx_oid_set lib)
      ⊛ on (λ v. v.cred_usage_stored) (xdr_gssx_cred_usage lib)
      ⊛ on (λ v. v.options) (lib.xdr_array (xdr_gssx_option lib)))

  unfoldable pub xdr_gssx_res_init_sec_context : Filter GssxResInitSecContext
  xdr_gssx_res_init_sec_context = struct (
      (λ a b c d. record { status = a; context_handle = b; output_token = c; options = d })
      ⊙ on (λ v. v.status) (xdr_gssx_status lib)
      ⊛ on (λ v. v.context_handle) (lib.xdr_pointer (xdr_gssx_ctx lib))
      ⊛ on (λ v. v.output_token) (lib.xdr_pointer (xdr_gssx_buffer lib))
      ⊛ on (λ v. v.options) (lib.xdr_array (xdr_gssx_option lib)))

  unfoldable pub xdr_gssx_res_accept_sec_context : Filter GssxResAcceptSecContext
  xdr_gssx_res_accept_sec_context = struct (
      (λ a b c d e. record {
        status = a;
        context_handle = b;
        output_token = c;
        delegated_cred_handle = d;
        options = e;
      })
      ⊙ on (λ v. v.status) (xdr_gssx_status lib)
      ⊛ on (λ v. v.context_handle) (lib.xdr_pointer (xdr_gssx_ctx lib))
      ⊛ on (λ v. v.output_token) (lib.xdr_pointer (xdr_gssx_buffer lib))
      ⊛ on (λ v. v.delegated_cred_handle) (lib.xdr_pointer (xdr_gssx_cred lib))
      ⊛ on (λ v. v.options) (lib.xdr_array (xdr_gssx_option lib)))

  unfoldable pub xdr_gssx_res_get_mic : Filter GssxResGetMic
  xdr_gssx_res_get_mic = struct (
      (λ a b c d. record { status = a; context_handle = b; token_buffer = c; qop_state = d })
      ⊙ on (λ v. v.status) (xdr_gssx_status lib)
      ⊛ on (λ v. v.context_handle) (lib.xdr_pointer (xdr_gssx_ctx lib))
      ⊛ on (λ v. v.token_buffer) (xdr_gssx_buffer lib)
      ⊛ on (λ v. v.qop_state) (lib.xdr_pointer (xdr_gssx_qop lib)))

  unfoldable pub xdr_gssx_res_verify_mic : Filter GssxResVerifyMic
  xdr_gssx_res_verify_mic = struct (
      (λ a b c. record { status = a; context_handle = b; qop_state = c })
      ⊙ on (λ v. v.status) (xdr_gssx_status lib)
      ⊛ on (λ v. v.context_handle) (lib.xdr_pointer (xdr_gssx_ctx lib))
      ⊛ on (λ v. v.qop_state) (lib.xdr_pointer (xdr_gssx_qop lib)))

  unfoldable pub xdr_gssx_res_wrap : Filter GssxResWrap
  xdr_gssx_res_wrap = struct (
      (λ a b c d e. record {
        status = a;
        context_handle = b;
        token_buffer = c;
        conf_state = d;
        qop_state = e;
      })
      ⊙ on (λ v. v.status) (xdr_gssx_status lib)
      ⊛ on (λ v. v.context_handle) (lib.xdr_pointer (xdr_gssx_ctx lib))
      ⊛ on (λ v. v.token_buffer) (lib.xdr_array (xdr_gssx_buffer lib))
      ⊛ on (λ v. v.conf_state) (lib.xdr_pointer lib.xdr_bool)
      ⊛ on (λ v. v.qop_state) (lib.xdr_pointer (xdr_gssx_qop lib)))

  unfoldable pub xdr_gssx_res_unwrap : Filter GssxResUnwrap
  xdr_gssx_res_unwrap = struct (
      (λ a b c d e. record {
        status = a;
        context_handle = b;
        message_buffer = c;
        conf_state = d;
        qop_state = e;
      })
      ⊙ on (λ v. v.status) (xdr_gssx_status lib)
      ⊛ on (λ v. v.context_handle) (lib.xdr_pointer (xdr_gssx_ctx lib))
      ⊛ on (λ v. v.message_buffer) (lib.xdr_array (xdr_gssx_buffer lib))
      ⊛ on (λ v. v.conf_state) (lib.xdr_pointer lib.xdr_bool)
      ⊛ on (λ v. v.qop_state) (lib.xdr_pointer (xdr_gssx_qop lib)))

  unfoldable pub xdr_gssx_res_wrap_size_limit : Filter GssxResWrapSizeLimit
  xdr_gssx_res_wrap_size_limit = struct (
      (λ a b. record { status = a; max_input_size = b })
      ⊙ on (λ v. v.status) (xdr_gssx_status lib)
      ⊛ on (λ v. v.max_input_size) (xdr_gssx_uint64 lib))
