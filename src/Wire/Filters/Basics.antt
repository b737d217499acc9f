-- ===== src/Wire/Filters/Basics.antt =====
-- The filters of the data types: rpcgen/gss_proxy_xdr.c.
use gssproxy.Wire.Filter.{Filter, XdrLib, on, ◌⊙◌, ◌⊛◌, struct, xdr_bytes, switch}
use gssproxy.Wire.Types.{
  Utf8string, OctetString, GssxBuffer, GssxOid, GssxOidSet, GssxUint64, GssxQop, GssxTime,
  GssxCredUsage, GssxHandleType, GssxHandle, GssxOption, GssxMechAttr, GssxMechInfo, GssxNameAttr,
  GssxStatus, GssxCallCtx, GssxName, GssxCredElement, GssxCred, GssxCtx, GssxCb, Member, member,
  Payload, cred_info, sec_ctx_info, extensions,
}

module _ (lib : XdrLib) where
  unfoldable pub xdr_utf8string : Filter Utf8string
  xdr_utf8string = xdr_bytes lib.xdr

  unfoldable pub xdr_octet_string : Filter OctetString
  xdr_octet_string = xdr_bytes lib.xdr

  unfoldable pub xdr_gssx_uint64 : Filter GssxUint64
  xdr_gssx_uint64 = lib.xdr_u_quad_t

  unfoldable pub xdr_gssx_qop : Filter GssxQop
  xdr_gssx_qop = lib.xdr_u_quad_t

  unfoldable pub xdr_gssx_buffer : Filter GssxBuffer
  xdr_gssx_buffer = xdr_octet_string

  unfoldable pub xdr_gssx_oid : Filter GssxOid
  xdr_gssx_oid = xdr_octet_string

  unfoldable pub xdr_gssx_oid_set : Filter GssxOidSet
  xdr_gssx_oid_set = lib.xdr_array xdr_gssx_oid

  unfoldable pub xdr_gssx_cred_usage : Filter GssxCredUsage
  xdr_gssx_cred_usage = lib.xdr_enum

  unfoldable pub xdr_gssx_time : Filter GssxTime
  xdr_gssx_time = lib.xdr_u_quad_t

  unfoldable pub xdr_gssx_option : Filter GssxOption
  xdr_gssx_option = struct (
      (λ a b. record { option = a; value = b })
      ⊙ on (λ v. v.option) xdr_gssx_buffer
      ⊛ on (λ v. v.value) xdr_gssx_buffer)

  unfoldable pub xdr_gssx_mech_attr : Filter GssxMechAttr
  xdr_gssx_mech_attr = struct (
      (λ a b c d e. record { attr = a; name = b; short_desc = c; long_desc = d; extensions = e })
      ⊙ on (λ v. v.attr) xdr_gssx_oid
      ⊛ on (λ v. v.name) xdr_gssx_buffer
      ⊛ on (λ v. v.short_desc) xdr_gssx_buffer
      ⊛ on (λ v. v.long_desc) xdr_gssx_buffer
      ⊛ on (λ v. v.extensions) (lib.xdr_array xdr_gssx_option))

  unfoldable pub xdr_gssx_mech_info : Filter GssxMechInfo
  xdr_gssx_mech_info = struct (
      (λ a b c d e f g h i j. record {
        mech = a;
        name_types = b;
        mech_attrs = c;
        known_mech_attrs = d;
        cred_options = e;
        sec_ctx_options = f;
        saslname_sasl_mech_name = g;
        saslname_mech_name = h;
        saslname_mech_desc = i;
        extensions = j;
      })
      ⊙ on (λ v. v.mech) xdr_gssx_oid
      ⊛ on (λ v. v.name_types) xdr_gssx_oid_set
      ⊛ on (λ v. v.mech_attrs) xdr_gssx_oid_set
      ⊛ on (λ v. v.known_mech_attrs) xdr_gssx_oid_set
      ⊛ on (λ v. v.cred_options) xdr_gssx_oid_set
      ⊛ on (λ v. v.sec_ctx_options) xdr_gssx_oid_set
      ⊛ on (λ v. v.saslname_sasl_mech_name) xdr_gssx_buffer
      ⊛ on (λ v. v.saslname_mech_name) xdr_gssx_buffer
      ⊛ on (λ v. v.saslname_mech_desc) xdr_gssx_buffer
      ⊛ on (λ v. v.extensions) (lib.xdr_array xdr_gssx_option))

  unfoldable pub xdr_gssx_name_attr : Filter GssxNameAttr
  xdr_gssx_name_attr = struct (
      (λ a b c. record { attr = a; value = b; extensions = c })
      ⊙ on (λ v. v.attr) xdr_gssx_buffer
      ⊛ on (λ v. v.value) xdr_gssx_buffer
      ⊛ on (λ v. v.extensions) (lib.xdr_array xdr_gssx_option))

  unfoldable pub xdr_gssx_status : Filter GssxStatus
  xdr_gssx_status = struct (
      (λ a b c d e f g. record {
        major_status = a;
        mech = b;
        minor_status = c;
        major_status_string = d;
        minor_status_string = e;
        server_ctx = f;
        options = g;
      })
      ⊙ on (λ v. v.major_status) xdr_gssx_uint64
      ⊛ on (λ v. v.mech) xdr_gssx_oid
      ⊛ on (λ v. v.minor_status) xdr_gssx_uint64
      ⊛ on (λ v. v.major_status_string) xdr_utf8string
      ⊛ on (λ v. v.minor_status_string) xdr_utf8string
      ⊛ on (λ v. v.server_ctx) xdr_octet_string
      ⊛ on (λ v. v.options) (lib.xdr_array xdr_gssx_option))

  unfoldable pub xdr_gssx_call_ctx : Filter GssxCallCtx
  xdr_gssx_call_ctx = struct (
      (λ a b c. record { locale = a; server_ctx = b; options = c })
      ⊙ on (λ v. v.locale) xdr_utf8string
      ⊛ on (λ v. v.server_ctx) xdr_octet_string
      ⊛ on (λ v. v.options) (lib.xdr_array xdr_gssx_option))

  unfoldable pub xdr_gssx_name : Filter GssxName
  xdr_gssx_name = struct (
      (λ a b c d e f. record {
        display_name = a;
        name_type = b;
        exported_name = c;
        exported_composite_name = d;
        name_attributes = e;
        extensions = f;
      })
      ⊙ on (λ v. v.display_name) xdr_gssx_buffer
      ⊛ on (λ v. v.name_type) xdr_gssx_oid
      ⊛ on (λ v. v.exported_name) xdr_gssx_buffer
      ⊛ on (λ v. v.exported_composite_name) xdr_gssx_buffer
      ⊛ on (λ v. v.name_attributes) (lib.xdr_array xdr_gssx_name_attr)
      ⊛ on (λ v. v.extensions) (lib.xdr_array xdr_gssx_option))

  unfoldable pub xdr_gssx_cred_element : Filter GssxCredElement
  xdr_gssx_cred_element = struct (
      (λ a b c d e f. record {
        mn = a;
        mech = b;
        cred_usage = c;
        initiator_time_rec = d;
        acceptor_time_rec = e;
        options = f;
      })
      ⊙ on (λ v. v.mn) xdr_gssx_name
      ⊛ on (λ v. v.mech) xdr_gssx_oid
      ⊛ on (λ v. v.cred_usage) xdr_gssx_cred_usage
      ⊛ on (λ v. v.initiator_time_rec) xdr_gssx_time
      ⊛ on (λ v. v.acceptor_time_rec) xdr_gssx_time
      ⊛ on (λ v. v.options) (lib.xdr_array xdr_gssx_option))

  unfoldable pub xdr_gssx_cred : Filter GssxCred
  xdr_gssx_cred = struct (
      (λ a b c d. record {
        desired_name = a;
        elements = b;
        cred_handle_reference = c;
        needs_release = d;
      })
      ⊙ on (λ v. v.desired_name) xdr_gssx_name
      ⊛ on (λ v. v.elements) (lib.xdr_array xdr_gssx_cred_element)
      ⊛ on (λ v. v.cred_handle_reference) xdr_octet_string
      ⊛ on (λ v. v.needs_release) lib.xdr_bool)

  unfoldable pub xdr_gssx_ctx : Filter GssxCtx
  xdr_gssx_ctx = struct (
      (λ a b c d e f g h i j k. record {
        exported_context_token = a;
        state = b;
        needs_release = c;
        mech = d;
        src_name = e;
        targ_name = f;
        lifetime = g;
        ctx_flags = h;
        locally_initiated = i;
        is_open = j;
        options = k;
      })
      ⊙ on (λ v. v.exported_context_token) xdr_gssx_buffer
      ⊛ on (λ v. v.state) xdr_octet_string
      ⊛ on (λ v. v.needs_release) lib.xdr_bool
      ⊛ on (λ v. v.mech) xdr_gssx_oid
      ⊛ on (λ v. v.src_name) xdr_gssx_name
      ⊛ on (λ v. v.targ_name) xdr_gssx_name
      ⊛ on (λ v. v.lifetime) xdr_gssx_time
      ⊛ on (λ v. v.ctx_flags) xdr_gssx_uint64
      ⊛ on (λ v. v.locally_initiated) lib.xdr_bool
      ⊛ on (λ v. v.is_open) lib.xdr_bool
      ⊛ on (λ v. v.options) (lib.xdr_array xdr_gssx_option))

  unfoldable pub xdr_gssx_cb : Filter GssxCb
  xdr_gssx_cb = struct (
      (λ a b c d e. record {
        initiator_addrtype = a;
        initiator_address = b;
        acceptor_addrtype = c;
        acceptor_address = d;
        application_data = e;
      })
      ⊙ on (λ v. v.initiator_addrtype) xdr_gssx_uint64
      ⊛ on (λ v. v.initiator_address) xdr_gssx_buffer
      ⊛ on (λ v. v.acceptor_addrtype) xdr_gssx_uint64
      ⊛ on (λ v. v.acceptor_address) xdr_gssx_buffer
      ⊛ on (λ v. v.application_data) xdr_gssx_buffer)

  unfoldable pub xdr_gssx_handle_type : Filter GssxHandleType
  xdr_gssx_handle_type = lib.xdr_enum

  -- The cases of the switch.
  unfoldable pub xdr_payload : (m : Member) → Filter (Payload m)
  unfolding Payload
  xdr_payload cred_info = xdr_gssx_cred
  xdr_payload sec_ctx_info = xdr_gssx_ctx
  xdr_payload extensions = xdr_octet_string

  unfoldable pub xdr_gssx_handle : Filter GssxHandle
  xdr_gssx_handle = struct (
      (λ (t, u). record { handle_type = t; gssx_handle_u = u })
      ⊙ on (λ v. (v.handle_type, v.gssx_handle_u))
          (switch xdr_gssx_handle_type λ t. xdr_payload (member t.0)))
