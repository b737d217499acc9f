-- ===== src/Wire/Inverse/Basics.antt =====
-- The filters of the data types read back what they wrote: rpcgen/gss_proxy_xdr.c.
use gssproxy.Prelude.{refl}
use gssproxy.Wire.Filter.{
  XdrLib, IsXdrLib, IsFilter, struct-IsFilter, first, ◌▹◌, xdr_bytes-IsFilter, switch-IsFilter,
}
use gssproxy.Wire.Types.{Member, member, Payload, cred_info, sec_ctx_info, extensions}
use gssproxy.Wire.Filters.Basics.{
  xdr_gssx_buffer, xdr_gssx_call_ctx, xdr_gssx_cb, xdr_gssx_cred, xdr_gssx_cred_element,
  xdr_gssx_cred_usage, xdr_gssx_ctx, xdr_gssx_handle, xdr_gssx_handle_type, xdr_gssx_mech_attr,
  xdr_gssx_mech_info, xdr_gssx_name, xdr_gssx_name_attr, xdr_gssx_oid, xdr_gssx_oid_set,
  xdr_gssx_option, xdr_gssx_qop, xdr_gssx_status, xdr_gssx_time, xdr_gssx_uint64, xdr_octet_string,
  xdr_payload, xdr_utf8string,
}

module _ {lib : XdrLib} (ok : IsXdrLib lib) where
  pub xdr_utf8string-IsFilter : IsFilter (xdr_utf8string lib)
  unfolding xdr_utf8string
  xdr_utf8string-IsFilter = xdr_bytes-IsFilter ok.is_xdr

  pub xdr_octet_string-IsFilter : IsFilter (xdr_octet_string lib)
  unfolding xdr_octet_string
  xdr_octet_string-IsFilter = xdr_bytes-IsFilter ok.is_xdr

  pub xdr_gssx_uint64-IsFilter : IsFilter (xdr_gssx_uint64 lib)
  unfolding xdr_gssx_uint64
  xdr_gssx_uint64-IsFilter = ok.u_quad_t_lem

  pub xdr_gssx_qop-IsFilter : IsFilter (xdr_gssx_qop lib)
  unfolding xdr_gssx_qop
  xdr_gssx_qop-IsFilter = ok.u_quad_t_lem

  pub xdr_gssx_buffer-IsFilter : IsFilter (xdr_gssx_buffer lib)
  unfolding xdr_gssx_buffer
  xdr_gssx_buffer-IsFilter = xdr_octet_string-IsFilter

  pub xdr_gssx_oid-IsFilter : IsFilter (xdr_gssx_oid lib)
  unfolding xdr_gssx_oid
  xdr_gssx_oid-IsFilter = xdr_octet_string-IsFilter

  pub xdr_gssx_oid_set-IsFilter : IsFilter (xdr_gssx_oid_set lib)
  unfolding xdr_gssx_oid_set
  xdr_gssx_oid_set-IsFilter = ok.array_lem xdr_gssx_oid-IsFilter

  pub xdr_gssx_cred_usage-IsFilter : IsFilter (xdr_gssx_cred_usage lib)
  unfolding xdr_gssx_cred_usage
  xdr_gssx_cred_usage-IsFilter = ok.enum_lem

  pub xdr_gssx_time-IsFilter : IsFilter (xdr_gssx_time lib)
  unfolding xdr_gssx_time
  xdr_gssx_time-IsFilter = ok.u_quad_t_lem

  pub xdr_gssx_option-IsFilter : IsFilter (xdr_gssx_option lib)
  unfolding xdr_gssx_option
  xdr_gssx_option-IsFilter =
      struct-IsFilter (first _ xdr_gssx_buffer-IsFilter ▹ xdr_gssx_buffer-IsFilter) λ v. refl

  pub xdr_gssx_mech_attr-IsFilter : IsFilter (xdr_gssx_mech_attr lib)
  unfolding xdr_gssx_mech_attr
  xdr_gssx_mech_attr-IsFilter =
      struct-IsFilter
        (first _ xdr_gssx_oid-IsFilter
          ▹ xdr_gssx_buffer-IsFilter
          ▹ xdr_gssx_buffer-IsFilter
          ▹ xdr_gssx_buffer-IsFilter
          ▹ (ok.array_lem xdr_gssx_option-IsFilter))
        λ v. refl

  pub xdr_gssx_mech_info-IsFilter : IsFilter (xdr_gssx_mech_info lib)
  unfolding xdr_gssx_mech_info
  xdr_gssx_mech_info-IsFilter =
      struct-IsFilter
        (first _ xdr_gssx_oid-IsFilter
          ▹ xdr_gssx_oid_set-IsFilter
          ▹ xdr_gssx_oid_set-IsFilter
          ▹ xdr_gssx_oid_set-IsFilter
          ▹ xdr_gssx_oid_set-IsFilter
          ▹ xdr_gssx_oid_set-IsFilter
          ▹ xdr_gssx_buffer-IsFilter
          ▹ xdr_gssx_buffer-IsFilter
          ▹ xdr_gssx_buffer-IsFilter
          ▹ (ok.array_lem xdr_gssx_option-IsFilter))
        λ v. refl

  pub xdr_gssx_name_attr-IsFilter : IsFilter (xdr_gssx_name_attr lib)
  unfolding xdr_gssx_name_attr
  xdr_gssx_name_attr-IsFilter =
      struct-IsFilter
        (first _ xdr_gssx_buffer-IsFilter
          ▹ xdr_gssx_buffer-IsFilter
          ▹ (ok.array_lem xdr_gssx_option-IsFilter))
        λ v. refl

  pub xdr_gssx_status-IsFilter : IsFilter (xdr_gssx_status lib)
  unfolding xdr_gssx_status
  xdr_gssx_status-IsFilter =
      struct-IsFilter
        (first _ xdr_gssx_uint64-IsFilter
          ▹ xdr_gssx_oid-IsFilter
          ▹ xdr_gssx_uint64-IsFilter
          ▹ xdr_utf8string-IsFilter
          ▹ xdr_utf8string-IsFilter
          ▹ xdr_octet_string-IsFilter
          ▹ (ok.array_lem xdr_gssx_option-IsFilter))
        λ v. refl

  pub xdr_gssx_call_ctx-IsFilter : IsFilter (xdr_gssx_call_ctx lib)
  unfolding xdr_gssx_call_ctx
  xdr_gssx_call_ctx-IsFilter =
      struct-IsFilter
        (first _ xdr_utf8string-IsFilter
          ▹ xdr_octet_string-IsFilter
          ▹ (ok.array_lem xdr_gssx_option-IsFilter))
        λ v. refl

  pub xdr_gssx_name-IsFilter : IsFilter (xdr_gssx_name lib)
  unfolding xdr_gssx_name
  xdr_gssx_name-IsFilter =
      struct-IsFilter
        (first _ xdr_gssx_buffer-IsFilter
          ▹ xdr_gssx_oid-IsFilter
          ▹ xdr_gssx_buffer-IsFilter
          ▹ xdr_gssx_buffer-IsFilter
          ▹ (ok.array_lem xdr_gssx_name_attr-IsFilter)
          ▹ (ok.array_lem xdr_gssx_option-IsFilter))
        λ v. refl

  pub xdr_gssx_cred_element-IsFilter : IsFilter (xdr_gssx_cred_element lib)
  unfolding xdr_gssx_cred_element
  xdr_gssx_cred_element-IsFilter =
      struct-IsFilter
        (first _ xdr_gssx_name-IsFilter
          ▹ xdr_gssx_oid-IsFilter
          ▹ xdr_gssx_cred_usage-IsFilter
          ▹ xdr_gssx_time-IsFilter
          ▹ xdr_gssx_time-IsFilter
          ▹ (ok.array_lem xdr_gssx_option-IsFilter))
        λ v. refl

  pub xdr_gssx_cred-IsFilter : IsFilter (xdr_gssx_cred lib)
  unfolding xdr_gssx_cred
  xdr_gssx_cred-IsFilter =
      struct-IsFilter
        (first _ xdr_gssx_name-IsFilter
          ▹ (ok.array_lem xdr_gssx_cred_element-IsFilter)
          ▹ xdr_octet_string-IsFilter
          ▹ ok.bool_lem)
        λ v. refl

  pub xdr_gssx_ctx-IsFilter : IsFilter (xdr_gssx_ctx lib)
  unfolding xdr_gssx_ctx
  xdr_gssx_ctx-IsFilter =
      struct-IsFilter
        (first _ xdr_gssx_buffer-IsFilter
          ▹ xdr_octet_string-IsFilter
          ▹ ok.bool_lem
          ▹ xdr_gssx_oid-IsFilter
          ▹ xdr_gssx_name-IsFilter
          ▹ xdr_gssx_name-IsFilter
          ▹ xdr_gssx_time-IsFilter
          ▹ xdr_gssx_uint64-IsFilter
          ▹ ok.bool_lem
          ▹ ok.bool_lem
          ▹ (ok.array_lem xdr_gssx_option-IsFilter))
        λ v. refl

  pub xdr_gssx_cb-IsFilter : IsFilter (xdr_gssx_cb lib)
  unfolding xdr_gssx_cb
  xdr_gssx_cb-IsFilter =
      struct-IsFilter
        (first _ xdr_gssx_uint64-IsFilter
          ▹ xdr_gssx_buffer-IsFilter
          ▹ xdr_gssx_uint64-IsFilter
          ▹ xdr_gssx_buffer-IsFilter
          ▹ xdr_gssx_buffer-IsFilter)
        λ v. refl

  pub xdr_gssx_handle_type-IsFilter : IsFilter (xdr_gssx_handle_type lib)
  unfolding xdr_gssx_handle_type
  xdr_gssx_handle_type-IsFilter = ok.enum_lem

  pub xdr_payload-IsFilter : (m : Member) → IsFilter (xdr_payload lib m)
  unfolding xdr_payload Payload
  xdr_payload-IsFilter cred_info = xdr_gssx_cred-IsFilter
  xdr_payload-IsFilter sec_ctx_info = xdr_gssx_ctx-IsFilter
  xdr_payload-IsFilter extensions = xdr_octet_string-IsFilter

  pub xdr_gssx_handle-IsFilter : IsFilter (xdr_gssx_handle lib)
  unfolding xdr_gssx_handle
  xdr_gssx_handle-IsFilter =
      struct-IsFilter
        (first _
          (switch-IsFilter xdr_gssx_handle_type-IsFilter λ t. xdr_payload-IsFilter (member t.0)))
        λ v. refl
