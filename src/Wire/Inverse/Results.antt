-- ===== src/Wire/Inverse/Results.antt =====
-- The filters of the results read back what they wrote: rpcgen/gss_proxy_xdr.c.
use gssproxy.Prelude.{refl}
use gssproxy.Wire.Filter.{XdrLib, IsXdrLib, IsFilter, struct-IsFilter, first, ◌▹◌}
use gssproxy.Wire.Filters.Results.{
  xdr_gssx_res_accept_sec_context, xdr_gssx_res_acquire_cred, xdr_gssx_res_export_cred,
  xdr_gssx_res_get_call_context, xdr_gssx_res_get_mic, xdr_gssx_res_import_and_canon_name,
  xdr_gssx_res_import_cred, xdr_gssx_res_indicate_mechs, xdr_gssx_res_init_sec_context,
  xdr_gssx_res_release_handle, xdr_gssx_res_store_cred, xdr_gssx_res_unwrap,
  xdr_gssx_res_verify_mic, xdr_gssx_res_wrap, xdr_gssx_res_wrap_size_limit,
}
use gssproxy.Wire.Inverse.Basics.{
  xdr_octet_string-IsFilter, xdr_gssx_uint64-IsFilter, xdr_gssx_qop-IsFilter,
  xdr_gssx_buffer-IsFilter, xdr_gssx_oid_set-IsFilter, xdr_gssx_cred_usage-IsFilter,
  xdr_gssx_option-IsFilter, xdr_gssx_mech_attr-IsFilter, xdr_gssx_mech_info-IsFilter,
  xdr_gssx_status-IsFilter, xdr_gssx_name-IsFilter, xdr_gssx_cred-IsFilter, xdr_gssx_ctx-IsFilter,
}

module _ {lib : XdrLib} (ok : IsXdrLib lib) where
  pub xdr_gssx_res_release_handle-IsFilter : IsFilter (xdr_gssx_res_release_handle lib)
  unfolding xdr_gssx_res_release_handle
  xdr_gssx_res_release_handle-IsFilter =
      struct-IsFilter (first _ (xdr_gssx_status-IsFilter ok)) λ v. refl

  pub xdr_gssx_res_indicate_mechs-IsFilter : IsFilter (xdr_gssx_res_indicate_mechs lib)
  unfolding xdr_gssx_res_indicate_mechs
  xdr_gssx_res_indicate_mechs-IsFilter =
      struct-IsFilter
        (first _ (xdr_gssx_status-IsFilter ok)
          ▹ (ok.array_lem (xdr_gssx_mech_info-IsFilter ok))
          ▹ (ok.array_lem (xdr_gssx_mech_attr-IsFilter ok))
          ▹ (ok.array_lem (xdr_gssx_buffer-IsFilter ok))
          ▹ (ok.array_lem (xdr_gssx_option-IsFilter ok)))
        λ v. refl

  pub xdr_gssx_res_import_and_canon_name-IsFilter :
      IsFilter (xdr_gssx_res_import_and_canon_name lib)
  unfolding xdr_gssx_res_import_and_canon_name
  xdr_gssx_res_import_and_canon_name-IsFilter =
      struct-IsFilter
        (first _ (xdr_gssx_status-IsFilter ok)
          ▹ (ok.pointer_lem (xdr_gssx_name-IsFilter ok))
          ▹ (ok.array_lem (xdr_gssx_option-IsFilter ok)))
        λ v. refl

  pub xdr_gssx_res_get_call_context-IsFilter : IsFilter (xdr_gssx_res_get_call_context lib)
  unfolding xdr_gssx_res_get_call_context
  xdr_gssx_res_get_call_context-IsFilter =
      struct-IsFilter
        (first _ (xdr_gssx_status-IsFilter ok)
          ▹ (xdr_octet_string-IsFilter ok)
          ▹ (ok.array_lem (xdr_gssx_option-IsFilter ok)))
        λ v. refl

  pub xdr_gssx_res_acquire_cred-IsFilter : IsFilter (xdr_gssx_res_acquire_cred lib)
  unfolding xdr_gssx_res_acquire_cred
  xdr_gssx_res_acquire_cred-IsFilter =
      struct-IsFilter
        (first _ (xdr_gssx_status-IsFilter ok)
          ▹ (ok.pointer_lem (xdr_gssx_cred-IsFilter ok))
          ▹ (ok.array_lem (xdr_gssx_option-IsFilter ok)))
        λ v. refl

  pub xdr_gssx_res_export_cred-IsFilter : IsFilter (xdr_gssx_res_export_cred lib)
  unfolding xdr_gssx_res_export_cred
  xdr_gssx_res_export_cred-IsFilter =
      struct-IsFilter
        (first _ (xdr_gssx_status-IsFilter ok)
          ▹ (xdr_gssx_cred_usage-IsFilter ok)
          ▹ (ok.pointer_lem (xdr_octet_string-IsFilter ok))
          ▹ (ok.array_lem (xdr_gssx_option-IsFilter ok)))
        λ v. refl

  pub xdr_gssx_res_import_cred-IsFilter : IsFilter (xdr_gssx_res_import_cred lib)
  unfolding xdr_gssx_res_import_cred
  xdr_gssx_res_import_cred-IsFilter =
      struct-IsFilter
        (first _ (xdr_gssx_status-IsFilter ok)
          ▹ (ok.pointer_lem (xdr_gssx_cred-IsFilter ok))
          ▹ (ok.array_lem (xdr_gssx_option-IsFilter ok)))
        λ v. refl

  pub xdr_gssx_res_store_cred-IsFilter : IsFilter (xdr_gssx_res_store_cred lib)
  unfolding xdr_gssx_res_store_cred
  xdr_gssx_res_store_cred-IsFilter =
      struct-IsFilter
        (first _ (xdr_gssx_status-IsFilter ok)
          ▹ (xdr_gssx_oid_set-IsFilter ok)
          ▹ (xdr_gssx_cred_usage-IsFilter ok)
          ▹ (ok.array_lem (xdr_gssx_option-IsFilter ok)))
        λ v. refl

  pub xdr_gssx_res_init_sec_context-IsFilter : IsFilter (xdr_gssx_res_init_sec_context lib)
  unfolding xdr_gssx_res_init_sec_context
  xdr_gssx_res_init_sec_context-IsFilter =
      struct-IsFilter
        (first _ (xdr_gssx_status-IsFilter ok)
          ▹ (ok.pointer_lem (xdr_gssx_ctx-IsFilter ok))
          ▹ (ok.pointer_lem (xdr_gssx_buffer-IsFilter ok))
          ▹ (ok.array_lem (xdr_gssx_option-IsFilter ok)))
        λ v. refl

  pub xdr_gssx_res_accept_sec_context-IsFilter : IsFilter (xdr_gssx_res_accept_sec_context lib)
  unfolding xdr_gssx_res_accept_sec_context
  xdr_gssx_res_accept_sec_context-IsFilter =
      struct-IsFilter
        (first _ (xdr_gssx_status-IsFilter ok)
          ▹ (ok.pointer_lem (xdr_gssx_ctx-IsFilter ok))
          ▹ (ok.pointer_lem (xdr_gssx_buffer-IsFilter ok))
          ▹ (ok.pointer_lem (xdr_gssx_cred-IsFilter ok))
          ▹ (ok.array_lem (xdr_gssx_option-IsFilter ok)))
        λ v. refl

  pub xdr_gssx_res_get_mic-IsFilter : IsFilter (xdr_gssx_res_get_mic lib)
  unfolding xdr_gssx_res_get_mic
  xdr_gssx_res_get_mic-IsFilter =
      struct-IsFilter
        (first _ (xdr_gssx_status-IsFilter ok)
          ▹ (ok.pointer_lem (xdr_gssx_ctx-IsFilter ok))
          ▹ (xdr_gssx_buffer-IsFilter ok)
          ▹ (ok.pointer_lem (xdr_gssx_qop-IsFilter ok)))
        λ v. refl

  pub xdr_gssx_res_verify_mic-IsFilter : IsFilter (xdr_gssx_res_verify_mic lib)
  unfolding xdr_gssx_res_verify_mic
  xdr_gssx_res_verify_mic-IsFilter =
      struct-IsFilter
        (first _ (xdr_gssx_status-IsFilter ok)
          ▹ (ok.pointer_lem (xdr_gssx_ctx-IsFilter ok))
          ▹ (ok.pointer_lem (xdr_gssx_qop-IsFilter ok)))
        λ v. refl

  pub xdr_gssx_res_wrap-IsFilter : IsFilter (xdr_gssx_res_wrap lib)
  unfolding xdr_gssx_res_wrap
  xdr_gssx_res_wrap-IsFilter =
      struct-IsFilter
        (first _ (xdr_gssx_status-IsFilter ok)
          ▹ (ok.pointer_lem (xdr_gssx_ctx-IsFilter ok))
          ▹ (ok.array_lem (xdr_gssx_buffer-IsFilter ok))
          ▹ (ok.pointer_lem ok.bool_lem)
          ▹ (ok.pointer_lem (xdr_gssx_qop-IsFilter ok)))
        λ v. refl

  pub xdr_gssx_res_unwrap-IsFilter : IsFilter (xdr_gssx_res_unwrap lib)
  unfolding xdr_gssx_res_unwrap
  xdr_gssx_res_unwrap-IsFilter =
      struct-IsFilter
        (first _ (xdr_gssx_status-IsFilter ok)
          ▹ (ok.pointer_lem (xdr_gssx_ctx-IsFilter ok))
          ▹ (ok.array_lem (xdr_gssx_buffer-IsFilter ok))
          ▹ (ok.pointer_lem ok.bool_lem)
          ▹ (ok.pointer_lem (xdr_gssx_qop-IsFilter ok)))
        λ v. refl

  pub xdr_gssx_res_wrap_size_limit-IsFilter : IsFilter (xdr_gssx_res_wrap_size_limit lib)
  unfolding xdr_gssx_res_wrap_size_limit
  xdr_gssx_res_wrap_size_limit-IsFilter =
      struct-IsFilter (first _ (xdr_gssx_status-IsFilter ok) ▹ (xdr_gssx_uint64-IsFilter ok))
        λ v. refl
