-- ===== src/Wire/Inverse/Args.antt =====
-- The filters of the arguments read back what they wrote: rpcgen/gss_proxy_xdr.c.
use gssproxy.Prelude.{refl}
use gssproxy.Wire.Filter.{XdrLib, IsXdrLib, IsFilter, struct-IsFilter, first, ◌▹◌}
use gssproxy.Wire.Filters.Args.{
  xdr_gssx_arg_accept_sec_context, xdr_gssx_arg_acquire_cred, xdr_gssx_arg_export_cred,
  xdr_gssx_arg_get_call_context, xdr_gssx_arg_get_mic, xdr_gssx_arg_import_and_canon_name,
  xdr_gssx_arg_import_cred, xdr_gssx_arg_indicate_mechs, xdr_gssx_arg_init_sec_context,
  xdr_gssx_arg_release_handle, xdr_gssx_arg_store_cred, xdr_gssx_arg_unwrap,
  xdr_gssx_arg_verify_mic, xdr_gssx_arg_wrap, xdr_gssx_arg_wrap_size_limit,
}
use gssproxy.Wire.Inverse.Basics.{
  xdr_octet_string-IsFilter, xdr_gssx_uint64-IsFilter, xdr_gssx_qop-IsFilter,
  xdr_gssx_buffer-IsFilter, xdr_gssx_oid-IsFilter, xdr_gssx_oid_set-IsFilter,
  xdr_gssx_cred_usage-IsFilter, xdr_gssx_time-IsFilter, xdr_gssx_handle-IsFilter,
  xdr_gssx_option-IsFilter, xdr_gssx_name_attr-IsFilter, xdr_gssx_call_ctx-IsFilter,
  xdr_gssx_name-IsFilter, xdr_gssx_cred-IsFilter, xdr_gssx_ctx-IsFilter, xdr_gssx_cb-IsFilter,
}

module _ {lib : XdrLib} (ok : IsXdrLib lib) where
  pub xdr_gssx_arg_release_handle-IsFilter : IsFilter (xdr_gssx_arg_release_handle lib)
  unfolding xdr_gssx_arg_release_handle
  xdr_gssx_arg_release_handle-IsFilter =
      struct-IsFilter (first _ (xdr_gssx_call_ctx-IsFilter ok) ▹ (xdr_gssx_handle-IsFilter ok))
        λ v. refl

  pub xdr_gssx_arg_indicate_mechs-IsFilter : IsFilter (xdr_gssx_arg_indicate_mechs lib)
  unfolding xdr_gssx_arg_indicate_mechs
  xdr_gssx_arg_indicate_mechs-IsFilter =
      struct-IsFilter (first _ (xdr_gssx_call_ctx-IsFilter ok)) λ v. refl

  pub xdr_gssx_arg_import_and_canon_name-IsFilter :
      IsFilter (xdr_gssx_arg_import_and_canon_name lib)
  unfolding xdr_gssx_arg_import_and_canon_name
  xdr_gssx_arg_import_and_canon_name-IsFilter =
      struct-IsFilter
        (first _ (xdr_gssx_call_ctx-IsFilter ok)
          ▹ (xdr_gssx_name-IsFilter ok)
          ▹ (xdr_gssx_oid-IsFilter ok)
          ▹ (ok.array_lem (xdr_gssx_name_attr-IsFilter ok))
          ▹ (ok.array_lem (xdr_gssx_option-IsFilter ok)))
        λ v. refl

  pub xdr_gssx_arg_get_call_context-IsFilter : IsFilter (xdr_gssx_arg_get_call_context lib)
  unfolding xdr_gssx_arg_get_call_context
  xdr_gssx_arg_get_call_context-IsFilter =
      struct-IsFilter
        (first _ (xdr_gssx_call_ctx-IsFilter ok) ▹ (ok.array_lem (xdr_gssx_option-IsFilter ok)))
        λ v. refl

  pub xdr_gssx_arg_acquire_cred-IsFilter : IsFilter (xdr_gssx_arg_acquire_cred lib)
  unfolding xdr_gssx_arg_acquire_cred
  xdr_gssx_arg_acquire_cred-IsFilter =
      struct-IsFilter
        (first _ (xdr_gssx_call_ctx-IsFilter ok)
          ▹ (ok.pointer_lem (xdr_gssx_cred-IsFilter ok))
          ▹ ok.bool_lem
          ▹ (ok.pointer_lem (xdr_gssx_name-IsFilter ok))
          ▹ (xdr_gssx_time-IsFilter ok)
          ▹ (xdr_gssx_oid_set-IsFilter ok)
          ▹ (xdr_gssx_cred_usage-IsFilter ok)
          ▹ (xdr_gssx_time-IsFilter ok)
          ▹ (xdr_gssx_time-IsFilter ok)
          ▹ (ok.array_lem (xdr_gssx_option-IsFilter ok)))
        λ v. refl

  pub xdr_gssx_arg_export_cred-IsFilter : IsFilter (xdr_gssx_arg_export_cred lib)
  unfolding xdr_gssx_arg_export_cred
  xdr_gssx_arg_export_cred-IsFilter =
      struct-IsFilter
        (first _ (xdr_gssx_call_ctx-IsFilter ok)
          ▹ (xdr_gssx_cred-IsFilter ok)
          ▹ (xdr_gssx_cred_usage-IsFilter ok)
          ▹ (ok.array_lem (xdr_gssx_option-IsFilter ok)))
        λ v. refl

  pub xdr_gssx_arg_import_cred-IsFilter : IsFilter (xdr_gssx_arg_import_cred lib)
  unfolding xdr_gssx_arg_import_cred
  xdr_gssx_arg_import_cred-IsFilter =
      struct-IsFilter
        (first _ (xdr_gssx_call_ctx-IsFilter ok)
          ▹ (xdr_octet_string-IsFilter ok)
          ▹ (ok.array_lem (xdr_gssx_option-IsFilter ok)))
        λ v. refl

  pub xdr_gssx_arg_store_cred-IsFilter : IsFilter (xdr_gssx_arg_store_cred lib)
  unfolding xdr_gssx_arg_store_cred
  xdr_gssx_arg_store_cred-IsFilter =
      struct-IsFilter
        (first _ (xdr_gssx_call_ctx-IsFilter ok)
          ▹ (xdr_gssx_cred-IsFilter ok)
          ▹ (xdr_gssx_cred_usage-IsFilter ok)
          ▹ (xdr_gssx_oid-IsFilter ok)
          ▹ ok.bool_lem
          ▹ ok.bool_lem
          ▹ (ok.array_lem (xdr_gssx_option-IsFilter ok)))
        λ v. refl

  pub xdr_gssx_arg_init_sec_context-IsFilter : IsFilter (xdr_gssx_arg_init_sec_context lib)
  unfolding xdr_gssx_arg_init_sec_context
  xdr_gssx_arg_init_sec_context-IsFilter =
      struct-IsFilter
        (first _ (xdr_gssx_call_ctx-IsFilter ok)
          ▹ (ok.pointer_lem (xdr_gssx_ctx-IsFilter ok))
          ▹ (ok.pointer_lem (xdr_gssx_cred-IsFilter ok))
          ▹ (ok.pointer_lem (xdr_gssx_name-IsFilter ok))
          ▹ (xdr_gssx_oid-IsFilter ok)
          ▹ (xdr_gssx_uint64-IsFilter ok)
          ▹ (xdr_gssx_time-IsFilter ok)
          ▹ (ok.pointer_lem (xdr_gssx_cb-IsFilter ok))
          ▹ (ok.pointer_lem (xdr_gssx_buffer-IsFilter ok))
          ▹ (ok.array_lem (xdr_gssx_option-IsFilter ok)))
        λ v. refl

  pub xdr_gssx_arg_accept_sec_context-IsFilter : IsFilter (xdr_gssx_arg_accept_sec_context lib)
  unfolding xdr_gssx_arg_accept_sec_context
  xdr_gssx_arg_accept_sec_context-IsFilter =
      struct-IsFilter
        (first _ (xdr_gssx_call_ctx-IsFilter ok)
          ▹ (ok.pointer_lem (xdr_gssx_ctx-IsFilter ok))
          ▹ (ok.pointer_lem (xdr_gssx_cred-IsFilter ok))
          ▹ (xdr_gssx_buffer-IsFilter ok)
          ▹ (ok.pointer_lem (xdr_gssx_cb-IsFilter ok))
          ▹ ok.bool_lem
          ▹ (ok.array_lem (xdr_gssx_option-IsFilter ok)))
        λ v. refl

  pub xdr_gssx_arg_get_mic-IsFilter : IsFilter (xdr_gssx_arg_get_mic lib)
  unfolding xdr_gssx_arg_get_mic
  xdr_gssx_arg_get_mic-IsFilter =
      struct-IsFilter
        (first _ (xdr_gssx_call_ctx-IsFilter ok)
          ▹ (xdr_gssx_ctx-IsFilter ok)
          ▹ (xdr_gssx_qop-IsFilter ok)
          ▹ (xdr_gssx_buffer-IsFilter ok))
        λ v. refl

  pub xdr_gssx_arg_verify_mic-IsFilter : IsFilter (xdr_gssx_arg_verify_mic lib)
  unfolding xdr_gssx_arg_verify_mic
  xdr_gssx_arg_verify_mic-IsFilter =
      struct-IsFilter
        (first _ (xdr_gssx_call_ctx-IsFilter ok)
          ▹ (xdr_gssx_ctx-IsFilter ok)
          ▹ (xdr_gssx_buffer-IsFilter ok)
          ▹ (xdr_gssx_buffer-IsFilter ok))
        λ v. refl

  pub xdr_gssx_arg_wrap-IsFilter : IsFilter (xdr_gssx_arg_wrap lib)
  unfolding xdr_gssx_arg_wrap
  xdr_gssx_arg_wrap-IsFilter =
      struct-IsFilter
        (first _ (xdr_gssx_call_ctx-IsFilter ok)
          ▹ (xdr_gssx_ctx-IsFilter ok)
          ▹ ok.bool_lem
          ▹ (ok.array_lem (xdr_gssx_buffer-IsFilter ok))
          ▹ (xdr_gssx_qop-IsFilter ok))
        λ v. refl

  pub xdr_gssx_arg_unwrap-IsFilter : IsFilter (xdr_gssx_arg_unwrap lib)
  unfolding xdr_gssx_arg_unwrap
  xdr_gssx_arg_unwrap-IsFilter =
      struct-IsFilter
        (first _ (xdr_gssx_call_ctx-IsFilter ok)
          ▹ (xdr_gssx_ctx-IsFilter ok)
          ▹ (ok.array_lem (xdr_gssx_buffer-IsFilter ok))
          ▹ (xdr_gssx_qop-IsFilter ok))
        λ v. refl

  pub xdr_gssx_arg_wrap_size_limit-IsFilter : IsFilter (xdr_gssx_arg_wrap_size_limit lib)
  unfolding xdr_gssx_arg_wrap_size_limit
  xdr_gssx_arg_wrap_size_limit-IsFilter =
      struct-IsFilter
        (first _ (xdr_gssx_call_ctx-IsFilter ok)
          ▹ (xdr_gssx_ctx-IsFilter ok)
          ▹ ok.bool_lem
          ▹ (xdr_gssx_qop-IsFilter ok)
          ▹ (xdr_gssx_uint64-IsFilter ok))
        λ v. refl
