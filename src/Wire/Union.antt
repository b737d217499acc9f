-- ===== src/Wire/Union.antt =====
-- The filters of rpcgen/gss_proxy_xdr.c by procedure, as gp_xdr_set of src/gp_rpc_process.c and
-- gpm_xdr_set of src/client/gpm_common.c list them: they fill the interface between the RPC layers
-- and the procedures. The handlers are left to a parameter.
use gssproxy.Prelude.{Option, none, ◌>>=◌, ◌≡◌, subst, some, Ret}
use gssproxy.Rpc.Procs.{
  Proc, indicate_mechs, get_call_context, import_and_canon_name, export_cred, import_cred,
  acquire_cred, store_cred, init_sec_context, accept_sec_context, release_handle, get_mic,
  verify_mic, wrap, unwrap, wrap_size_limit, Put, Procs,
}
use gssproxy.Rpc.Decode.{Get}
use gssproxy.Wire.Filter.{Filter, XdrLib}
use gssproxy.Wire.Args.{
  GssxArgIndicateMechs, GssxArgGetCallContext, GssxArgImportAndCanonName, GssxArgExportCred,
  GssxArgImportCred, GssxArgAcquireCred, GssxArgStoreCred, GssxArgInitSecContext,
  GssxArgAcceptSecContext, GssxArgReleaseHandle, GssxArgGetMic, GssxArgVerifyMic, GssxArgWrap,
  GssxArgUnwrap, GssxArgWrapSizeLimit,
}
use gssproxy.Wire.Results.{
  GssxResIndicateMechs, GssxResGetCallContext, GssxResImportAndCanonName, GssxResExportCred,
  GssxResImportCred, GssxResAcquireCred, GssxResStoreCred, GssxResInitSecContext,
  GssxResAcceptSecContext, GssxResReleaseHandle, GssxResGetMic, GssxResVerifyMic, GssxResWrap,
  GssxResUnwrap, GssxResWrapSizeLimit,
}
use gssproxy.Wire.Filters.Args.{
  xdr_gssx_arg_indicate_mechs, xdr_gssx_arg_get_call_context, xdr_gssx_arg_import_and_canon_name,
  xdr_gssx_arg_export_cred, xdr_gssx_arg_import_cred, xdr_gssx_arg_acquire_cred,
  xdr_gssx_arg_store_cred, xdr_gssx_arg_init_sec_context, xdr_gssx_arg_accept_sec_context,
  xdr_gssx_arg_release_handle, xdr_gssx_arg_get_mic, xdr_gssx_arg_verify_mic, xdr_gssx_arg_wrap,
  xdr_gssx_arg_unwrap, xdr_gssx_arg_wrap_size_limit,
}
use gssproxy.Wire.Filters.Results.{
  xdr_gssx_res_indicate_mechs, xdr_gssx_res_get_call_context, xdr_gssx_res_import_and_canon_name,
  xdr_gssx_res_export_cred, xdr_gssx_res_import_cred, xdr_gssx_res_acquire_cred,
  xdr_gssx_res_store_cred, xdr_gssx_res_init_sec_context, xdr_gssx_res_accept_sec_context,
  xdr_gssx_res_release_handle, xdr_gssx_res_get_mic, xdr_gssx_res_verify_mic, xdr_gssx_res_wrap,
  xdr_gssx_res_unwrap, xdr_gssx_res_wrap_size_limit,
}
use gssproxy.Wire.Zeros.{
  zero_arg_indicate_mechs, zero_res_indicate_mechs, zero_res_get_call_context,
  zero_res_import_and_canon_name, zero_res_export_cred, zero_res_import_cred, zero_res_acquire_cred,
  zero_res_store_cred, zero_res_init_sec_context, zero_res_accept_sec_context,
  zero_res_release_handle, zero_res_get_mic, zero_res_verify_mic, zero_res_wrap, zero_res_unwrap,
  zero_res_wrap_size_limit,
}

-- The members of union gp_rpc_arg and union gp_rpc_res.
unfoldable pub ArgOf : Proc → Type 0
ArgOf indicate_mechs = GssxArgIndicateMechs
ArgOf get_call_context = GssxArgGetCallContext
ArgOf import_and_canon_name = GssxArgImportAndCanonName
ArgOf export_cred = GssxArgExportCred
ArgOf import_cred = GssxArgImportCred
ArgOf acquire_cred = GssxArgAcquireCred
ArgOf store_cred = GssxArgStoreCred
ArgOf init_sec_context = GssxArgInitSecContext
ArgOf accept_sec_context = GssxArgAcceptSecContext
ArgOf release_handle = GssxArgReleaseHandle
ArgOf get_mic = GssxArgGetMic
ArgOf verify_mic = GssxArgVerifyMic
ArgOf wrap = GssxArgWrap
ArgOf unwrap = GssxArgUnwrap
ArgOf wrap_size_limit = GssxArgWrapSizeLimit

unfoldable pub ResOf : Proc → Type 0
ResOf indicate_mechs = GssxResIndicateMechs
ResOf get_call_context = GssxResGetCallContext
ResOf import_and_canon_name = GssxResImportAndCanonName
ResOf export_cred = GssxResExportCred
ResOf import_cred = GssxResImportCred
ResOf acquire_cred = GssxResAcquireCred
ResOf store_cred = GssxResStoreCred
ResOf init_sec_context = GssxResInitSecContext
ResOf accept_sec_context = GssxResAcceptSecContext
ResOf release_handle = GssxResReleaseHandle
ResOf get_mic = GssxResGetMic
ResOf verify_mic = GssxResVerifyMic
ResOf wrap = GssxResWrap
ResOf unwrap = GssxResUnwrap
ResOf wrap_size_limit = GssxResWrapSizeLimit

-- A union, with the member that was last stored in it.
abbrev pub Union : (Proc → Type 0) → Type 0
Union Of = (p : Proc) × Of p

unfoldable pub Proc-discrete : Discrete Proc
Proc-discrete = Proc.discrete_by_fields

-- The member of a procedure, if it is the one stored.
unfoldable pub as_member : (Of : Proc → Type 0) (p q : Proc) → Dec (q ≡ p) → Of q → Option (Of p)
as_member Of p q (yes same) a = some (subst Of same a)
as_member Of p q (no other) a = none

-- A filter for the member of a procedure.
unfoldable pub encode_member :
    {Of : Proc → Type 0} → ((p : Proc) → Filter (Of p)) → Proc → Put (Union Of)
unfolding as_member Proc-discrete
encode_member {Of} f p cap (q, a) out =
    as_member Of p q (Proc-discrete q p) a >>= λ b. (f p).encode cap b out

unfoldable pub decode_member :
    {Of : Proc → Type 0} → ((p : Proc) → Filter (Of p)) → Proc → Get (Union Of)
decode_member f p inp = do (a, inp) ← (f p).decode inp; some ((p, a), inp)

unfoldable pub cleared_res : Proc → Union ResOf
unfolding ResOf
cleared_res indicate_mechs = (indicate_mechs, zero_res_indicate_mechs)
cleared_res get_call_context = (get_call_context, zero_res_get_call_context)
cleared_res import_and_canon_name = (import_and_canon_name, zero_res_import_and_canon_name)
cleared_res export_cred = (export_cred, zero_res_export_cred)
cleared_res import_cred = (import_cred, zero_res_import_cred)
cleared_res acquire_cred = (acquire_cred, zero_res_acquire_cred)
cleared_res store_cred = (store_cred, zero_res_store_cred)
cleared_res init_sec_context = (init_sec_context, zero_res_init_sec_context)
cleared_res accept_sec_context = (accept_sec_context, zero_res_accept_sec_context)
cleared_res release_handle = (release_handle, zero_res_release_handle)
cleared_res get_mic = (get_mic, zero_res_get_mic)
cleared_res verify_mic = (verify_mic, zero_res_verify_mic)
cleared_res wrap = (wrap, zero_res_wrap)
cleared_res unwrap = (unwrap, zero_res_unwrap)
cleared_res wrap_size_limit = (wrap_size_limit, zero_res_wrap_size_limit)

module _ (lib : XdrLib) where
  unfoldable pub arg_filter : (p : Proc) → Filter (ArgOf p)
  unfolding ArgOf
  arg_filter indicate_mechs = xdr_gssx_arg_indicate_mechs lib
  arg_filter get_call_context = xdr_gssx_arg_get_call_context lib
  arg_filter import_and_canon_name = xdr_gssx_arg_import_and_canon_name lib
  arg_filter export_cred = xdr_gssx_arg_export_cred lib
  arg_filter import_cred = xdr_gssx_arg_import_cred lib
  arg_filter acquire_cred = xdr_gssx_arg_acquire_cred lib
  arg_filter store_cred = xdr_gssx_arg_store_cred lib
  arg_filter init_sec_context = xdr_gssx_arg_init_sec_context lib
  arg_filter accept_sec_context = xdr_gssx_arg_accept_sec_context lib
  arg_filter release_handle = xdr_gssx_arg_release_handle lib
  arg_filter get_mic = xdr_gssx_arg_get_mic lib
  arg_filter verify_mic = xdr_gssx_arg_verify_mic lib
  arg_filter wrap = xdr_gssx_arg_wrap lib
  arg_filter unwrap = xdr_gssx_arg_unwrap lib
  arg_filter wrap_size_limit = xdr_gssx_arg_wrap_size_limit lib

  unfoldable pub res_filter : (p : Proc) → Filter (ResOf p)
  unfolding ResOf
  res_filter indicate_mechs = xdr_gssx_res_indicate_mechs lib
  res_filter get_call_context = xdr_gssx_res_get_call_context lib
  res_filter import_and_canon_name = xdr_gssx_res_import_and_canon_name lib
  res_filter export_cred = xdr_gssx_res_export_cred lib
  res_filter import_cred = xdr_gssx_res_import_cred lib
  res_filter acquire_cred = xdr_gssx_res_acquire_cred lib
  res_filter store_cred = xdr_gssx_res_store_cred lib
  res_filter init_sec_context = xdr_gssx_res_init_sec_context lib
  res_filter accept_sec_context = xdr_gssx_res_accept_sec_context lib
  res_filter release_handle = xdr_gssx_res_release_handle lib
  res_filter get_mic = xdr_gssx_res_get_mic lib
  res_filter verify_mic = xdr_gssx_res_verify_mic lib
  res_filter wrap = xdr_gssx_res_wrap lib
  res_filter unwrap = xdr_gssx_res_unwrap lib
  res_filter wrap_size_limit = xdr_gssx_res_wrap_size_limit lib

  unfoldable pub wire_procs :
      {Ctx : Type 0}
      → (Proc → Ctx → Union ArgOf → Ctx × Ret × Union ResOf)
      → Procs Ctx (Union ArgOf) (Union ResOf)
  unfolding ArgOf arg_filter res_filter encode_member decode_member cleared_res
  wire_procs exec = record {
    zero_arg = (indicate_mechs, zero_arg_indicate_mechs);
    zero_res = cleared_res indicate_mechs;
    cleared = cleared_res;
    encode_arg = encode_member arg_filter;
    decode_arg = decode_member arg_filter;
    encode_res = encode_member res_filter;
    decode_res = decode_member res_filter;
    exec = exec;
  }
