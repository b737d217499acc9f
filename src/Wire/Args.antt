-- ===== src/Wire/Args.antt =====
-- The arguments of the procedures: rpcgen/gss_proxy.h.
use gssproxy.Prelude.{Bool, List, Option}
use gssproxy.Wire.Types.{
  OctetString, GssxBuffer, GssxOid, GssxOidSet, GssxUint64, GssxQop, GssxTime, GssxCredUsage,
  GssxHandle, GssxOption, GssxNameAttr, GssxCallCtx, GssxName, GssxCred, GssxCtx, GssxCb,
}

pub record GssxArgReleaseHandle : Type 0 where
  pub call_ctx : GssxCallCtx
  pub cred_handle : GssxHandle

pub record GssxArgIndicateMechs : Type 0 where
  pub call_ctx : GssxCallCtx

pub record GssxArgImportAndCanonName : Type 0 where
  pub call_ctx : GssxCallCtx
  pub input_name : GssxName
  pub mech : GssxOid
  pub name_attributes : List GssxNameAttr
  pub options : List GssxOption

pub record GssxArgGetCallContext : Type 0 where
  pub call_ctx : GssxCallCtx
  pub options : List GssxOption

pub record GssxArgAcquireCred : Type 0 where
  pub call_ctx : GssxCallCtx
  pub input_cred_handle : Option GssxCred
  pub add_cred_to_input_handle : Bool
  pub desired_name : Option GssxName
  pub time_req : GssxTime
  pub desired_mechs : GssxOidSet
  pub cred_usage : GssxCredUsage
  pub initiator_time_req : GssxTime
  pub acceptor_time_req : GssxTime
  pub options : List GssxOption

pub record GssxArgExportCred : Type 0 where
  pub call_ctx : GssxCallCtx
  pub input_cred_handle : GssxCred
  pub cred_usage : GssxCredUsage
  pub options : List GssxOption

pub record GssxArgImportCred : Type 0 where
  pub call_ctx : GssxCallCtx
  pub exported_handle : OctetString
  pub options : List GssxOption

pub record GssxArgStoreCred : Type 0 where
  pub call_ctx : GssxCallCtx
  pub input_cred_handle : GssxCred
  pub cred_usage : GssxCredUsage
  pub desired_mech : GssxOid
  pub overwrite_cred : Bool
  pub default_cred : Bool
  pub options : List GssxOption

pub record GssxArgInitSecContext : Type 0 where
  pub call_ctx : GssxCallCtx
  pub context_handle : Option GssxCtx
  pub cred_handle : Option GssxCred
  pub target_name : Option GssxName
  pub mech_type : GssxOid
  pub req_flags : GssxUint64
  pub time_req : GssxTime
  pub input_cb : Option GssxCb
  pub input_token : Option GssxBuffer
  pub options : List GssxOption

pub record GssxArgAcceptSecContext : Type 0 where
  pub call_ctx : GssxCallCtx
  pub context_handle : Option GssxCtx
  pub cred_handle : Option GssxCred
  pub input_token : GssxBuffer
  pub input_cb : Option GssxCb
  pub ret_deleg_cred : Bool
  pub options : List GssxOption

pub record GssxArgGetMic : Type 0 where
  pub call_ctx : GssxCallCtx
  pub context_handle : GssxCtx
  pub qop_req : GssxQop
  pub message_buffer : GssxBuffer

pub record GssxArgVerifyMic : Type 0 where
  pub call_ctx : GssxCallCtx
  pub context_handle : GssxCtx
  pub message_buffer : GssxBuffer
  pub token_buffer : GssxBuffer

pub record GssxArgWrap : Type 0 where
  pub call_ctx : GssxCallCtx
  pub context_handle : GssxCtx
  pub conf_req : Bool
  pub message_buffer : List GssxBuffer
  pub qop_state : GssxQop

pub record GssxArgUnwrap : Type 0 where
  pub call_ctx : GssxCallCtx
  pub context_handle : GssxCtx
  pub token_buffer : List GssxBuffer
  pub qop_state : GssxQop

pub record GssxArgWrapSizeLimit : Type 0 where
  pub call_ctx : GssxCallCtx
  pub context_handle : GssxCtx
  pub conf_req : Bool
  pub qop_state : GssxQop
  pub req_output_size : GssxUint64
