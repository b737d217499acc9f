-- ===== src/Wire/Results.antt =====
-- The results of the procedures: rpcgen/gss_proxy.h.
use gssproxy.Prelude.{Bool, List, Option}
use gssproxy.Wire.Types.{
  OctetString, GssxBuffer, GssxOidSet, GssxUint64, GssxQop, GssxCredUsage, GssxOption, GssxMechAttr,
  GssxMechInfo, GssxStatus, GssxName, GssxCred, GssxCtx,
}

pub record GssxResReleaseHandle : Type 0 where
  pub status : GssxStatus

pub record GssxResIndicateMechs : Type 0 where
  pub status : GssxStatus
  pub mechs : List GssxMechInfo
  pub mech_attr_descs : List GssxMechAttr
  pub supported_extensions : List GssxBuffer
  pub extensions : List GssxOption

pub record GssxResImportAndCanonName : Type 0 where
  pub status : GssxStatus
  pub output_name : Option GssxName
  pub options : List GssxOption

pub record GssxResGetCallContext : Type 0 where
  pub status : GssxStatus
  pub server_call_ctx : OctetString
  pub options : List GssxOption

pub record GssxResAcquireCred : Type 0 where
  pub status : GssxStatus
  pub output_cred_handle : Option GssxCred
  pub options : List GssxOption

pub record GssxResExportCred : Type 0 where
  pub status : GssxStatus
  pub usage_exported : GssxCredUsage
  pub exported_handle : Option OctetString
  pub options : List GssxOption

pub record GssxResImportCred : Type 0 where
  pub status : GssxStatus
  pub output_cred_handle : Option GssxCred
  pub options : List GssxOption

pub record GssxResStoreCred : Type 0 where
  pub status : GssxStatus
  pub elements_stored : GssxOidSet
  pub cred_usage_stored : GssxCredUsage
  pub options : List GssxOption

pub record GssxResInitSecContext : Type 0 where
  pub status : GssxStatus
  pub context_handle : Option GssxCtx
  pub output_token : Option GssxBuffer
  pub options : List GssxOption

pub record GssxResAcceptSecContext : Type 0 where
  pub status : GssxStatus
  pub context_handle : Option GssxCtx
  pub output_token : Option GssxBuffer
  pub delegated_cred_handle : Option GssxCred
  pub options : List GssxOption

pub record GssxResGetMic : Type 0 where
  pub status : GssxStatus
  pub context_handle : Option GssxCtx
  pub token_buffer : GssxBuffer
  pub qop_state : Option GssxQop

pub record GssxResVerifyMic : Type 0 where
  pub status : GssxStatus
  pub context_handle : Option GssxCtx
  pub qop_state : Option GssxQop

pub record GssxResWrap : Type 0 where
  pub status : GssxStatus
  pub context_handle : Option GssxCtx
  pub token_buffer : List GssxBuffer
  pub conf_state : Option Bool
  pub qop_state : Option GssxQop

pub record GssxResUnwrap : Type 0 where
  pub status : GssxStatus
  pub context_handle : Option GssxCtx
  pub message_buffer : List GssxBuffer
  pub conf_state : Option Bool
  pub qop_state : Option GssxQop

pub record GssxResWrapSizeLimit : Type 0 where
  pub status : GssxStatus
  pub max_input_size : GssxUint64
