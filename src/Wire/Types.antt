-- ===== src/Wire/Types.antt =====
-- The data types of the protocol: rpcgen/gss_proxy.h.
use gssproxy.Prelude.{ℕ, zero, suc, Bool, List}
use gssproxy.Wire.Filter.{UInt}

-- Counted arrays of bytes: the length and the pointer.
abbrev pub Utf8string : Type 0
Utf8string = List ℕ

abbrev pub OctetString : Type 0
OctetString = List ℕ

abbrev pub GssxBuffer : Type 0
GssxBuffer = OctetString

abbrev pub GssxOid : Type 0
GssxOid = OctetString

abbrev pub GssxOidSet : Type 0
GssxOidSet = List GssxOid

-- u_quad_t
abbrev pub GssxUint64 : Type 0
GssxUint64 = UInt 64

abbrev pub GssxQop : Type 0
GssxQop = UInt 64

abbrev pub GssxTime : Type 0
GssxTime = UInt 64

-- The enums are ints, of which the peer may send any.
abbrev pub GssxCredUsage : Type 0
GssxCredUsage = UInt 32

abbrev pub GssxHandleType : Type 0
GssxHandleType = UInt 32

pub record GssxOption : Type 0 where
  pub option : GssxBuffer
  pub value : GssxBuffer

pub record GssxMechAttr : Type 0 where
  pub attr : GssxOid
  pub name : GssxBuffer
  pub short_desc : GssxBuffer
  pub long_desc : GssxBuffer
  pub extensions : List GssxOption

pub record GssxMechInfo : Type 0 where
  pub mech : GssxOid
  pub name_types : GssxOidSet
  pub mech_attrs : GssxOidSet
  pub known_mech_attrs : GssxOidSet
  pub cred_options : GssxOidSet
  pub sec_ctx_options : GssxOidSet
  pub saslname_sasl_mech_name : GssxBuffer
  pub saslname_mech_name : GssxBuffer
  pub saslname_mech_desc : GssxBuffer
  pub extensions : List GssxOption

pub record GssxNameAttr : Type 0 where
  pub attr : GssxBuffer
  pub value : GssxBuffer
  pub extensions : List GssxOption

pub record GssxStatus : Type 0 where
  pub major_status : GssxUint64
  pub mech : GssxOid
  pub minor_status : GssxUint64
  pub major_status_string : Utf8string
  pub minor_status_string : Utf8string
  pub server_ctx : OctetString
  pub options : List GssxOption

pub record GssxCallCtx : Type 0 where
  pub locale : Utf8string
  pub server_ctx : OctetString
  pub options : List GssxOption

pub record GssxName : Type 0 where
  pub display_name : GssxBuffer
  pub name_type : GssxOid
  pub exported_name : GssxBuffer
  pub exported_composite_name : GssxBuffer
  pub name_attributes : List GssxNameAttr
  pub extensions : List GssxOption

pub record GssxCredElement : Type 0 where
  pub mn : GssxName
  pub mech : GssxOid
  pub cred_usage : GssxCredUsage
  pub initiator_time_rec : GssxTime
  pub acceptor_time_rec : GssxTime
  pub options : List GssxOption

pub record GssxCred : Type 0 where
  pub desired_name : GssxName
  pub elements : List GssxCredElement
  pub cred_handle_reference : OctetString
  pub needs_release : Bool

pub record GssxCtx : Type 0 where
  pub exported_context_token : GssxBuffer
  pub state : OctetString
  pub needs_release : Bool
  pub mech : GssxOid
  pub src_name : GssxName
  pub targ_name : GssxName
  pub lifetime : GssxTime
  pub ctx_flags : GssxUint64
  pub locally_initiated : Bool
  pub is_open : Bool
  pub options : List GssxOption

-- The member of the union of gssx_handle that its type selects: GSSX_C_HANDLE_SEC_CTX is 0,
-- GSSX_C_HANDLE_CRED is 1.
pub data Member : Type 0 where
  cred_info sec_ctx_info extensions : Member

unfoldable pub member : ℕ → Member
member zero = sec_ctx_info
member (suc zero) = cred_info
member (suc (suc n)) = extensions

unfoldable pub Payload : Member → Type 0
Payload cred_info = GssxCred
Payload sec_ctx_info = GssxCtx
Payload extensions = OctetString

pub record GssxHandle : Type 0 where
  pub handle_type : GssxHandleType
  pub gssx_handle_u : Payload (member handle_type.0)

pub record GssxCb : Type 0 where
  pub initiator_addrtype : GssxUint64
  pub initiator_address : GssxBuffer
  pub acceptor_addrtype : GssxUint64
  pub acceptor_address : GssxBuffer
  pub application_data : GssxBuffer
