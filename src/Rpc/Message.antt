-- ===== src/Rpc/Message.antt =====
-- The ONC RPC message: rpcgen/gp_rpc.h. Enum values are numbers, since XDR decodes any number; a
-- tagged union is a data type, with a constructor for the tags that hold no member.
use gssproxy.Prelude.{ℕ, ◌<◌, ◌^◌, ◌≢◌, List, []}

abbrev pub gp_rpc_auth_none : ℕ
gp_rpc_auth_none = 0

-- enum gp_rpc_msg_type
abbrev pub gp_rpc_call : ℕ
gp_rpc_call = 0

abbrev pub gp_rpc_reply : ℕ
gp_rpc_reply = 1

-- enum gp_rpc_reply_status
abbrev pub gp_rpc_msg_accepted : ℕ
gp_rpc_msg_accepted = 0

abbrev pub gp_rpc_msg_denied : ℕ
gp_rpc_msg_denied = 1

-- enum gp_rpc_accept_status
abbrev pub gp_rpc_success : ℕ
gp_rpc_success = 0

abbrev pub gp_rpc_prog_unavail : ℕ
gp_rpc_prog_unavail = 1

abbrev pub gp_rpc_prog_mismatch : ℕ
gp_rpc_prog_mismatch = 2

abbrev pub gp_rpc_proc_unavail : ℕ
gp_rpc_proc_unavail = 3

abbrev pub gp_rpc_garbage_args : ℕ
gp_rpc_garbage_args = 4

abbrev pub gp_rpc_system_err : ℕ
gp_rpc_system_err = 5

-- enum gp_rpc_reject_status
abbrev pub gp_rpc_rpc_mismatch : ℕ
gp_rpc_rpc_mismatch = 0

abbrev pub gp_rpc_auth_error : ℕ
gp_rpc_auth_error = 1

-- of enum gp_rpc_auth_status
abbrev pub gp_rpc_auth_failed : ℕ
gp_rpc_auth_failed = 7

pub record OpaqueAuth : Type 0 where
  pub flavor : ℕ
  pub body : List ℕ

pub record MismatchInfo : Type 0 where
  pub low : ℕ
  pub high : ℕ

pub data ReplyUnion : Type 0 where
  results : ReplyUnion
  mismatch_info : MismatchInfo → ReplyUnion
  no_data : (status : ℕ) → ReplyUnion

pub record AcceptedReply : Type 0 where
  pub verf : OpaqueAuth
  pub reply_data : ReplyUnion

pub data RejectedReply : Type 0 where
  rpc_mismatch : MismatchInfo → RejectedReply
  auth_error : (status : ℕ) → RejectedReply
  bad_reject : (status : ℕ) → RejectedReply

pub data ReplyHeader : Type 0 where
  accepted : AcceptedReply → ReplyHeader
  rejected : RejectedReply → ReplyHeader
  bad_reply : (status : ℕ) → ReplyHeader

pub record CallHeader : Type 0 where
  pub rpcvers : ℕ
  pub prog : ℕ
  pub vers : ℕ
  pub proc : ℕ
  pub cred : OpaqueAuth
  pub verf : OpaqueAuth

pub data MsgUnion : Type 0 where
  chdr : CallHeader → MsgUnion
  rhdr : ReplyHeader → MsgUnion
  bad_msg : (type : ℕ) → MsgUnion

pub record RpcMsg : Type 0 where
  pub xid : ℕ
  pub header : MsgUnion

-- The value of an `opaque_auth` that memset has cleared, with the flavor AUTH_NONE.
abbrev pub auth_none : OpaqueAuth
auth_none = record { flavor = gp_rpc_auth_none; body = [] }

-- The accepted reply of the server, whose verifier is empty.
abbrev pub accept : ReplyUnion → AcceptedReply
accept u = record { verf = auth_none; reply_data = u }

-- Every number of a message fits in its 32 bits, and no tag names a member that is not there.
abbrev pub IsWord : ℕ → Type 0
IsWord n = n < 2 ^ 32

abbrev pub IsAuth : OpaqueAuth → Type 0
IsAuth a = IsWord a.flavor

pub record IsMismatch (m : MismatchInfo) : Type 0 where
  pub low_word : IsWord m.low
  pub high_word : IsWord m.high

abbrev pub IsReplyUnion : ReplyUnion → Type 0
IsReplyUnion results = Unit
IsReplyUnion (mismatch_info m) = IsMismatch m
IsReplyUnion (no_data s) = IsWord s × (s ≢ gp_rpc_success) × (s ≢ gp_rpc_prog_mismatch)

abbrev pub IsRejected : RejectedReply → Type 0
IsRejected (rpc_mismatch m) = IsMismatch m
IsRejected (auth_error s) = IsWord s
IsRejected (bad_reject s) = (s ≢ gp_rpc_rpc_mismatch) × (s ≢ gp_rpc_auth_error)

abbrev pub IsReplyHeader : ReplyHeader → Type 0
IsReplyHeader (accepted a) = IsAuth a.verf × IsReplyUnion a.reply_data
IsReplyHeader (rejected r) = IsRejected r
IsReplyHeader (bad_reply s) = (s ≢ gp_rpc_msg_accepted) × (s ≢ gp_rpc_msg_denied)

pub record IsCallHeader (c : CallHeader) : Type 0 where
  pub rpcvers_word : IsWord c.rpcvers
  pub prog_word : IsWord c.prog
  pub vers_word : IsWord c.vers
  pub proc_word : IsWord c.proc
  pub cred_word : IsAuth c.cred
  pub verf_word : IsAuth c.verf

abbrev pub IsMsgUnion : MsgUnion → Type 0
IsMsgUnion (chdr c) = IsCallHeader c
IsMsgUnion (rhdr r) = IsReplyHeader r
IsMsgUnion (bad_msg t) = (t ≢ gp_rpc_call) × (t ≢ gp_rpc_reply)

abbrev pub IsRpcMsg : RpcMsg → Type 0
IsRpcMsg m = IsWord m.xid × IsMsgUnion m.header
