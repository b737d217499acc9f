-- ===== src/Creds/Service.antt =====
-- src/gp_proxy.h: struct gp_service and its parts. The event handle and the handle of the service's
-- own credentials, which libverto and src/gp_export.c own, are left out.
use Prim.Native.String.{String}
use gssproxy.Prelude.{ℕ, List, Option, Bool}

-- A SELinux context by its parts, as the accessors of libselinux give them.
pub record SelinuxCtx : Type 0 where
  pub user : String
  pub role : String
  pub type : String
  pub range : Option String

-- gss_cred_usage_t
pub data CredUsage : Type 0 where
  both initiate accept : CredUsage

-- An element of gss_key_value_set_desc, two strings of bytes.
pub record KeyValue : Type 0 where
  pub key : List ℕ
  pub value : List ℕ

-- struct gp_cred_krb5
pub record CredKrb5 : Type 0 where
  pub principal : Option (List ℕ)
  pub store : List KeyValue

pub record Service : Type 0 where
  pub name : String
  pub euid : ℕ
  pub any_uid : Bool
  pub allow_proto_trans : Bool
  pub allow_const_deleg : Bool
  pub allow_cc_sync : Bool
  pub trusted : Bool
  pub kernel_nfsd : Bool
  pub impersonate : Bool
  pub socket : Option String
  pub selinux_ctx : Option SelinuxCtx
  pub cred_usage : CredUsage
  pub filter_flags : ℕ
  pub enforce_flags : ℕ
  pub min_lifetime : ℕ
  pub program : Option String
  pub mechs : ℕ
  pub krb5 : CredKrb5

-- struct gp_conn of src/gp_socket.c: what the kernel told of the client when it connected.
pub record Conn : Type 0 where
  pub uid : ℕ  -- creds.ucred.uid
  pub cred_selinux : Bool  -- creds.type has CRED_TYPE_SELINUX
  pub selinux_ctx : Option SelinuxCtx
  pub program : Option String
  pub socket : Option String  -- sock_ctx->socket
