-- ===== src/Gss/Api.antt =====
-- The calls of the GSSAPI and of libkrb5 that src/gp_creds.c makes: a parameter of the model, since
-- the libraries are not in the repository. A call may change the world, which has the key tables, the
-- credential caches and the KDC in it.
use gssproxy.Prelude.{ℕ, List, Option, Bool, ◌⊎◌}
use gssproxy.Gss.Status.{Run, Minor}
use gssproxy.Creds.Service.{CredUsage, KeyValue}

-- The name types that the code gives.
pub data NameType : Type 0 where
  nt_user_name nt_krb5_principal nt_export_name no_type : NameType
  nt_oid : List ℕ → NameType

-- What gss_inquire_cred tells of a credential.
pub record Inquired (Name : Type 0) : Type 0 where
  pub name : Name
  pub lifetime : ℕ
  pub usage : CredUsage
  pub mechanisms : List (List ℕ)

-- A call of libkrb5: an error number, which is a minor status, or a result.
abbrev pub Krb5 : Type 0 → Type 0 → Type 0
Krb5 W A = W → W × (Minor ⊎ A)

pub record Gss (W Name Cred : Type 0) : Type 0 where
  pub import_name : List ℕ → NameType → Run W Name
  pub inquire_cred : Option Cred → Run W (Inquired Name)
  pub compare_name : Name → Name → Run W Bool
  -- The name, if one is given, the usage and the credential store.
  pub acquire_cred_from : Option Name → CredUsage → List KeyValue → Run W Cred
  pub acquire_cred_impersonate_name : Option Cred → Option Name → Run W Cred
  -- The token for a context with the given name, and the credential that is delegated with it.
  pub init_sec_context : Cred → Name → Run W (List ℕ)
  pub accept_sec_context : Option Cred → List ℕ → Run W (Option Cred)
  -- The buffers that GSS_KRB5_GET_CRED_IMPERSONATOR gives.
  pub cred_impersonator : Cred → Run W (List (List ℕ))
  -- gss_canonicalize_name and gss_display_name
  pub canonicalize_name : Name → Run W Name
  pub display_name : Name → Run W (List ℕ)
  pub krb5_init_context : Krb5 W (Unit {0})
  -- A credential put into the cache of the name; a cache by its name; its entry "proxy_impersonator".
  pub store_cred_into : Cred → List ℕ → Run W (Unit {0})
  pub cc_resolve : List ℕ → Krb5 W (Unit {0})
  pub cc_get_config : List ℕ → Krb5 W (List ℕ)
