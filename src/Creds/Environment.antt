-- ===== src/Creds/Environment.antt =====
-- gp_get_cred_environment of src/gp_creds.c: the usage, the name and the credential store with which
-- the credentials of a call are acquired, by the service and the peer.
use gssproxy.Prelude.{
  ℕ, ◌+◌, ◌-◌, ◌*◌, ◌%◌, ◌^◌, List, [], ◌∷◌, ◌++◌, Bool, true, false, ◌&&◌, ◌||◌, not, ltb, leb,
  ◌==◌, if◌then◌else◌, Option, none, some, eacces, enoent, enomem,
}
use gssproxy.Creds.Service.{Service, CredUsage, both, initiate, accept, KeyValue}
use gssproxy.Creds.Options.{AcquireType, acq_normal, acq_impname}
use gssproxy.Creds.Store.{Segregated, segregated, unsegregated, faulty_store, make_store}
use gssproxy.Gss.Status.{
  Outcome, done, stop, fault, Run, ◌>>=◌, return, goto_done, cred_unavail, errno, minus_one,
}
use gssproxy.Gss.Api.{Gss, nt_user_name, nt_krb5_principal}
use gssproxy.Gss.Names.{equal, gssx_to_name}
use gssproxy.Wire.Types.{GssxName}

-- try_impersonate
unfoldable pub try_impersonate : Service → CredUsage → AcquireType → Bool
try_impersonate svc accept acq_impname = svc.allow_proto_trans || svc.trusted
try_impersonate svc accept acq = false
try_impersonate svc usage acq_impname = svc.allow_proto_trans || svc.trusted || svc.impersonate
try_impersonate svc usage acq = svc.impersonate

-- The usage that the service is configured for.
unfoldable pub filter_usage : CredUsage → CredUsage → Option CredUsage
filter_usage both asked = some asked
filter_usage configured both = some configured
filter_usage initiate initiate = some initiate
filter_usage accept accept = some accept
filter_usage initiate accept = none
filter_usage accept initiate = none

-- atol, which goes to LONG_MAX or LONG_MIN beyond these, and the conversion of a long to uid_t. The
-- digits are taken to end with the octets.
unfoldable pub atol_digits : ℕ → List ℕ → ℕ
atol_digits n [] = n
atol_digits n (c ∷ cs) =
    let further = atol_digits (n * 10 + (c - 48)) cs in if leb 48 c && leb c 57 then further else n

unfoldable pub long_max : ℕ → ℕ
long_max n = if ltb n (2 ^ 63) then n else 2 ^ 63 - 1

-- The negation, modulo 2 ^ 64.
unfoldable pub negative_long : ℕ → ℕ
negative_long n = if ltb n (2 ^ 63) then 2 ^ 64 - n else 2 ^ 63

unfoldable pub atol : List ℕ → ℕ
unfolding atol_digits long_max negative_long
atol [] = 0
atol (c ∷ cs) =
    let behind = atol cs in
    if (c == 32) || (leb 9 c && leb c 13)
    then behind
    else if c == 45
    then negative_long (atol_digits 0 cs) % 2 ^ 32
    else if c == 43
    then long_max (atol_digits 0 cs) % 2 ^ 32
    else long_max (atol_digits 0 (c ∷ cs)) % 2 ^ 32

-- GSS_C_NT_STRING_UID_NAME and GSS_C_NT_MACHINE_UID_NAME
abbrev pub nt_string_uid_name : List ℕ
nt_string_uid_name = 42 ∷ 134 ∷ 72 ∷ 134 ∷ 247 ∷ 18 ∷ 1 ∷ 2 ∷ 1 ∷ 3 ∷ []

abbrev pub nt_machine_uid_name : List ℕ
nt_machine_uid_name = 42 ∷ 134 ∷ 72 ∷ 134 ∷ 247 ∷ 18 ∷ 1 ∷ 2 ∷ 1 ∷ 2 ∷ []

-- The variables of the function that say for whom credentials are acquired.
pub record Target (Name : Type 0) : Type 0 where
  pub target_uid : ℕ
  pub user_requested : Bool
  pub use_service_keytab : Bool
  pub requested_name : Option Name

-- What the function gives: *cred_usage, *requested_name, *cs and the cache that is destroyed after
-- the call.
pub record Environment (Name : Type 0) : Type 0 where
  pub cred_usage : CredUsage
  pub requested_name : Option Name
  pub cs : List KeyValue
  pub destroy : Option (List ℕ)

-- The calls of the system: the name of a user, and the number of the thread.
pub record Host : Type 0 where
  pub malloc : ℕ → Bool
  pub uid_to_name : ℕ → Option (List ℕ)
  pub tid : ℕ

-- A call that fails with an errno is one of GSS_S_CRED_UNAVAIL to the caller.
unfoldable pub stored :
    {W Name : Type 0} → CredUsage → Option Name → Segregated → Run W (Environment Name)
stored usage name (segregated cs destroy) w =
    (w, done (record { cred_usage = usage; requested_name = name; cs = cs; destroy = destroy }))
stored usage name (unsegregated err) w = (w, stop cred_unavail (errno err))
stored usage name faulty_store w = (w, fault)

module _ {W Name Cred : Type 0} (gss : Gss W Name Cred) (host : Host) (svc : Service) where
  -- An error of the calls that give a name, by the errno that the function returns.
  unfoldable pub or_error : {A : Type 0} → (Outcome A → Outcome A) → Run W A → Run W A
  or_error convert m w = ((m w).0, convert (m w).1)

  unfoldable pub minus_one_error : {A : Type 0} → Outcome A → Outcome A
  minus_one_error (stop maj min) = stop cred_unavail minus_one
  minus_one_error o = o

  unfoldable pub enomem_error : {A : Type 0} → Outcome A → Outcome A
  enomem_error (stop maj min) = stop cred_unavail (errno enomem)
  enomem_error o = o

  unfoldable pub trusted_uid : ℕ → GssxName → Bool
  unfolding equal
  trusted_uid uid name =
      svc.trusted
      && (svc.euid == uid)
      && (equal name.name_type nt_string_uid_name || equal name.name_type nt_machine_uid_name)

  unfoldable pub named : ℕ → Name → Target Name
  named uid name = record {
    target_uid = uid;
    user_requested = not (svc.euid == uid);
    use_service_keytab = svc.euid == uid;
    requested_name = some name;
  }

  -- `if (desired_name)`
  unfoldable pub choose_target : ℕ → Option GssxName → Run W (Target Name)
  unfolding trusted_uid or_error minus_one_error named gssx_to_name atol
  choose_target uid none = return record {
    target_uid = uid;
    user_requested = not (svc.euid == uid);
    use_service_keytab = svc.trusted && (svc.euid == uid);
    requested_name = none;
  }
  choose_target uid (some name) =
      if trusted_uid uid name
      then return record {
        target_uid = atol name.display_name;
        user_requested = true;
        use_service_keytab = false;
        requested_name = none;
      }
      else or_error minus_one_error (gssx_to_name gss host.malloc name) >>= λ n.
          return (named uid n)

  unfoldable pub import_user : Target Name → Option (List ℕ) → Run W (Target Name)
  unfolding or_error enomem_error
  import_user t none = goto_done cred_unavail (errno enoent)
  import_user t (some user) = or_error enomem_error (gss.import_name user nt_user_name) >>= λ n.
      return (record t { use_service_keytab = true; requested_name = some n })

  -- The impersonation case.
  unfoldable pub impersonate_target : CredUsage → Target Name → Run W (Target Name)
  unfolding import_user try_impersonate
  impersonate_target usage t =
      if t.user_requested && try_impersonate svc usage acq_normal
      then import_user t (host.uid_to_name t.target_uid)
      else return t

  -- The name that the configuration gives.
  unfoldable pub principal_name : Bool → Option (List ℕ) → Option Name → Run W (Option Name)
  unfolding or_error minus_one_error
  principal_name true (some principal) none =
      or_error minus_one_error (gss.import_name (principal ++ 0 ∷ []) nt_krb5_principal) >>= λ n.
      return (some n)
  principal_name use_service_keytab principal name = return name

  unfoldable pub environment_for : CredUsage → Target Name → Run W (Environment Name)
  unfolding principal_name stored make_store
  environment_for usage t = do
    name ← principal_name t.use_service_keytab svc.krb5.principal t.requested_name
    stored usage name (
        make_store host.malloc (host.uid_to_name t.target_uid) t.target_uid host.tid
          t.use_service_keytab svc.krb5.store)

  unfoldable pub with_usage : ℕ → Option GssxName → Option CredUsage → Run W (Environment Name)
  unfolding choose_target impersonate_target environment_for
  with_usage uid desired none = goto_done cred_unavail (errno eacces)
  with_usage uid desired (some usage) = do
    t ← choose_target uid desired
    t ← impersonate_target usage t
    environment_for usage t

  unfoldable pub get_cred_environment : ℕ → Option GssxName → CredUsage → Run W (Environment Name)
  unfolding filter_usage with_usage
  get_cred_environment uid desired asked =
      with_usage uid desired (filter_usage svc.cred_usage asked)
