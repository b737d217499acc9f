-- ===== src/Creds/Acquire.antt =====
-- gp_add_krb5_creds of src/gp_creds.c. Its callers ask neither for the mechanisms nor for the times of
-- the credential.
use gssproxy.Prelude.{
  ℕ, List, [], ◌∷◌, ◌++◌, Bool, true, false, if◌then◌else◌, Option, none, some, efault,
}
use gssproxy.Creds.Service.{Service, CredUsage, both}
use gssproxy.Creds.Options.{AcquireType, acq_normal, acq_impname, acq_invalid}
use gssproxy.Creds.Check.{check_cred}
use gssproxy.Creds.Environment.{try_impersonate, Environment, Host, get_cred_environment}
use gssproxy.Gss.Status.{
  Major, Outcome, done, stop, fault, Run, ◌>>=◌, return, goto_done, cred_unavail, no_cred,
  credentials_expired, defective_credential, failure, errno,
}
use gssproxy.Gss.Api.{Gss, nt_krb5_principal}
use gssproxy.Gss.Names.{gssx_to_name}
use gssproxy.Wire.Types.{GssxName}

-- The statuses of gp_check_cred after which new credentials are acquired.
unfoldable pub is_retried : Major → Bool
is_retried credentials_expired = true
is_retried no_cred = true
is_retried defective_credential = true
is_retried _ = false

module _ {W Name Cred : Type 0} (gss : Gss W Name Cred) (host : Host) (svc : Service) where
  unfoldable pub environment_of :
      ℕ → AcquireType → Option GssxName → CredUsage → Run W (Environment Name)
  unfolding get_cred_environment gssx_to_name
  environment_of uid acq_normal desired usage = get_cred_environment gss host svc uid desired usage
  environment_of uid acq (some desired) usage = gssx_to_name gss host.malloc desired >>= λ n.
      return record { cred_usage = usage; requested_name = some n; cs = []; destroy = none }
  environment_of uid acq none usage =
      return record { cred_usage = usage; requested_name = none; cs = []; destroy = none }

  unfoldable pub host_principal : Option (List ℕ) → Run W (Option Name)
  host_principal none = return none
  host_principal (some principal) =
      gss.import_name (principal ++ 0 ∷ []) nt_krb5_principal >>= λ n. return (some n)

  -- The credential of the impersonator is that of the name which is asked for.
  unfoldable pub is_impersonator : Cred → Option Name → Run W Bool
  is_impersonator imp none = return false
  is_impersonator imp (some req) = do
    inq ← gss.inquire_cred (some imp)
    gss.compare_name inq.name req

  -- The dance of s4u2self: the user's credential, and after ACQ_NORMAL a context from the user to the
  -- impersonator itself, with which a credential is delegated.
  unfoldable pub to_self : Cred → Name → Option Cred → Run W (Option Cred)
  to_self user target input = do
    token ← gss.init_sec_context user target
    gss.accept_sec_context input token

  unfoldable pub dance : AcquireType → Option Cred → Option Name → Run W (Option Cred)
  unfolding to_self
  dance acq_impname input req = do
    target ← gss.inquire_cred input
    user ← gss.acquire_cred_impersonate_name input req
    return (some user)
  dance acq input req = do
    target ← gss.inquire_cred input
    user ← gss.acquire_cred_impersonate_name input req
    to_self user target.name input

  -- A failure to acquire the user's own credential falls through to the impersonation.
  unfoldable pub or_dance : Cred → Environment Name → W × Outcome Cred → W × Outcome (Option Cred)
  unfolding dance
  or_dance imp env (w, done user) = (w, done (some user))
  or_dance imp env (w, stop maj min) = dance acq_normal (some imp) env.requested_name w
  or_dance imp env (w, fault) = (w, fault)

  unfoldable pub as_impersonator : Cred → Environment Name → Bool → Run W (Option Cred)
  unfolding or_dance dance
  as_impersonator imp env true w =
      or_dance imp env (gss.acquire_cred_from env.requested_name env.cred_usage env.cs w)
  as_impersonator imp env false w = dance acq_normal (some imp) env.requested_name w

  unfoldable pub impersonation : AcquireType → Option Cred → Environment Name → Run W (Option Cred)
  unfolding host_principal is_impersonator as_impersonator dance
  impersonation acq_normal in_cred env = do
    principal ← host_principal svc.krb5.principal
    imp ← gss.acquire_cred_from principal both env.cs
    same ← is_impersonator imp env.requested_name
    as_impersonator imp env same
  impersonation acq_impname in_cred env = dance acq_impname in_cred env.requested_name
  impersonation acq_invalid in_cred env = goto_done failure (errno efault)

  unfoldable pub acquire_in : AcquireType → Option Cred → Environment Name → Run W (Option Cred)
  unfolding try_impersonate impersonation
  acquire_in acq in_cred env =
      if try_impersonate svc env.cred_usage acq
      then impersonation acq in_cred env
      else (gss.acquire_cred_from env.requested_name env.cred_usage env.cs >>= λ c. return (some c))

  unfoldable pub acquire :
      ℕ → AcquireType → Option Cred → Option GssxName → CredUsage → Run W (Option Cred)
  unfolding environment_of acquire_in
  acquire uid acq in_cred desired usage = do
    env ← environment_of uid acq desired usage
    acquire_in acq in_cred env

  -- After gp_check_cred, whose success leaves *output_cred_handle at GSS_C_NO_CREDENTIAL.
  unfoldable pub after_check :
      {A : Type 0} → Run W (Option Cred) → W × Outcome A → W × Outcome (Option Cred)
  unfolding is_retried
  after_check again (w, done u) = (w, done none)
  after_check again (w, stop maj min) =
      if is_retried maj then again w else (w, stop cred_unavail min)
  after_check again (w, fault) = (w, fault)

  unfoldable pub add_krb5_creds :
      ℕ → AcquireType → Option Cred → Option GssxName → CredUsage → Run W (Option Cred)
  unfolding acquire after_check check_cred
  add_krb5_creds uid acq none desired usage w = acquire uid acq none desired usage w
  add_krb5_creds uid acq_impname (some cred) desired usage w =
      acquire uid acq_impname (some cred) desired usage w
  add_krb5_creds uid acq (some cred) desired usage w =
      after_check (acquire uid acq (some cred) desired usage)
        (check_cred gss host.malloc svc cred desired usage w)
