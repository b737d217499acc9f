-- ===== src/Creds/Impersonation.antt =====
-- gp_add_krb5_creds acquires no credential by impersonation for a service that does not allow it.
use gssproxy.Prelude.{ℕ, ◌≡◌, refl, ap, ◌∙◌, false, if◌then◌else◌, Option, none, some}
use gssproxy.Creds.Service.{Service, CredUsage, both, initiate, accept}
use gssproxy.Creds.Options.{AcquireType, acq_normal, acq_impname, acq_invalid}
use gssproxy.Creds.Check.{check_cred, check_inquired, check_name}
use gssproxy.Creds.Environment.{
  try_impersonate, Environment, Host, get_cred_environment, with_usage, environment_for,
  principal_name, impersonate_target, import_user, choose_target,
}
use gssproxy.Creds.Acquire.{
  environment_of, acquire_in, acquire, after_check, add_krb5_creds, is_retried,
}
use gssproxy.Gss.Status.{Outcome, done, stop, fault, Run, ◌>>=◌, cred_unavail}
use gssproxy.Gss.Api.{Gss}
use gssproxy.Gss.Names.{gssx_to_name, import_display, import_typed}
use gssproxy.Wire.Types.{GssxName}

-- The service allows no impersonation for this type of acquisition.
pub record Forbids (svc : Service) (acq : AcquireType) : Type 0 where
  pub not_configured : svc.impersonate ≡ false
  pub not_asked : acq ≡ acq_impname → (svc.allow_proto_trans ≡ false) × (svc.trusted ≡ false)

forbids :
    (svc : Service) (acq : AcquireType) (usage : CredUsage)
    → Forbids svc acq
    → try_impersonate svc usage acq ≡ false
unfolding try_impersonate
forbids svc acq_normal both no_imp = no_imp.not_configured
forbids svc acq_normal initiate no_imp = no_imp.not_configured
forbids svc acq_normal accept no_imp = refl
forbids svc acq_invalid both no_imp = no_imp.not_configured
forbids svc acq_invalid initiate no_imp = no_imp.not_configured
forbids svc acq_invalid accept no_imp = refl
forbids svc acq_impname both no_imp =
    let (p, q) = no_imp.not_asked refl in rw (p, q, no_imp.not_configured) refl
forbids svc acq_impname initiate no_imp =
    let (p, q) = no_imp.not_asked refl in rw (p, q, no_imp.not_configured) refl
forbids svc acq_impname accept no_imp = let (p, q) = no_imp.not_asked refl in rw (p, q) refl

module _ {W Name Cred : Type 0} (gss : Gss W Name Cred) (f : Option Cred → Option Name → Run W Cred)
    (host : Host) (svc : Service) where
  -- The library with another gss_acquire_cred_impersonate_name.
  abbrev pub other : Gss W Name Cred
  other = record gss { acquire_cred_impersonate_name = f }

  acquire_in-other :
      (acq : AcquireType) (in_cred : Option Cred)
      → Forbids svc acq
      → (env : Environment Name)
      → acquire_in other host svc acq in_cred env ≡ acquire_in gss host svc acq in_cred env
  unfolding acquire_in
  acquire_in-other acq in_cred no_imp env = rw (forbids svc acq env.cred_usage no_imp) refl

  environment_other :
      (uid : ℕ) (acq : AcquireType) (desired : Option GssxName) (usage : CredUsage)
      → environment_of other host svc uid acq desired usage
        ≡ environment_of gss host svc uid acq desired usage
  unfolding environment_of get_cred_environment with_usage environment_for principal_name
      impersonate_target import_user choose_target gssx_to_name import_display import_typed
  environment_other uid acq_normal desired usage = refl
  environment_other uid acq_impname none usage = refl
  environment_other uid acq_impname (some desired) usage = refl
  environment_other uid acq_invalid none usage = refl
  environment_other uid acq_invalid (some desired) usage = refl

  acquire-other :
      (uid : ℕ) (acq : AcquireType) (in_cred : Option Cred) (desired : Option GssxName)
      (usage : CredUsage)
      → Forbids svc acq
      → (w : W)
      → acquire other host svc uid acq in_cred desired usage w
        ≡ acquire gss host svc uid acq in_cred desired usage w
  unfolding acquire
  acquire-other uid acq in_cred desired usage no_imp w = λ i.
      ((environment_other uid acq desired usage i) >>= λ env.
      acquire_in-other acq in_cred no_imp env i)
        w

  check_other :
      (cred : Cred) (desired : Option GssxName) (usage : CredUsage) (w : W)
      → check_cred other host.malloc svc cred desired usage w
        ≡ check_cred gss host.malloc svc cred desired usage w
  unfolding check_cred check_inquired check_name gssx_to_name import_display import_typed
  check_other cred none usage w = refl
  check_other cred (some desired) usage w = refl

  after_check-other :
      {A : Type 0} {again again' : Run W (Option Cred)}
      → ((w : W) → again w ≡ again' w)
      → (o : W × Outcome A) → after_check other host svc again o ≡ after_check gss host svc again' o
  unfolding after_check
  after_check-other same (w, done u) = refl
  after_check-other same (w, stop maj min) =
      ap (λ r. if is_retried maj then r else (w, stop cred_unavail min)) (same w)
  after_check-other same (w, fault) = refl

  -- A service that has not `impersonate`, and for an acquisition by impersonation neither
  -- `allow_proto_trans` nor `trusted`, gets no credential from gss_acquire_cred_impersonate_name:
  -- gp_add_krb5_creds does the same whatever that call would do.
  pub add_krb5_creds_impersonates_not :
      (uid : ℕ) (acq : AcquireType) (in_cred : Option Cred) (desired : Option GssxName)
      (usage : CredUsage) (w : W)
      → Forbids svc acq
      → add_krb5_creds other host svc uid acq in_cred desired usage w
        ≡ add_krb5_creds gss host svc uid acq in_cred desired usage w
  unfolding add_krb5_creds
  add_krb5_creds_impersonates_not uid acq none desired usage w no_imp =
      acquire-other uid acq none desired usage no_imp w
  add_krb5_creds_impersonates_not uid acq_impname (some cred) desired usage w no_imp =
      acquire-other uid acq_impname (some cred) desired usage no_imp w
  add_krb5_creds_impersonates_not uid acq_normal (some cred) desired usage w no_imp =
      ap
        (after_check other host svc
          (acquire other host svc uid acq_normal (some cred) desired usage))
        (check_other cred desired usage w)
      ∙ after_check-other (acquire-other uid acq_normal (some cred) desired usage no_imp)
          (check_cred gss host.malloc svc cred desired usage w)
  add_krb5_creds_impersonates_not uid acq_invalid (some cred) desired usage w no_imp =
      ap
        (after_check other host svc
          (acquire other host svc uid acq_invalid (some cred) desired usage))
        (check_other cred desired usage w)
      ∙ after_check-other (acquire-other uid acq_invalid (some cred) desired usage no_imp)
          (check_cred gss host.malloc svc cred desired usage w)
