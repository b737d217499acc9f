-- ===== src/Handlers/Impersonation.antt =====
-- gp_acquire_cred impersonates nobody for a service that is not configured for it.
use gssproxy.Prelude.{
  ◌≡◌, refl, List, [], ◌∷◌, Bool, true, false, if◌then◌else◌, Option, none, some,
}
use gssproxy.Creds.Service.{Service}
use gssproxy.Creds.Options.{AcquireType, acq_normal, acq_impname, acq_invalid, get_acquire_type}
use gssproxy.Creds.Check.{mech_krb5}
use gssproxy.Creds.Impersonation.{Forbids, other, add_krb5_creds_impersonates_not}
use gssproxy.Export.Handle.{import_gssx_cred}
use gssproxy.Export.Names.{or_failure}
use gssproxy.Gss.Status.{Run, ◌>>=◌, goto_done, bad_mech, no_minor}
use gssproxy.Gss.Names.{equal}
use gssproxy.Handlers.Mechs.{gssx_to_oid_set, gssx_to_cred_usage, choose_mechs}
use gssproxy.Handlers.Acquire.{
  World, Vars, with_type, import_input, put_cred, acquire_mechs, reply_handle, acquire_cred,
}
use gssproxy.Wire.Types.{GssxOid, GssxCred}
use gssproxy.Wire.Args.{GssxArgAcquireCred}

-- The three options of the configuration under which a user is impersonated are off.
pub record IsPlain (svc : Service) : Type 0 where
  pub no_impersonate : svc.impersonate ≡ false
  pub no_proto_trans : svc.allow_proto_trans ≡ false
  pub no_trusted : svc.trusted ≡ false

IsPlain-Forbids : {svc : Service} → IsPlain svc → (acq : AcquireType) → Forbids svc acq
IsPlain-Forbids plain acq = record {
  not_configured = plain.no_impersonate;
  not_asked = λ asked. (plain.no_proto_trans, plain.no_trusted);
}

module _ {W Name Cred : Type 0} (at : World W Name Cred)
    (f : Option Cred → Option Name → Run W Cred) (aca : GssxArgAcquireCred) where
  -- The same, with another gss_acquire_cred_impersonate_name.
  abbrev pub elsewhere : World W Name Cred
  elsewhere = record at { gss = other at.gss f at.host at.svc }

  with_type-elsewhere :
      (cred : Option Cred) (acq : AcquireType)
      → with_type elsewhere cred acq ≡ with_type at cred acq
  unfolding with_type
  with_type-elsewhere cred acq_invalid = refl
  with_type-elsewhere cred acq_normal = refl
  with_type-elsewhere cred acq_impname = refl

  import_input-elsewhere :
      (o : Option GssxCred) → import_input elsewhere aca o ≡ import_input at aca o
  unfolding import_input
  import_input-elsewhere none = refl
  import_input-elsewhere (some c) = λ i.
      import_gssx_cred at.calls at.host.malloc at.handle at.char_signed c >>= λ cred.
      with_type-elsewhere cred (get_acquire_type aca.options) i

  put_cred-elsewhere :
      (adds : Bool) (cred : Option Cred) (v : Vars Cred)
      → put_cred elsewhere adds cred v ≡ put_cred at adds cred v
  unfolding put_cred
  put_cred-elsewhere true cred v = refl
  put_cred-elsewhere false cred v = refl

  reply_handle-elsewhere :
      (out in_cred : Option Cred)
      → reply_handle elsewhere aca out in_cred ≡ reply_handle at aca out in_cred
  unfolding reply_handle
  reply_handle-elsewhere (some out) in_cred = refl
  reply_handle-elsewhere none (some cred) = refl
  reply_handle-elsewhere none none = refl

  module _ (plain : IsPlain at.svc) where
    acquire_mechs-elsewhere :
        (mechs : List GssxOid) (v : Vars Cred)
        → acquire_mechs elsewhere aca mechs v ≡ acquire_mechs at aca mechs v
    unfolding acquire_mechs
    acquire_mechs-elsewhere [] v = refl
    acquire_mechs-elsewhere (mech ∷ mechs) v = λ i.
        if equal mech mech_krb5
        then ((λ w.
              add_krb5_creds_impersonates_not at.gss f at.host at.svc at.uid v.acquire_type
                v.in_cred aca.desired_name (gssx_to_cred_usage aca.cred_usage) w
                (IsPlain-Forbids plain v.acquire_type) i)
            >>= λ cred.
                acquire_mechs-elsewhere mechs
                  (put_cred-elsewhere aca.add_cred_to_input_handle cred v i) i)
        else goto_done bad_mech no_minor

    -- For a service with none of `impersonate`, `allow_proto_trans` and `trusted`, gp_acquire_cred does
    -- the same whatever gss_acquire_cred_impersonate_name would do, and whatever the client asks for.
    pub acquire_cred_impersonates_not :
        (w : W) → acquire_cred elsewhere aca w ≡ acquire_cred at aca w
    unfolding acquire_cred
    acquire_cred_impersonates_not w = λ i.
        (import_input-elsewhere aca.input_cred_handle i >>= λ v.
        or_failure (gssx_to_oid_set at.host.malloc aca.desired_mechs) >>= λ desired.
        choose_mechs at.sets at.svc desired >>= λ use_mechs.
        acquire_mechs-elsewhere use_mechs v i >>= λ v'.
        reply_handle-elsewhere v'.out_cred v'.in_cred i)
          w
