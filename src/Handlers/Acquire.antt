-- ===== src/Handlers/Acquire.antt =====
-- gp_acquire_cred of src/gp_rpc_acquire_cred.c, up to the conversion of the status for the reply.
use gssproxy.Prelude.{
  ℕ, List, [], ◌∷◌, Bool, true, false, if◌then◌else◌, Option, none, some, enomem, einval,
}
use gssproxy.Creds.Service.{Service}
use gssproxy.Creds.Options.{AcquireType, acq_normal, acq_impname, acq_invalid, get_acquire_type}
use gssproxy.Creds.Check.{mech_krb5}
use gssproxy.Creds.Environment.{Host}
use gssproxy.Creds.Acquire.{add_krb5_creds}
use gssproxy.Export.Padding.{Krb5}
use gssproxy.Export.Names.{or_failure}
use gssproxy.Export.Handle.{CredCalls, export_gssx_cred, import_gssx_cred}
use gssproxy.Gss.Api.{Gss}
use gssproxy.Gss.Names.{equal}
use gssproxy.Gss.Status.{Run, ◌>>=◌, return, goto_done, failure, bad_mech, no_cred, no_minor, errno}
use gssproxy.Handlers.Mechs.{SetCalls, gssx_to_oid_set, gssx_to_cred_usage, choose_mechs}
use gssproxy.Wire.Types.{GssxOid, GssxCred}
use gssproxy.Wire.Args.{GssxArgAcquireCred}

-- What a handler works with: the libraries, the host, the service with its key, and the peer.
pub record World (W Name Cred : Type 0) : Type 0 where
  pub gss : Gss W Name Cred
  pub calls : CredCalls W Name Cred
  pub sets : SetCalls W
  pub host : Host
  pub svc : Service
  pub handle : Option Krb5
  pub char_signed : Bool
  pub uid : ℕ

-- The variables in_cred, out_cred and acquire_type; `none` is GSS_C_NO_CREDENTIAL.
pub record Vars (Cred : Type 0) : Type 0 where
  pub in_cred : Option Cred
  pub out_cred : Option Cred
  pub acquire_type : AcquireType

-- sizeof(gssx_cred), where pointers have eight bytes
abbrev pub cred_size : ℕ
cred_size = 136

module _ {W Name Cred : Type 0} (at : World W Name Cred) where
  unfoldable pub with_type : Option Cred → AcquireType → Run W (Vars Cred)
  with_type cred acq_invalid = goto_done failure (errno einval)
  with_type cred acq_normal =
      return record { in_cred = cred; out_cred = none; acquire_type = acq_normal }
  with_type cred acq_impname =
      return record { in_cred = cred; out_cred = none; acquire_type = acq_impname }

  -- The handle that the client has sent, if any.
  unfoldable pub import_input : GssxArgAcquireCred → Option GssxCred → Run W (Vars Cred)
  unfolding import_gssx_cred with_type get_acquire_type
  import_input aca none =
      return record { in_cred = none; out_cred = none; acquire_type = acq_normal }
  import_input aca (some c) =
      import_gssx_cred at.calls at.host.malloc at.handle at.char_signed c >>= λ cred.
      with_type cred (get_acquire_type aca.options)

  -- *add_out_cred
  unfoldable pub put_cred : Bool → Option Cred → Vars Cred → Vars Cred
  put_cred true cred v = record v { in_cred = cred }
  put_cred false cred v = record v { out_cred = cred }

  -- The loop over the mechanisms.
  unfoldable pub acquire_mechs : GssxArgAcquireCred → List GssxOid → Vars Cred → Run W (Vars Cred)
  unfolding equal add_krb5_creds put_cred gssx_to_cred_usage
  acquire_mechs aca [] v = return v
  acquire_mechs aca (mech ∷ mechs) v =
      let further = acquire_mechs aca mechs in
      if equal mech mech_krb5
      then (add_krb5_creds at.gss at.host at.svc at.uid v.acquire_type v.in_cred aca.desired_name
            (gssx_to_cred_usage aca.cred_usage)
          >>= λ cred. further (put_cred aca.add_cred_to_input_handle cred v))
      else goto_done bad_mech no_minor

  -- The handle for the reply: a credential that was acquired in out_cred is exported, and for one in
  -- in_cred the handle of the client goes back.
  unfoldable pub reply_handle :
      GssxArgAcquireCred → Option Cred → Option Cred → Run W (Option GssxCred)
  unfolding export_gssx_cred
  reply_handle aca (some out) in_cred =
      if at.host.malloc cred_size
      then (export_gssx_cred at.calls at.host.malloc at.handle out >>= λ c. return (some c))
      else goto_done failure (errno enomem)
  reply_handle aca none (some cred) = return aca.input_cred_handle
  reply_handle aca none none = goto_done no_cred no_minor

  -- gp_acquire_cred: the output_cred_handle of its reply.
  unfoldable pub acquire_cred : GssxArgAcquireCred → Run W (Option GssxCred)
  unfolding import_input or_failure gssx_to_oid_set choose_mechs acquire_mechs reply_handle
  acquire_cred aca = do
    v ← import_input aca aca.input_cred_handle
    desired ← or_failure (gssx_to_oid_set at.host.malloc aca.desired_mechs)
    use_mechs ← choose_mechs at.sets at.svc desired
    v ← acquire_mechs aca use_mechs v
    reply_handle aca v.out_cred v.in_cred
