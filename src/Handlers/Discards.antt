-- ===== src/Handlers/Discards.antt =====
-- What gp_acquire_cred does with a credential that is to be added to the client's handle.
use gssproxy.Prelude.{◌≡◌, refl, ap, sym, ◌∙◌, List, [], ◌∷◌, true, Option, none, some}
use gssproxy.Creds.Options.{AcquireType, acq_normal, acq_impname, acq_invalid, get_acquire_type}
use gssproxy.Creds.Acquire.{add_krb5_creds}
use gssproxy.Creds.Check.{mech_krb5}
use gssproxy.Export.Handle.{import_gssx_cred}
use gssproxy.Export.Names.{or_failure}
use gssproxy.Gss.Status.{done, goto_done, bad_mech, no_minor}
use gssproxy.Gss.Inversion.{>>=-eq-done, if-eq-done, return-eq-done}
use gssproxy.Gss.Names.{equal}
use gssproxy.Handlers.Mechs.{gssx_to_oid_set, gssx_to_cred_usage, choose_mechs}
use gssproxy.Handlers.Acquire.{
  World, Vars, with_type, import_input, put_cred, acquire_mechs, reply_handle, acquire_cred,
}
use gssproxy.Wire.Types.{GssxOid, GssxCred}
use gssproxy.Wire.Args.{GssxArgAcquireCred}

module _ {W Name Cred : Type 0} (at : World W Name Cred) (aca : GssxArgAcquireCred) where
  with_type-out_cred :
      (cred : Option Cred) (acq : AcquireType) (w w' : W) (v : Vars Cred)
      → with_type at cred acq w ≡ (w', done v)
      → v.out_cred ≡ none
  unfolding with_type goto_done
  with_type-out_cred cred acq_invalid w w' v h = cc
  with_type-out_cred cred acq_normal w w' v h = ap (λ v. v.out_cred) (sym (return-eq-done _ h).1)
  with_type-out_cred cred acq_impname w w' v h = ap (λ v. v.out_cred) (sym (return-eq-done _ h).1)

  import_input-out_cred :
      (o : Option GssxCred) (w w' : W) (v : Vars Cred)
      → import_input at aca o w ≡ (w', done v)
      → v.out_cred ≡ none
  unfolding import_input
  import_input-out_cred none w w' v h = ap (λ v. v.out_cred) (sym (return-eq-done _ h).1)
  import_input-out_cred (some c) w w' v h =
      let (w₁, cred, a, h₁) =
        >>=-eq-done (import_gssx_cred at.calls at.host.malloc at.handle at.char_signed c) _ h in
      with_type-out_cred cred (get_acquire_type aca.options) w₁ w' v h₁

  module _ (adds : aca.add_cred_to_input_handle ≡ true) where
    put_cred-out_cred :
        (cred : Option Cred) (v : Vars Cred)
        → (put_cred at aca.add_cred_to_input_handle cred v).out_cred ≡ v.out_cred
    unfolding put_cred
    put_cred-out_cred cred v = rw adds refl

    acquire_mechs-out_cred :
        (mechs : List GssxOid) (v v' : Vars Cred) (w w' : W)
        → v.out_cred ≡ none
        → acquire_mechs at aca mechs v w ≡ (w', done v')
        → v'.out_cred ≡ none
    unfolding acquire_mechs
    acquire_mechs-out_cred [] v v' w w' empty h =
        ap (λ v. v.out_cred) (sym (return-eq-done _ h).1) ∙ empty
    acquire_mechs-out_cred (mech ∷ mechs) v v' w w' empty h =
        let (same, h₁) = if-eq-done (equal mech mech_krb5) _ bad_mech no_minor h in
        let (w₁, cred, a, h₂) =
          >>=-eq-done
            (add_krb5_creds at.gss at.host at.svc at.uid v.acquire_type v.in_cred aca.desired_name
              (gssx_to_cred_usage aca.cred_usage))
            _ h₁ in
        acquire_mechs-out_cred mechs (put_cred at aca.add_cred_to_input_handle cred v) v' w₁ w'
          (put_cred-out_cred cred v ∙ empty) h₂

    reply_handle-none :
        (out in_cred : Option Cred) (w w' : W) (reply : Option GssxCred)
        → out ≡ none
        → reply_handle at aca out in_cred w ≡ (w', done reply)
        → reply ≡ aca.input_cred_handle
    unfolding reply_handle goto_done
    reply_handle-none (some out) in_cred w w' reply empty h = cc
    reply_handle-none none (some cred) w w' reply empty h = sym (return-eq-done _ h).1
    reply_handle-none none none w w' reply empty h = cc

    -- When the credential is to be added to the client's handle, the reply of gp_acquire_cred has the
    -- handle that the client sent, if it has one: what was acquired is not in it.
    pub acquire_cred_adds_nothing :
        (w w' : W) (reply : Option GssxCred)
        → acquire_cred at aca w ≡ (w', done reply)
        → reply ≡ aca.input_cred_handle
    unfolding acquire_cred
    acquire_cred_adds_nothing w w' reply h =
        let (w₁, v, a, h₁) = >>=-eq-done (import_input at aca aca.input_cred_handle) _ h in
        let (w₂, desired, b, h₂) =
          >>=-eq-done (or_failure (gssx_to_oid_set at.host.malloc aca.desired_mechs)) _ h₁ in
        let (w₃, mechs, c, h₃) = >>=-eq-done (choose_mechs at.sets at.svc desired) _ h₂ in
        let (w₄, v', d, h₄) = >>=-eq-done (acquire_mechs at aca mechs v) _ h₃ in
        let empty = import_input-out_cred aca.input_cred_handle w w₁ v a in
        reply_handle-none v'.out_cred v'.in_cred w₄ w' reply
          (acquire_mechs-out_cred mechs v v' w₃ w₄ empty d) h₄
