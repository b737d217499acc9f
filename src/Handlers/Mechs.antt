-- ===== src/Handlers/Mechs.antt =====
-- The mechanisms of a call: gp_conv_gssx_to_oid_set and gp_conv_gssx_to_cred_usage of src/gp_conv.c,
-- gp_creds_allowed_mech and gp_get_supported_mechs of src/gp_creds.c.
use gssproxy.Prelude.{
  ℕ, ◌*◌, ◌%◌, List, [], ◌∷◌, Bool, true, false, ◌&&◌, length, ◌==◌, if◌then◌else◌, Option, none,
  some, Result, ok, err, enomem,
}
use gssproxy.Creds.Service.{Service, CredUsage, both, initiate, accept}
use gssproxy.Creds.Check.{mech_krb5}
use gssproxy.Gss.Names.{equal, oid_desc_size}
use gssproxy.Gss.Status.{Run, ◌>>=◌, return, goto_done, no_cred, no_minor}
use gssproxy.Wire.Types.{GssxOid, GssxOidSet, GssxCredUsage}

-- gss_create_empty_oid_set and gss_add_oid_set_member: a parameter of the model.
pub record SetCalls (W : Type 0) : Type 0 where
  pub create_empty : Run W (List GssxOid)
  pub add_member : GssxOid → List GssxOid → Run W (List GssxOid)

-- The copies of the OIDs, each of which may fail.
unfoldable pub copies : (ℕ → Bool) → List GssxOid → Bool
copies malloc [] = true
copies malloc (oid ∷ oids) =
    let rest = copies malloc oids in if malloc (length oid) then rest else false

-- gp_conv_gssx_to_oid_set, of which `none` is GSS_C_NO_OID_SET; the set has a count and a pointer.
unfoldable pub gssx_to_oid_set : (ℕ → Bool) → GssxOidSet → Result (Option (List GssxOid))
unfolding copies
gssx_to_oid_set malloc [] = ok none
gssx_to_oid_set malloc (oid ∷ oids) =
    if malloc 16 && malloc (length (oid ∷ oids) * oid_desc_size) && copies malloc (oid ∷ oids)
    then ok (some (oid ∷ oids))
    else err enomem

-- gp_creds_allowed_mech: the only mechanism of the table is GP_CRED_KRB5, the lowest bit.
unfoldable pub allowed_mech : Service → GssxOid → Bool
unfolding equal
allowed_mech svc mech = (svc.mechs % 2 == 1) && equal mech mech_krb5

-- gp_conv_gssx_to_cred_usage, where 0 is GSS_C_BOTH
unfoldable pub gssx_to_cred_usage : GssxCredUsage → CredUsage
gssx_to_cred_usage (n, small) = if n == 1 then initiate else if n == 2 then accept else both

module _ {W : Type 0} (sets : SetCalls W) (svc : Service) where
  -- The loop over the mechanisms that the call names.
  unfoldable pub add_allowed : List GssxOid → List GssxOid → Run W (List GssxOid)
  unfolding allowed_mech
  add_allowed [] use_mechs = return use_mechs
  add_allowed (mech ∷ mechs) use_mechs =
      let further = add_allowed mechs in
      if allowed_mech svc mech
      then (sets.add_member mech use_mechs >>= further)
      else further use_mechs

  unfoldable pub some_mech : List GssxOid → Run W (List GssxOid)
  some_mech [] = goto_done no_cred no_minor
  some_mech (mech ∷ mechs) = return (mech ∷ mechs)

  -- `if (desired_mechs != GSS_C_NO_OID_SET)`, with gp_get_supported_mechs.
  unfoldable pub choose_mechs : Option (List GssxOid) → Run W (List GssxOid)
  unfolding add_allowed some_mech
  choose_mechs (some desired) = do
    empty ← sets.create_empty
    use_mechs ← add_allowed desired empty
    some_mech use_mechs
  choose_mechs none = do empty ← sets.create_empty; sets.add_member mech_krb5 empty
