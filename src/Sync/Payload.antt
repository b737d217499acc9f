-- ===== src/Sync/Payload.antt =====
-- gp_export_sync_creds of src/gp_creds.c, which puts a credential in the options of a reply, and
-- return_new_cred_handle of src/client/gpm_init_sec_context.c, which takes it out.
use gssproxy.Prelude.{ℕ, ◌*◌, List, [], ◌∷◌, Bool, if◌then◌else◌, Option, none, some, enospc}
use gssproxy.Creds.Options.{add_option, options_find}
use gssproxy.Export.Padding.{Krb5}
use gssproxy.Export.Names.{or_failure}
use gssproxy.Export.Handle.{CredCalls, export_gssx_cred}
use gssproxy.Gss.Status.{Run, ◌>>=◌, return, goto_done, failure, errno}
use gssproxy.Handlers.Acquire.{cred_size}
use gssproxy.Wire.Filter.{XdrLib}
use gssproxy.Wire.Types.{GssxOption, GssxCred}
use gssproxy.Wire.Filters.Basics.{xdr_gssx_cred}

-- GPKRB_MAX_CRED_SIZE
abbrev pub max_cred_size : ℕ
max_cred_size = 1024 * 512

-- CRED_SYNC_PAYLOAD, as sizeof counts it: with the NUL.
abbrev pub cred_sync_payload : List ℕ
cred_sync_payload = 115 ∷ 121 ∷ 110 ∷ 99 ∷ 95 ∷ 99 ∷ 114 ∷ 101 ∷ 100 ∷ 115 ∷ 0 ∷ []

module _ (lib : XdrLib) where
  -- if (!xdrok)
  unfoldable pub encoded : {W : Type 0} → Option (List ℕ) → Run W (List ℕ)
  encoded none = goto_done failure (errno enospc)
  encoded (some value) = return value

  -- gp_export_sync_creds: the options with the credential.
  unfoldable pub export_sync_creds :
      {W Name Cred : Type 0}
      → CredCalls W Name Cred
      → (ℕ → Bool)
      → Bool
      → Option Krb5
      → Cred
      → List GssxOption
      → Run W (List GssxOption)
  unfolding export_gssx_cred encoded or_failure add_option xdr_gssx_cred
  export_sync_creds calls malloc realloc_ok handle cred options = do
    creds ← export_gssx_cred calls malloc handle cred
    value ← encoded ((xdr_gssx_cred lib).encode max_cred_size creds [])
    or_failure (add_option malloc realloc_ok options cred_sync_payload value)

  -- if (xdrok): the handle that out_cred_handle pointed to, or the new one.
  unfoldable pub or_kept : Option GssxCred → Option (GssxCred × List ℕ) → Option GssxCred
  or_kept old none = old
  or_kept old (some (creds, rest)) = some creds

  -- return_new_cred_handle
  unfoldable pub return_new_cred_handle :
      (ℕ → Bool) → GssxOption → Option GssxCred → Option GssxCred
  unfolding or_kept xdr_gssx_cred
  return_new_cred_handle malloc val old =
      if malloc cred_size then or_kept old ((xdr_gssx_cred lib).decode val.value) else old

  unfoldable pub new_handle : (ℕ → Bool) → Option GssxOption → Option GssxCred → Option GssxCred
  unfolding return_new_cred_handle
  new_handle malloc none old = old
  new_handle malloc (some val) old = return_new_cred_handle malloc val old

  -- What gpm_init_sec_context does with the options of the reply, for a caller with an out_cred_handle.
  unfoldable pub sync_handle : (ℕ → Bool) → List GssxOption → Option GssxCred → Option GssxCred
  unfolding new_handle options_find
  sync_handle malloc options old = new_handle malloc (options_find options cred_sync_payload) old
