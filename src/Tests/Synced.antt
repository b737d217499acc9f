-- ===== src/Tests/Synced.antt =====
-- A credential goes back to a client in the options of a reply, over the XDR of RFC 4506.
use gssproxy.Prelude.{ℕ, ◌≡◌, refl, ap, ◌∙◌, List, [], ◌∷◌, true, Option, none, some}
use gssproxy.Creds.Options.{add_option}
use gssproxy.Export.Names.{or_failure}
use gssproxy.Export.Handle.{import_gssx_cred}
use gssproxy.Export.Stateless.{IsImport}
use gssproxy.Gss.Status.{done, ◌>>=◌, continue, return}
use gssproxy.Sync.Payload.{
  max_cred_size, cred_sync_payload, encoded, export_sync_creds, sync_handle,
}
use gssproxy.Sync.Returned.{synced_cred_imports}
use gssproxy.Wire.Types.{GssxOption, GssxCred}
use gssproxy.Wire.Filter.{◌⊙◌, ◌⊛◌, struct, xdr_bytes}
use gssproxy.Wire.Filters.Basics.{
  xdr_gssx_cred, xdr_gssx_name, xdr_gssx_cred_element, xdr_gssx_buffer, xdr_gssx_oid,
  xdr_octet_string, xdr_gssx_cred_usage, xdr_gssx_time, xdr_gssx_uint64, xdr_gssx_name_attr,
  xdr_gssx_option,
}
use gssproxy.Tests.Exports.{blocks, blocks-IsKrb5, all_there}
use gssproxy.Tests.Filters.{rfc4506_lib, rfc4506_lib-IsXdrLib}
use gssproxy.Tests.Rfc.{rfc4506}
use gssproxy.Tests.Stateless.{calls, calls-IsSafe, handed, handed_over}

or_empty : Option (List ℕ) → List ℕ
or_empty none = []
or_empty (some value) = value

abbrev written : Option (List ℕ)
written = (xdr_gssx_cred rfc4506_lib).encode max_cred_size handed []

abbrev sent : List GssxOption
sent = record { option = cred_sync_payload; value = or_empty written } ∷ []

fits : written ≡ some (or_empty written)
unfolding xdr_gssx_cred xdr_gssx_name xdr_gssx_cred_element xdr_gssx_buffer xdr_gssx_oid
    xdr_octet_string xdr_gssx_cred_usage xdr_gssx_time xdr_gssx_uint64 xdr_gssx_name_attr
    xdr_gssx_option xdr_bytes struct ◌⊙◌ ◌⊛◌ rfc4506_lib rfc4506 or_empty
fits = refl

exported :
    export_sync_creds rfc4506_lib calls all_there true (some blocks) true [] 7 ≡ (8, done sent)
unfolding export_sync_creds encoded or_failure add_option ◌>>=◌ return continue or_empty struct ◌⊛◌
    ◌⊙◌ xdr_gssx_name xdr_gssx_buffer xdr_octet_string xdr_bytes rfc4506_lib rfc4506 xdr_gssx_oid
    xdr_gssx_cred_element xdr_gssx_cred_usage xdr_gssx_time
exported =
    ap
      (continue λ creds.
        encoded rfc4506_lib ((xdr_gssx_cred rfc4506_lib).encode max_cred_size creds []) >>= λ value.
        or_failure (add_option all_there true [] cred_sync_payload value))
      handed_over
    ∙ ap
        (λ o.
          (encoded rfc4506_lib o >>= λ value.
          or_failure (add_option all_there true [] cred_sync_payload value))
            8)
        fits

-- The client had no handle of its own.
synced_cred_imports_example :
    (c : GssxCred) × (wa : ℕ) × (wb : ℕ) × (token : List ℕ) × (sync_handle rfc4506_lib all_there
        sent none
      ≡ some c)
    × (calls.export_cred true wa ≡ (wb, done token))
    × IsImport calls all_there token c 20 (import_gssx_cred calls all_there (some blocks) true c 20)
synced_cred_imports_example =
    synced_cred_imports rfc4506_lib-IsXdrLib calls blocks-IsKrb5 all_there all_there true true []
      sent 7 8 20 none exported tt (calls-IsSafe true) (λ n. refl)
