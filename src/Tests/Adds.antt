-- ===== src/Tests/Adds.antt =====
-- gp_acquire_cred of src/gp_rpc_acquire_cred.c for a client with a handle of before the keytab was
-- issued again, who asks for the new credential to be added to it.
use gssproxy.Prelude.{ℕ, ◌≡◌, refl, List, [], ◌∷◌, true, false, none, some, arith, err, einval}
use gssproxy.Creds.Acquire.{add_krb5_creds, acquire, environment_of, acquire_in}
use gssproxy.Creds.Environment.{
  try_impersonate, filter_usage, get_cred_environment, choose_target, stored, with_usage,
  impersonate_target, import_user, environment_for, principal_name, or_error, minus_one_error,
  enomem_error,
}
use gssproxy.Creds.Store.{
  make_store, add_elements, finish_store, service_keytab, segregate, ensure_segregated_ccache,
}
use gssproxy.Gss.Status.{Run, done, stop, ◌>>=◌, return, goto_done, continue, failure, no_minor}
use gssproxy.Gss.Names.{equal}
use gssproxy.Export.Handle.{CredCalls, import_gssx_cred, import_opened}
use gssproxy.Export.Names.{or_failure}
use gssproxy.Handlers.Mechs.{gssx_to_oid_set, gssx_to_cred_usage, choose_mechs}
use gssproxy.Handlers.Acquire.{
  World, with_type, import_input, put_cred, acquire_mechs, reply_handle, acquire_cred,
}
use gssproxy.Handlers.Impersonation.{IsPlain, elsewhere, acquire_cred_impersonates_not}
use gssproxy.Handlers.Discards.{acquire_cred_adds_nothing}
use gssproxy.Wire.Types.{GssxName, GssxCred}
use gssproxy.Wire.Args.{GssxArgAcquireCred}
use gssproxy.Tests.Acquired.{small_gss, httpd, host, refusing}
use gssproxy.Tests.Exports.{blocks}
use gssproxy.Export.Padding.{decrypt_buffer, open_sealed}
use gssproxy.Creds.Options.{get_acquire_type, acquire_type_of, options_find}

abbrev fails : {A : Type 0} → Run ℕ A
fails w = (w, stop failure no_minor)

-- The handle is not decrypted, so that none of the calls is needed.
abbrev no_calls : CredCalls ℕ (List ℕ) (List ℕ)
no_calls = record {
  names = record {
    display = λ name. fails;
    export = λ name. fails;
    export_composite = λ name. fails;
  };
  inquire = λ cred. fails;
  inquire_by_mech = λ cred mech. fails;
  export_cred = λ cred. fails;
  import_cred = λ octets. fails;
  set_allowable_enctypes = λ cred ktypes w. w;
  set_no_ci_flags = λ cred w. w;
}

abbrev at : World ℕ (List ℕ) (List ℕ)
at = record {
  gss = small_gss;
  calls = no_calls;
  sets = record {
    create_empty = λ w. (w, done []);
    add_member = λ oid oids w. (w, done (oid ∷ oids));
  };
  host = host;
  svc = httpd;
  handle = some (record blocks { decrypt = λ c. err einval });
  char_signed = true;
  uid = 48;
}

abbrev no_name : GssxName
no_name = record {
  display_name = [];
  name_type = [];
  exported_name = [];
  exported_composite_name = [];
  name_attributes = [];
  extensions = [];
}

abbrev old_handle : GssxCred
old_handle = record {
  desired_name = no_name;
  elements = [];
  cred_handle_reference = 9 ∷ [];
  needs_release = false;
}

abbrev asked : GssxArgAcquireCred
asked = record {
  call_ctx = record { locale = []; server_ctx = []; options = [] };
  input_cred_handle = some old_handle;
  add_cred_to_input_handle = true;
  desired_name = none;
  time_req = (0, omega arith);
  desired_mechs = [];
  cred_usage = (1, omega arith);
  initiator_time_req = (0, omega arith);
  acceptor_time_req = (0, omega arith);
  options = [];
}

ran : acquire_cred at asked 7 ≡ (8, done (some old_handle))
unfolding acquire_cred import_input import_gssx_cred import_opened decrypt_buffer open_sealed
    with_type get_acquire_type acquire_type_of options_find or_failure gssx_to_oid_set choose_mechs
    acquire_mechs reply_handle put_cred add_krb5_creds acquire environment_of get_cred_environment
    filter_usage with_usage choose_target impersonate_target import_user environment_for
    principal_name stored make_store add_elements finish_store service_keytab segregate
    ensure_segregated_ccache acquire_in try_impersonate gssx_to_cred_usage equal or_error
    minus_one_error enomem_error ◌>>=◌ return goto_done continue
ran = refl

acquire_cred_adds_nothing_example : some old_handle ≡ asked.input_cred_handle
acquire_cred_adds_nothing_example =
    acquire_cred_adds_nothing at asked refl 7 8 (some old_handle) ran

httpd-IsPlain : IsPlain httpd
httpd-IsPlain = record { no_impersonate = refl; no_proto_trans = refl; no_trusted = refl }

acquire_cred_impersonates_not_example :
    acquire_cred (elsewhere at refusing asked) asked 7 ≡ acquire_cred at asked 7
acquire_cred_impersonates_not_example =
    acquire_cred_impersonates_not at refusing asked httpd-IsPlain 7
