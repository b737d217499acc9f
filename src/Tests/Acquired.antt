-- ===== src/Tests/Acquired.antt =====
-- The acquisition of credentials of src/gp_creds.c over a small GSSAPI: names and credentials are
-- strings, and the world counts the calls that change it.
use gssproxy.Prelude.{ℕ, suc, ◌≡◌, refl, List, [], ◌∷◌, ◌++◌, true, Option, none, some, inr, arith}
use gssproxy.Creds.Service.{Service, both, initiate, KeyValue}
use gssproxy.Creds.Options.{acq_normal, same_chars}
use gssproxy.Creds.Check.{
  mech_krb5, has_krb5, check_name, check_inquired, check_cred, check_usage, check_lifetime, expired,
  serves,
}
use gssproxy.Creds.Usable.{IsUsable, check_cred-IsUsable}
use gssproxy.Creds.Allowed.{
  cred_allowed, get_impersonator_name, check_impersonator, check_impersonator_name, discarded,
  same_name, strndup, until_nul, after_inquire,
}
use gssproxy.Creds.Legitimate.{IsAllowed, cred_allowed-IsAllowed}
use gssproxy.Creds.Environment.{Host}
use gssproxy.Creds.Acquire.{add_krb5_creds}
use gssproxy.Creds.Impersonation.{Forbids, other, add_krb5_creds_impersonates_not}
use gssproxy.Creds.Store.{
  make_store, segregated, ccache, keytab, client_keytab, internal_ccache, memory_internal,
  add_elements, add_element, noted, with_value, finish_store, service_keytab, put_client_keytab,
  segregate, ensure_segregated_ccache,
}
use gssproxy.Creds.Format.{
  get_formatted_string, scan, turn, after_strchr, ended, format_code, removed, user_replaced,
  printed, replaced, pointed, memmove, strchr, c_string, decimal, digits,
}
use gssproxy.Creds.Caches.{has_here}
use gssproxy.Creds.Segregation.{IsSegregated, of_thread, make_store-IsSegregated}
use gssproxy.Gss.Status.{
  Run, done, stop, ◌>>=◌, return, goto_done, continue, cred_unavail, unauthorized, no_minor,
}
use gssproxy.Gss.Api.{Gss}
use gssproxy.Gss.Names.{equal}
use gssproxy.Tests.Services.{service}

abbrev pub small_gss : Gss ℕ (List ℕ) (List ℕ)
small_gss = record {
  import_name = λ octets name_type w. (w, done octets);
  inquire_cred = λ cred w. (
    w,
    done (record { name = 104 ∷ []; lifetime = 600; usage = both; mechanisms = mech_krb5 ∷ [] }),
  );
  compare_name = λ a b w. (w, done (equal a b));
  acquire_cred_from = λ name usage cs w. (suc w, done (67 ∷ []));
  acquire_cred_impersonate_name = λ cred name w. (suc w, done (85 ∷ []));
  init_sec_context = λ cred name w. (suc w, done (116 ∷ []));
  accept_sec_context = λ cred token w. (suc w, done (some (68 ∷ [])));
  cred_impersonator = λ cred w. (w, done ((104 ∷ []) ∷ []));
  canonicalize_name = λ name w. (w, done name);
  display_name = λ name w. (w, done name);
  krb5_init_context = λ w. (w, inr tt);
  store_cred_into = λ cred cache w. (suc w, done tt);
  cc_resolve = λ cache w. (w, inr tt);
  cc_get_config = λ cache w. (w, inr (104 ∷ []));
}

abbrev pub httpd : Service
httpd = service 48 none none

checked : check_cred small_gss (λ n. true) httpd (67 ∷ []) none initiate 7 ≡ (7, done tt)
unfolding check_cred check_inquired check_name check_usage check_lifetime expired serves has_krb5
    equal ◌>>=◌ continue return goto_done
checked = refl

check_cred-IsUsable_example : IsUsable small_gss (λ n. true) httpd (67 ∷ []) none initiate 7 7
check_cred-IsUsable_example =
    check_cred-IsUsable small_gss (λ n. true) httpd (67 ∷ []) none initiate 7 7 checked

allowed :
    cred_allowed small_gss (λ n. true) httpd (some (99 ∷ [])) (some (67 ∷ [])) (104 ∷ []) 7
    ≡ (7, done tt)
unfolding cred_allowed get_impersonator_name after_inquire strndup until_nul check_impersonator
    check_impersonator_name discarded same_name same_chars ◌>>=◌ continue return goto_done
allowed = refl

-- The target is the impersonator "h".
cred_allowed-IsAllowed_example :
    IsAllowed small_gss (λ n. true) httpd (some (99 ∷ [])) (67 ∷ []) (104 ∷ []) 7
cred_allowed-IsAllowed_example =
    cred_allowed-IsAllowed small_gss (λ n. true) httpd (some (99 ∷ [])) (67 ∷ []) (104 ∷ []) 7 7
      allowed

-- To another target it is not allowed.
refused :
    cred_allowed small_gss (λ n. true) httpd (some (99 ∷ [])) (some (67 ∷ [])) (105 ∷ []) 7
    ≡ (7, stop unauthorized no_minor)
unfolding cred_allowed get_impersonator_name after_inquire strndup until_nul check_impersonator
    check_impersonator_name discarded same_name same_chars ◌>>=◌ continue return goto_done
refused = refl

abbrev pub host : Host
host = record { malloc = λ n. true; uid_to_name = λ uid. some (98 ∷ []); tid = 5 }

no_impersonation : Forbids httpd acq_normal
no_impersonation = record { not_configured = refl; not_asked = λ h. cc }

abbrev pub refusing : Option (List ℕ) → Option (List ℕ) → Run ℕ (List ℕ)
refusing cred name w = (w, stop cred_unavail no_minor)

add_krb5_creds_impersonates_not_example :
    add_krb5_creds (other small_gss refusing host httpd) host httpd 1000 acq_normal none none both 7
    ≡ add_krb5_creds small_gss host httpd 1000 acq_normal none none both 7
add_krb5_creds_impersonates_not_example =
    add_krb5_creds_impersonates_not small_gss refusing host httpd 1000 acq_normal none none both 7
      no_impersonation

-- "keytab" with the value "k%U"
abbrev table : KeyValue
table = record { key = keytab; value = 107 ∷ 37 ∷ 85 ∷ [] }

abbrev made : List KeyValue
made =
    record { key = keytab; value = 107 ∷ 52 ∷ 50 ∷ [] }
    ∷ record { key = client_keytab; value = 107 ∷ 52 ∷ 50 ∷ [] }
    ∷ record { key = ccache; value = memory_internal ++ 53 ∷ [] }
    ∷ []

-- The keytab of the service becomes the client keytab, and a cache in memory is added.
made_here :
    make_store (λ n. true) none 42 5 true (table ∷ [])
    ≡ segregated made (some (memory_internal ++ 53 ∷ []))
unfolding make_store add_elements add_element noted with_value finish_store service_keytab
    put_client_keytab segregate ensure_segregated_ccache internal_ccache equal get_formatted_string
    scan turn after_strchr ended format_code removed user_replaced printed replaced pointed memmove
    strchr c_string decimal digits
made_here = refl

make_store-IsSegregated_example :
    IsSegregated (λ n. true) none 42 5 (table ∷ []) made (some (of_thread ++ 53 ∷ []))
make_store-IsSegregated_example =
    make_store-IsSegregated (λ n. true) 5 (omega arith) none 42 true table [] made
      (some (of_thread ++ 53 ∷ [])) (inr (has_here table [] refl)) made_here
