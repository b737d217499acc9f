-- ===== src/Tests/Counted.antt =====
-- gp_check_sync_creds of src/gp_creds.c for a credential with two tickets.
use gssproxy.Prelude.{ℕ, ◌≡◌, refl, List, [], ◌∷◌, true, some, inr, arith}
use gssproxy.Creds.Service.{Service}
use gssproxy.Creds.Options.{options_find, string_match, same_chars}
use gssproxy.Creds.Allowed.{krb5, krb5_result}
use gssproxy.Gss.Status.{done, ◌>>=◌, continue, return}
use gssproxy.Sync.Tickets.{
  ticket, TicketCalls, increment, count_creds, count_in, count_tickets, cred_sync_option,
  cred_sync_default, asks_default, has_ccache, or_zero, check_sync_creds,
}
use gssproxy.Sync.Counted.{IsSync, check_sync_creds-IsSync}
use gssproxy.Wire.Types.{GssxOption}
use gssproxy.Tests.Acquired.{httpd}

abbrev calls : TicketCalls ℕ (List ℕ)
calls = record {
  krb5_init_context = λ w. (w, inr tt);
  store_cred_into = λ cred cache w. (w, done tt);
  cc_resolve = λ cache w. (w, inr tt);
  cc_start_seq_get = λ cache w. (w, inr (ticket ∷ ticket ∷ []));
  cc_end_seq_get = λ cache w. (w, inr tt);
}

abbrev synced : Service
synced = record httpd { allow_cc_sync = true }

abbrev options : List GssxOption
options = record { option = cred_sync_option; value = cred_sync_default } ∷ []

counted : check_sync_creds calls synced options (some (77 ∷ [])) (some (67 ∷ [])) 7 ≡ (7, done 3)
unfolding check_sync_creds options_find asks_default has_ccache or_zero count_tickets count_in
    count_creds increment string_match same_chars krb5 krb5_result ◌>>=◌ continue return
counted = refl

check_sync_creds-IsSync_example :
    IsSync calls synced options (some (77 ∷ [])) (some (67 ∷ [])) 7 7 3
check_sync_creds-IsSync_example =
    check_sync_creds-IsSync calls synced options (some (77 ∷ [])) (some (67 ∷ [])) 7 7 3 counted
      (ground arith)
