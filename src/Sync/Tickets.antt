-- ===== src/Sync/Tickets.antt =====
-- gp_count_tickets and gp_check_sync_creds of src/gp_creds.c: whether a call has added tickets to a
-- credential that the client wants to be told of.
use gssproxy.Prelude.{
  ℕ, ◌+◌, ◌%◌, ◌^◌, List, [], ◌∷◌, Bool, false, ◌||◌, if◌then◌else◌, Option, none, some, enomem,
}
use gssproxy.Creds.Service.{Service, KeyValue}
use gssproxy.Creds.Options.{options_find, string_match}
use gssproxy.Creds.Store.{ccache}
use gssproxy.Creds.Allowed.{krb5}
use gssproxy.Gss.Api.{Krb5}
use gssproxy.Gss.Names.{equal}
use gssproxy.Gss.Status.{
  Minor, Outcome, done, stop, fault, Run, ◌>>=◌, return, goto_done, failure, errno,
}
use gssproxy.Wire.Types.{GssxOption}

-- What a call of krb5_cc_next_cred gives before KRB5_CC_END.
pub data NextCred : Type 0 where
  ticket : NextCred
  failed : Minor → NextCred

-- The calls of the libraries: a parameter of the model. A cursor is what the calls of
-- krb5_cc_next_cred give with it, one after the other, up to KRB5_CC_END.
pub record TicketCalls (W Cred : Type 0) : Type 0 where
  pub krb5_init_context : Krb5 W (Unit {0})
  pub store_cred_into : Option Cred → List ℕ → Run W (Unit {0})
  pub cc_resolve : List ℕ → Krb5 W (Unit {0})
  pub cc_start_seq_get : List ℕ → Krb5 W (List NextCred)
  pub cc_end_seq_get : List ℕ → Krb5 W (Unit {0})

-- (*ccsum)++, a uint32_t
unfoldable pub increment : ℕ → ℕ
increment ccsum = (ccsum + 1) % 2 ^ 32

-- The do loop, whose last turn, with KRB5_CC_END, counts as well.
unfoldable pub count_creds : {W : Type 0} → ℕ → List NextCred → Run W ℕ
unfolding increment
count_creds ccsum [] = return (increment ccsum)
count_creds ccsum (ticket ∷ more) = count_creds (increment ccsum) more
count_creds ccsum (failed err ∷ more) = goto_done failure err

module _ {W Cred : Type 0} (calls : TicketCalls W Cred) where
  -- What follows asprintf, which gives the name of a cache, or fails.
  unfoldable pub count_in : Option Cred → Option (List ℕ) → Run W ℕ
  unfolding krb5 count_creds
  count_in cred none = goto_done failure (errno enomem)
  count_in cred (some memcache) = do
    _ ← calls.store_cred_into cred memcache
    _ ← krb5 (calls.cc_resolve memcache)
    cursor ← krb5 (calls.cc_start_seq_get memcache)
    ccsum ← count_creds 0 cursor
    _ ← krb5 (calls.cc_end_seq_get memcache)
    return ccsum

  -- gp_count_tickets
  unfoldable pub count_tickets : Option (List ℕ) → Option Cred → Run W ℕ
  unfolding krb5 count_in
  count_tickets memcache cred = krb5 calls.krb5_init_context >>= λ u. count_in cred memcache

-- CRED_SYNC_OPTION and CRED_SYNC_DEFAULT, as sizeof counts them: with the NUL.
abbrev pub cred_sync_option : List ℕ
cred_sync_option =
    115 ∷ 121 ∷ 110 ∷ 99 ∷ 95 ∷ 109 ∷ 111 ∷ 100 ∷ 105 ∷ 102 ∷ 105 ∷ 101 ∷ 100 ∷ 95 ∷ 99 ∷ 114 ∷ 101
    ∷ 100 ∷ 115 ∷ 0 ∷ []

abbrev pub cred_sync_default : List ℕ
cred_sync_default = 100 ∷ 101 ∷ 102 ∷ 97 ∷ 117 ∷ 108 ∷ 116 ∷ 0 ∷ []

unfoldable pub asks_default : Option GssxOption → Bool
unfolding string_match
asks_default none = false
asks_default (some opt) = string_match opt.value cred_sync_default

-- The loop over the store of the service.
unfoldable pub has_ccache : List KeyValue → Bool
unfolding equal
has_ccache [] = false
has_ccache (e ∷ es) = equal e.key ccache || has_ccache es

-- An error of gp_count_tickets is 0.
unfoldable pub or_zero : {W : Type 0} → W × Outcome ℕ → W × Outcome ℕ
or_zero (w, done ccsum) = (w, done ccsum)
or_zero (w, stop maj min) = (w, done 0)
or_zero (w, fault) = (w, fault)

-- gp_check_sync_creds
unfoldable pub check_sync_creds :
    {W Cred : Type 0}
    → TicketCalls W Cred
    → Service
    → List GssxOption
    → Option (List ℕ)
    → Option Cred
    → Run W ℕ
unfolding options_find asks_default has_ccache or_zero count_tickets
check_sync_creds calls svc options memcache cred w =
    if svc.allow_cc_sync
    then (if asks_default (options_find options cred_sync_option)
        then (if has_ccache svc.krb5.store
            then (w, done 0)
            else or_zero (count_tickets calls memcache cred w))
        else (w, done 0))
    else (w, done 0)
