-- ===== src/Sync/Counted.antt =====
-- When gp_check_sync_creds counts: src/gp_creds.c.
use gssproxy.Prelude.{
  ℕ, suc, ◌+◌, ◌%◌, ◌^◌, ◌≡◌, ◌≢◌, refl, ap, ◌∙◌, List, [], ◌∷◌, Bool, true, false, ◌||◌, Option,
  none, some, Bool-cases, inl, inr, replicate, arith,
}
use gssproxy.Creds.Service.{Service, KeyValue}
use gssproxy.Creds.Options.{options_find}
use gssproxy.Creds.Lookup.{IsCString, Found, options_find-Found, string_match-true}
use gssproxy.Creds.Store.{ccache}
use gssproxy.Creds.Caches.{HasKey, has_here, has_there}
use gssproxy.Creds.Origin.{krb5-eq-done}
use gssproxy.Creds.Allowed.{krb5}
use gssproxy.Gss.Names.{equal}
use gssproxy.Gss.Status.{Outcome, done, stop, fault, goto_done}
use gssproxy.Gss.Inversion.{>>=-eq-done, return-eq-done}
use gssproxy.Wire.Types.{GssxOption}
use gssproxy.Sync.Tickets.{
  NextCred, ticket, failed, TicketCalls, increment, count_creds, count_in, count_tickets,
  cred_sync_option, cred_sync_default, asks_default, has_ccache, or_zero, check_sync_creds,
}

cred_sync_option-IsCString : IsCString cred_sync_option
cred_sync_option-IsCString = ground arith

cred_sync_default-IsCString : IsCString cred_sync_default
cred_sync_default-IsCString = ground arith

-- The client asks for changed credentials, in the first option of the name.
abbrev pub Asks : List GssxOption → Type 0
Asks options =
    (v : GssxOption) × Found cred_sync_option options (some v) × (v.value ≡ cred_sync_default)

asks_default-Asks :
    (options : List GssxOption) (o : Option GssxOption)
    → Found cred_sync_option options o
    → asks_default o ≡ true
    → Asks options
unfolding asks_default
asks_default-Asks options none found h = cc
asks_default-Asks options (some v) found h =
    (v, found, string_match-true v.value cred_sync_default cred_sync_default-IsCString h)

has_ccache-HasKey : (es : List KeyValue) → HasKey ccache es → has_ccache es ≡ true
unfolding has_ccache equal
has_ccache-HasKey es (has_here e rest same) = rw (ap (λ k. equal k ccache) same) refl
has_ccache-HasKey es (has_there e rest has) =
    or_true (equal e.key ccache) (has_ccache-HasKey rest has)
  where
    or_true : (b : Bool) {c : Bool} → c ≡ true → b || c ≡ true
    or_true true h = refl
    or_true false h = h

-- A loop that ends counts the tickets, and the turn that finds no more.
count_creds-eq-done :
    {W : Type 0} (ccsum : ℕ) (cursor : List NextCred) (w w' : W) {n : ℕ}
    → count_creds ccsum cursor w ≡ (w', done n)
    → (k : ℕ) × (cursor ≡ replicate k ticket) × (n ≡ (ccsum + k + 1) % 2 ^ 32)
unfolding count_creds increment goto_done
count_creds-eq-done ccsum [] w w' h = (0, refl, omega (arith, (return-eq-done _ h).1))
count_creds-eq-done ccsum (ticket ∷ more) w w' h =
    let (k, tickets, sum) = count_creds-eq-done ((ccsum + 1) % 2 ^ 32) more w w' h in
    (suc k, ap (λ l. ticket ∷ l) tickets, omega (arith, sum))
count_creds-eq-done ccsum (failed e ∷ more) w w' h = cc

-- The loop changes nothing.
count_creds-world :
    {W : Type 0} (ccsum : ℕ) (cursor : List NextCred) (w w' : W) {n : ℕ}
    → count_creds ccsum cursor w ≡ (w', done n)
    → w ≡ w'
unfolding count_creds goto_done
count_creds-world ccsum [] w w' h = (return-eq-done _ h).0
count_creds-world ccsum (ticket ∷ more) w w' h = count_creds-world (increment ccsum) more w w' h
count_creds-world ccsum (failed e ∷ more) w w' h = cc

module _ {W Cred : Type 0} (calls : TicketCalls W Cred) (svc : Service) (options : List GssxOption)
    (memcache : Option (List ℕ)) (cred : Option Cred) where
  -- The number for a credential: it is put into a cache in memory, and the cache listed.
  pub record IsCount (w w' : W) (n : ℕ) : Type 0 where
    pub cache : List ℕ
    pub named : memcache ≡ some cache
    pub wa : W
    pub wb : W
    pub wc : W
    pub wd : W
    pub started : calls.krb5_init_context w ≡ (wa, inr tt)
    pub stored : calls.store_cred_into cred cache wa ≡ (wb, done tt)
    pub resolved : calls.cc_resolve cache wb ≡ (wc, inr tt)
    pub tickets : ℕ
    pub listed : calls.cc_start_seq_get cache wc ≡ (wd, inr (replicate tickets ticket))
    pub ended : calls.cc_end_seq_get cache wd ≡ (w', inr tt)
    pub counted : n ≡ (tickets + 1) % 2 ^ 32

  pub record IsSync (w w' : W) (n : ℕ) : Type 0 where
    pub allowed : svc.allow_cc_sync ≡ true
    pub asked : Asks options
    pub no_ccache : HasKey ccache svc.krb5.store → ⊥
    pub count : IsCount w w' n

  count_in-IsCount :
      (m : Option (List ℕ)) (w wa w' : W) (n : ℕ)
      → memcache ≡ m
      → calls.krb5_init_context w ≡ (wa, inr tt)
      → count_in calls cred m wa ≡ (w', done n)
      → IsCount w w' n
  unfolding count_in goto_done
  count_in-IsCount none w wa w' n e started h = cc
  count_in-IsCount (some cache) w wa w' n e started h =
      let (wb, u, a, ha) = >>=-eq-done (calls.store_cred_into cred cache) _ h in
      let (wc, v, b, hb) = >>=-eq-done (krb5 (calls.cc_resolve cache)) _ ha in
      let (wd, cursor, c, hc) = >>=-eq-done (krb5 (calls.cc_start_seq_get cache)) _ hb in
      let (we, ccsum, d, hd) = >>=-eq-done (count_creds 0 cursor) _ hc in
      let (wf, x, f, he) = >>=-eq-done (krb5 (calls.cc_end_seq_get cache)) _ hd in
      let (k, tickets, sum) = count_creds-eq-done 0 cursor wd we d in
      let (last, same) = return-eq-done _ he in
      record {
        cache = cache;
        named = e;
        wa = wa;
        wb = wb;
        wc = wc;
        wd = wd;
        started = started;
        stored = a;
        resolved = krb5-eq-done (calls.cc_resolve cache) b;
        tickets = k;
        listed = krb5-eq-done (calls.cc_start_seq_get cache) c ∙ ap (λ l. (wd, inr l)) tickets;
        ended =
            ap (calls.cc_end_seq_get cache) (count_creds-world 0 cursor wd we d)
            ∙ krb5-eq-done (calls.cc_end_seq_get cache) f
            ∙ ap (λ v. (v, inr tt)) last;
        counted = omega (arith, same, sum);
      }

  or_zero-done :
      (r : W × Outcome ℕ) (w' : W) (n : ℕ) → n ≢ 0 → or_zero r ≡ (w', done n) → r ≡ (w', done n)
  unfolding or_zero
  or_zero-done (w, done ccsum) w' n other h = h
  or_zero-done (w, stop maj min) w' n other h = absurd (other (cc))
  or_zero-done (w, fault) w' n other h = cc

  -- When gp_check_sync_creds returns a number that is not 0, the service allows the synchronisation, the
  -- client asks for it, in the first option of the name, and the store of the service has no ccache. The
  -- credential was then stored in a cache in memory, and the number is one more than that of the tickets
  -- that were listed there, as a number of 32 bits.
  pub check_sync_creds-IsSync :
      (w w' : W) (n : ℕ)
      → check_sync_creds calls svc options memcache cred w ≡ (w', done n)
      → n ≢ 0
      → IsSync w w' n
  unfolding check_sync_creds count_tickets
  check_sync_creds-IsSync w w' n h other = elim (Bool-cases svc.allow_cc_sync) [
    | inr off ↦ let h' = rw off at h in absurd (other (cc))
    | inl on ↦
        let h' = rw on at h in
        elim (Bool-cases (asks_default (options_find options cred_sync_option))) [
          | inr not_asked ↦ let h'' = rw not_asked at h' in absurd (other (cc))
          | inl asks ↦
              let h'' = rw asks at h' in
              elim (Bool-cases (has_ccache svc.krb5.store)) [
                | inl local ↦ let h''' = rw local at h'' in absurd (other (cc))
                | inr remote ↦
                    let h''' = rw remote at h'' in
                    let counted =
                      or_zero-done (count_tickets calls memcache cred w) w' n other h''' in
                    let (wa, u, a, ha) = >>=-eq-done (krb5 calls.krb5_init_context) _ counted in
                    record {
                      allowed = on;
                      asked =
                          asks_default-Asks options (options_find options cred_sync_option)
                            (options_find-Found cred_sync_option options cred_sync_option-IsCString)
                            asks;
                      no_ccache = λ has. let t = has_ccache-HasKey svc.krb5.store has in cc;
                      count =
                          count_in-IsCount memcache w wa w' n refl
                            (krb5-eq-done calls.krb5_init_context a) ha;
                    }
              ]
        ]
  ]
