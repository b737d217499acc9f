-- ===== src/Creds/Store.antt =====
-- The credential store of a call, which gp_get_cred_environment of src/gp_creds.c builds from the one
-- of the service: its loop, the client keytab, and ensure_segregated_ccache.
use gssproxy.Prelude.{
  ℕ, zero, suc, ◌+◌, ◌*◌, List, [], ◌∷◌, ◌++◌, Bool, true, false, ◌&&◌, length, get_elem?,
  if◌then◌else◌, Option, none, some, Errno, enomem, einval,
}
use gssproxy.Creds.Service.{KeyValue}
use gssproxy.Creds.Format.{get_formatted_string, Turn, undefined, null, scanning, formatted, digits}
use gssproxy.Gss.Names.{equal}

-- "client_keytab", "keytab" and "ccache"
abbrev pub keytab : List ℕ
keytab = 107 ∷ 101 ∷ 121 ∷ 116 ∷ 97 ∷ 98 ∷ []

abbrev pub client_keytab : List ℕ
client_keytab = 99 ∷ 108 ∷ 105 ∷ 101 ∷ 110 ∷ 116 ∷ 95 ∷ keytab

abbrev pub ccache : List ℕ
ccache = 99 ∷ 99 ∷ 97 ∷ 99 ∷ 104 ∷ 101 ∷ []

-- "MEMORY:internal_"
abbrev pub memory_internal : List ℕ
memory_internal =
    77 ∷ 69 ∷ 77 ∷ 79 ∷ 82 ∷ 89 ∷ 58 ∷ 105 ∷ 110 ∷ 116 ∷ 101 ∷ 114 ∷ 110 ∷ 97 ∷ 108 ∷ 95 ∷ []

-- The set `cs` while it is built, with the places of three keys, -1 being `none`.
pub record Store : Type 0 where
  pub cs : List KeyValue
  pub k_num : Option ℕ
  pub ck_num : Option ℕ
  pub cc_num : Option ℕ

-- A store, an errno, or undefined behaviour in the formatting of a value. The set of a failure is
-- freed.
pub data Built : Type 0 where
  built : Store → Built
  unbuilt : Errno → Built
  faulty : Built

-- The tests of the key, which note the place of the element to come.
unfoldable pub noted : List ℕ → Store → Store
unfolding equal
noted key st =
    if equal key client_keytab
    then record st { ck_num = some (length st.cs) }
    else if equal key keytab
    then record st { k_num = some (length st.cs) }
    else if equal key ccache
    then record st { cc_num = some (length st.cs) }
    else st

unfoldable pub with_value : List ℕ → Store → Turn → Built
with_value key st (formatted value) =
    built (record st { cs = st.cs ++ record { key = key; value = value } ∷ [] })
with_value key st null = unbuilt enomem
with_value key st undefined = faulty
with_value key st (scanning s) = faulty

module _ (malloc : ℕ → Bool) (name : Option (List ℕ)) (uid : ℕ) where
  unfoldable pub add_element : KeyValue → Store → Built
  unfolding noted with_value get_formatted_string
  add_element e st =
      if malloc (length e.key + 1)
      then with_value e.key (noted e.key st) (get_formatted_string malloc name uid e.value)
      else unbuilt enomem

  -- The loop over the elements of the service.
  unfoldable pub add_elements : List KeyValue → Built → Built
  unfolding add_element
  add_elements [] b = b
  add_elements (e ∷ es) (built st) = add_elements es (add_element e st)
  add_elements (e ∷ es) (unbuilt err) = unbuilt err
  add_elements (e ∷ es) faulty = faulty

unfoldable pub set_value : ℕ → List ℕ → List KeyValue → List KeyValue
set_value n value [] = []
set_value zero value (e ∷ es) = record e { value = value } ∷ es
set_value (suc n) value (e ∷ es) = e ∷ set_value n value es

-- The value of the service's keytab as that of the client keytab.
unfoldable pub put_client_keytab : (ℕ → Bool) → Option KeyValue → Store → Option ℕ → Built
unfolding set_value
put_client_keytab malloc none st ck = faulty
put_client_keytab malloc (some k) st none =
    if malloc (length client_keytab + 1) && malloc (length k.value + 1)
    then built (record st { cs = st.cs ++ record { key = client_keytab; value = k.value } ∷ [] })
    else unbuilt enomem
put_client_keytab malloc (some k) st (some ck) =
    if malloc (length k.value + 1)
    then built (record st { cs = set_value ck k.value st.cs })
    else unbuilt enomem

-- ensure_segregated_ccache, in the thread `tid`, with the name of the cache that is destroyed when the
-- call is over.
pub data Segregated : Type 0 where
  segregated : List KeyValue → Option (List ℕ) → Segregated
  unsegregated : Errno → Segregated
  faulty_store : Segregated

unfoldable pub internal_ccache : ℕ → List ℕ
unfolding digits
internal_ccache tid = memory_internal ++ digits 10 tid

unfoldable pub ensure_segregated_ccache : (ℕ → Bool) → ℕ → Option ℕ → List KeyValue → Segregated
unfolding internal_ccache
ensure_segregated_ccache malloc tid (some cc) cs = segregated cs none
ensure_segregated_ccache malloc tid none cs =
    if malloc (length ccache + 1) && malloc (length (internal_ccache tid) + 1)
    then segregated (cs ++ record { key = ccache; value = internal_ccache tid } ∷ [])
        (some (internal_ccache tid))
    else unsegregated enomem

unfoldable pub segregate : (ℕ → Bool) → ℕ → Built → Segregated
unfolding ensure_segregated_ccache
segregate malloc tid (built st) = ensure_segregated_ccache malloc tid st.cc_num st.cs
segregate malloc tid (unbuilt err) = unsegregated err
segregate malloc tid faulty = faulty_store

-- `if (use_service_keytab)`, with the places of the keytab and of the client keytab. With a client
-- keytab but no keytab the store is left as it is.
unfoldable pub service_keytab : (ℕ → Bool) → ℕ → Store → Option ℕ → Option ℕ → Segregated
unfolding segregate put_client_keytab
service_keytab malloc tid st (some k) ck =
    segregate malloc tid (put_client_keytab malloc (get_elem? st.cs k) st ck)
service_keytab malloc tid st none none = unsegregated einval
service_keytab malloc tid st none (some ck) = segregated st.cs none

-- What follows the loop.
unfoldable pub finish_store : (ℕ → Bool) → ℕ → Bool → Built → Segregated
unfolding segregate service_keytab
finish_store malloc tid use_service_keytab (unbuilt err) = unsegregated err
finish_store malloc tid use_service_keytab faulty = faulty_store
finish_store malloc tid false (built st) = segregate malloc tid (built st)
finish_store malloc tid true (built st) = service_keytab malloc tid st st.k_num st.ck_num

abbrev pub empty_store : Store
empty_store = record { cs = []; k_num = none; ck_num = none; cc_num = none }

-- The part of gp_get_cred_environment behind `if (svc->krb5.store.count == 0) return 0`; calloc takes
-- elements of two pointers.
unfoldable pub make_store : (ℕ → Bool) → Option (List ℕ) → ℕ → ℕ → Bool → List KeyValue → Segregated
unfolding add_elements finish_store
make_store malloc name uid tid use_service_keytab [] = segregated [] none
make_store malloc name uid tid use_service_keytab (e ∷ es) =
    if malloc ((length (e ∷ es) + 2) * 16)
    then finish_store malloc tid use_service_keytab
        (add_elements malloc name uid (e ∷ es) (built empty_store))
    else unsegregated enomem
