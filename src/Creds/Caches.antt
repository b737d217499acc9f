-- ===== src/Creds/Caches.antt =====
-- The elements of a credential store, of src/gp_creds.c, and the credential caches among them.
use gssproxy.Prelude.{ℕ, zero, suc, ◌≡◌, ◌≢◌, sym, ◌∙◌, arith, List, [], ◌∷◌, ◌++◌, length}
use gssproxy.Creds.Service.{KeyValue}
use gssproxy.Creds.Store.{client_keytab, ccache, set_value}

-- The set has an element of the key.
pub data HasKey (key : List ℕ) : List KeyValue → Type 0 where
  has_here : (e : KeyValue) (es : List KeyValue) → e.key ≡ key → HasKey key (e ∷ es)
  has_there : (e : KeyValue) (es : List KeyValue) → HasKey key es → HasKey key (e ∷ es)

-- An element of a set.
pub data Listed (e : KeyValue) : List KeyValue → Type 0 where
  listed_here : (es : List KeyValue) → Listed e (e ∷ es)
  listed_there : (f : KeyValue) (es : List KeyValue) → Listed e es → Listed e (f ∷ es)

-- The set has a credential cache, with a value of this kind.
pub data HasCache (V : List ℕ → Type 0) : List KeyValue → Type 0 where
  cache_here :
      (e : KeyValue) (es : List KeyValue) → e.key ≡ ccache → V e.value → HasCache V (e ∷ es)
  cache_there : (e : KeyValue) (es : List KeyValue) → HasCache V es → HasCache V (e ∷ es)

pub Listed-HasCache :
    (V : List ℕ → Type 0) (e : KeyValue) (es : List KeyValue)
    → Listed e es
    → e.key ≡ ccache
    → V e.value
    → HasCache V es
Listed-HasCache V e es (listed_here rest) same value = cache_here e rest same value
Listed-HasCache V e es (listed_there f rest l) same value =
    cache_there f rest (Listed-HasCache V e rest l same value)

pub append-HasCache :
    {V : List ℕ → Type 0} {es : List KeyValue} (fs : List KeyValue)
    → HasCache V es
    → HasCache V (es ++ fs)
append-HasCache fs (cache_here e es same value) = cache_here e (es ++ fs) same value
append-HasCache fs (cache_there e es has) = cache_there e (es ++ fs) (append-HasCache fs has)

pub last-HasCache :
    {V : List ℕ → Type 0} (es : List KeyValue) (e : KeyValue)
    → e.key ≡ ccache
    → V e.value
    → HasCache V (es ++ e ∷ [])
last-HasCache [] e same value = cache_here e [] same value
last-HasCache (f ∷ fs) e same value = cache_there f (fs ++ e ∷ []) (last-HasCache fs e same value)

-- The element at a place has the key.
pub data KeyAt (key : List ℕ) : ℕ → List KeyValue → Type 0 where
  at_zero : (e : KeyValue) (es : List KeyValue) → e.key ≡ key → KeyAt key zero (e ∷ es)
  at_suc : (i : ℕ) (e : KeyValue) (es : List KeyValue) → KeyAt key i es → KeyAt key (suc i) (e ∷ es)

pub append-KeyAt :
    {key : List ℕ} {i : ℕ} {es : List KeyValue} (fs : List KeyValue)
    → KeyAt key i es
    → KeyAt key i (es ++ fs)
append-KeyAt fs (at_zero e es same) = at_zero e (es ++ fs) same
append-KeyAt fs (at_suc i e es at) = at_suc i e (es ++ fs) (append-KeyAt fs at)

pub last-KeyAt :
    {key : List ℕ} (es : List KeyValue) (e : KeyValue)
    → e.key ≡ key
    → KeyAt key (length es) (es ++ e ∷ [])
last-KeyAt [] e same = at_zero e [] same
last-KeyAt (f ∷ fs) e same = at_suc (length fs) f (fs ++ e ∷ []) (last-KeyAt fs e same)

client_keytab_ne : client_keytab ≢ ccache
client_keytab_ne e = ground (arith, e)

-- A new value for the client keytab leaves the cache.
pub set_value-HasCache :
    {V : List ℕ → Type 0} (v : List ℕ) (i : ℕ) (es : List KeyValue)
    → KeyAt client_keytab i es
    → HasCache V es
    → HasCache V (set_value i v es)
unfolding set_value
set_value-HasCache v zero [] at has = elim at [ ]
set_value-HasCache v (suc i) [] at has = elim at [ ]
set_value-HasCache v zero (e ∷ es) (at_zero _ _ client) (cache_here _ _ same value) =
    absurd (client_keytab_ne (sym client ∙ same))
set_value-HasCache v zero (e ∷ es) (at_zero _ _ client) (cache_there _ _ has) = cache_there _ es has
set_value-HasCache v (suc i) (e ∷ es) (at_suc _ _ _ at) (cache_here _ _ same value) =
    cache_here e _ same value
set_value-HasCache v (suc i) (e ∷ es) (at_suc _ _ _ at) (cache_there _ _ has) =
    cache_there e _ (set_value-HasCache v i es at has)
