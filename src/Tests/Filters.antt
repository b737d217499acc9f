-- ===== src/Tests/Filters.antt =====
-- The filters of RFC 4506 that the procedures are made of: an instance of the parameter XdrLib of the
-- model, for the examples.
use std.HLevel.{Σ_prop_path}
use native.Mathlib.Bridge.{le_prop}
use gssproxy.Prelude.{
  ℕ, zero, suc, ◌+◌, ◌*◌, ◌/◌, ◌%◌, ◌^◌, ◌<◌, ◌≤◌, ◌≡◌, refl, ap, sym, ◌∙◌, List, [], ◌∷◌, ◌++◌,
  Option, none, some, ◌>>=◌, length, ltb, append-nil, subst, if◌then◌else◌, Bool, true, false,
  Bool-cases, inl, inr, arith,
}
use gssproxy.Rpc.Decode.{Get}
use gssproxy.Rpc.Procs.{Put}
use gssproxy.Rpc.Emit.{>>=-eq-some, Emit, Emit-bind, Emit-pure, Emit-u_int, put-fits}
use gssproxy.Wire.Filter.{Filter, IsFilter, Emit-IsFilter, UInt, XdrLib, IsXdrLib}
use gssproxy.Tests.Rfc.{rfc4506, rfc4506-IsXdr}

-- The words of so many bits are equal when the numbers are.
UInt-eq : (w : ℕ) (u v : UInt w) → u.0 ≡ v.0 → u ≡ v
UInt-eq w u v e = Σ_prop_path (λ k. le_prop) {u = u} {v = v} e

word32_of : ℕ → UInt 32
word32_of n = (n % 2 ^ 32, omega arith)

word64_of : ℕ → UInt 64
word64_of n = (n % 2 ^ 64, omega arith)

-- A word of 32 bits: u_int and enum.
word32 : Filter (UInt 32)
word32 = record {
  encode = λ cap (n, small) out. rfc4506.put cap out (rfc4506.u_int n);
  decode = λ inp. do
    (n, inp) ← rfc4506.get_u_int inp
    some (word32_of n, inp);
}

-- A hyper: its high half first.
word64 : Filter (UInt 64)
word64 = record {
  encode = λ cap (n, small) out. do
    out ← rfc4506.put cap out (rfc4506.u_int (n / 2 ^ 32))
    rfc4506.put cap out (rfc4506.u_int (n % 2 ^ 32));
  decode = λ inp. do
    (high, inp) ← rfc4506.get_u_int inp
    (low, inp) ← rfc4506.get_u_int inp
    some (word64_of (high * 2 ^ 32 + low), inp);
}

number_of : Bool → ℕ
number_of true = 1
number_of false = 0

-- Of the words only 0 and 1 are Booleans.
bool_of : ℕ → Option Bool
bool_of zero = some false
bool_of (suc zero) = some true
bool_of (suc (suc n)) = none

boolean : Filter Bool
unfolding number_of bool_of
boolean = record {
  encode = λ cap b out. rfc4506.put cap out (rfc4506.u_int (number_of b));
  decode = λ inp. do
    (n, inp) ← rfc4506.get_u_int inp
    b ← bool_of n
    some (b, inp);
}

module _ {A : Type 0} where
  -- The elements of an array, without their number.
  encode_all : Filter A → Put (List A)
  encode_all f cap [] out = some out
  encode_all f cap (a ∷ more) out = f.encode cap a out >>= λ out. encode_all f cap more out

  decode_all : Filter A → ℕ → Get (List A)
  decode_all f zero inp = some ([], inp)
  decode_all f (suc n) inp = do
    (a, inp) ← f.decode inp
    (more, inp) ← decode_all f n inp
    some (a ∷ more, inp)

  array : Filter A → Filter (List A)
  unfolding encode_all decode_all
  array f = record {
    encode = λ cap items out.
        if ltb (length items) (2 ^ 32)
        then (rfc4506.put cap out (rfc4506.u_int (length items)) >>= λ out.
            encode_all f cap items out)
        else none;
    decode = λ inp. do
      (n, inp) ← rfc4506.get_u_int inp
      decode_all f n inp;
  }

  encode_rest : Filter A → Put (Option A)
  encode_rest f cap none out = some out
  encode_rest f cap (some a) out = f.encode cap a out

  decode_rest : Filter A → Bool → Get (Option A)
  decode_rest f false inp = some (none, inp)
  decode_rest f true inp = f.decode inp >>= λ (a, inp). some (some a, inp)

  there : Option A → Bool
  there none = false
  there (some a) = true

  -- A Boolean tells whether the pointer is not NULL.
  pointer : Filter A → Filter (Option A)
  unfolding encode_rest decode_rest there boolean
  pointer f = record {
    encode = λ cap o out. boolean.encode cap (there o) out >>= λ out. encode_rest f cap o out;
    decode = λ inp. do
      (b, inp) ← boolean.decode inp
      decode_rest f b inp;
  }

filter_lem :
    {A : Type 0} {f : Filter A}
    → ((cap : ℕ) (a : A) (out out' : List ℕ)
        → f.encode cap a out ≡ some out'
        → Emit f.decode a out out' × (length out' ≤ cap))
    → IsFilter f
filter_lem both = record {
  inverse =
      λ cap a out out' h. let (m, fits) = both cap a out out' h in (m.chunk, m.added, m.reads);
  fits = λ cap a out {out'} h. (both cap a out out' h).1;
}

Emit-pure_eq :
    {A : Type 0} {a b : A} → a ≡ b → (out : List ℕ) → Emit (λ inp. some (a, inp)) b out out
Emit-pure_eq {b = b} same out =
    let m = Emit-pure b out in
    record {
      chunk = m.chunk;
      added = m.added;
      reads = λ rest. ap (λ v. some (v, m.chunk ++ rest)) same ∙ m.reads rest;
    }

word32-IsFilter : IsFilter word32
unfolding word32 word32_of
word32-IsFilter = filter_lem λ cap (n, small) out out' h. (
  Emit-bind (λ n left. some (word32_of n, left)) (Emit-u_int rfc4506-IsXdr cap n out small h)
      (Emit-pure_eq (UInt-eq 32 (word32_of n) (n, small) (omega arith)) out'),
  put-fits rfc4506-IsXdr cap out (rfc4506.u_int n) h,
)

word64-IsFilter : IsFilter word64
unfolding word64 word64_of
word64-IsFilter = filter_lem λ cap (n, small) out out' h.
    let (mid, e, e') = >>=-eq-some (rfc4506.put cap out (rfc4506.u_int (n / 2 ^ 32))) _ h in
    let high = Emit-u_int rfc4506-IsXdr cap (n / 2 ^ 32) out (omega arith) e in
    let low = Emit-u_int rfc4506-IsXdr cap (n % 2 ^ 32) mid (omega arith) e' in
    let same = UInt-eq 64 (word64_of (n / 2 ^ 32 * 2 ^ 32 + n % 2 ^ 32)) (n, small) (omega arith) in
    (
      Emit-bind
          (λ high inp.
            rfc4506.get_u_int inp >>= λ (low, left). some (word64_of (high * 2 ^ 32 + low), left))
          high
          (Emit-bind (λ low left. some (word64_of (n / 2 ^ 32 * 2 ^ 32 + low), left)) low
            (Emit-pure_eq same out')),
      put-fits rfc4506-IsXdr cap mid (rfc4506.u_int (n % 2 ^ 32)) e',
    )

-- A filter that writes nothing.
nothing_more :
    {A : Type 0} (a : A) {cap : ℕ} (out out' : List ℕ)
    → length out ≤ cap
    → some out ≡ some out'
    → Emit (λ inp. some (a, inp)) a out out' × (length out' ≤ cap)
nothing_more a out out' room h =
    let same : out ≡ out' = cc in
    (subst (Emit (λ inp. some (a, inp)) a out) same (Emit-pure a out), rw (sym same) room)

number_of-lt : (b : Bool) → number_of b < 2 ^ 32
unfolding number_of
number_of-lt true = omega arith
number_of-lt false = omega arith

bool_of-number_of : (b : Bool) → bool_of (number_of b) ≡ some b
unfolding bool_of number_of
bool_of-number_of true = refl
bool_of-number_of false = refl

boolean-IsFilter : IsFilter boolean
unfolding boolean bool_of number_of
boolean-IsFilter = filter_lem λ cap b out out' h. (
  Emit-bind (λ n left. bool_of n >>= λ b. some (b, left))
      (Emit-u_int rfc4506-IsXdr cap (number_of b) out (number_of-lt b) h)
      (record {
        chunk = [];
        added = sym (append-nil out');
        reads = λ rest. ap (λ o. o >>= λ b. some (b, rest)) (bool_of-number_of b);
      }),
  put-fits rfc4506-IsXdr cap out (rfc4506.u_int (number_of b)) h,
)

module _ {A : Type 0} {f : Filter A} (ok : IsFilter f) where
  decode_rest-encode_rest :
      (cap : ℕ) (o : Option A) (out out' : List ℕ)
      → length out ≤ cap
      → encode_rest f cap o out ≡ some out'
      → Emit (decode_rest f (there o)) o out out' × (length out' ≤ cap)
  unfolding encode_rest decode_rest there
  decode_rest-encode_rest cap none out out' room h = nothing_more none out out' room h
  decode_rest-encode_rest cap (some a) out out' room h = (
    Emit-bind (λ a left. some (some a, left)) (Emit-IsFilter ok cap a out h)
        (Emit-pure (some a) out'),
    ok.fits cap a out h,
  )

  decode_all-encode_all :
      (cap : ℕ) (items : List A) (out out' : List ℕ)
      → length out ≤ cap
      → encode_all f cap items out ≡ some out'
      → Emit (decode_all f (length items)) items out out' × (length out' ≤ cap)
  unfolding encode_all decode_all
  decode_all-encode_all cap [] out out' room h = nothing_more [] out out' room h
  decode_all-encode_all cap (a ∷ more) out out' room h =
      let (mid, e, e') = >>=-eq-some (f.encode cap a out) _ h in
      let (m, fits) = decode_all-encode_all cap more mid out' (ok.fits cap a out e) e' in
      (
        Emit-bind
            (λ a inp. decode_all f (length more) inp >>= λ (more, left). some (a ∷ more, left))
            (Emit-IsFilter ok cap a out e)
            (Emit-bind (λ more left. some (a ∷ more, left)) m (Emit-pure (a ∷ more) out')),
        fits,
      )

  array-IsFilter : IsFilter (array f)
  unfolding array
  array-IsFilter = filter_lem λ cap items out out' h.
      elim (Bool-cases (ltb (length items) (2 ^ 32))) [
        | inl few ↦
            let (mid, e, e') =
              >>=-eq-some (rfc4506.put cap out (rfc4506.u_int (length items))) _ (rw few at h) in
            let room = put-fits rfc4506-IsXdr cap out (rfc4506.u_int (length items)) e in
            let (m, fits) = decode_all-encode_all cap items mid out' room e' in
            (
              Emit-bind (decode_all f)
                  (Emit-u_int rfc4506-IsXdr cap (length items) out (ground arith) e) m,
              fits,
            )
        | inr many ↦ let h' = rw many at h in cc
      ]

  pointer-IsFilter : IsFilter (pointer f)
  unfolding pointer encode_rest decode_rest there
  pointer-IsFilter = filter_lem λ cap o out out' h.
      let (mid, e, e') = >>=-eq-some (boolean.encode cap (there o) out) _ h in
      let (m, fits) =
        decode_rest-encode_rest cap o mid out' (boolean-IsFilter.fits cap (there o) out e) e' in
      (Emit-bind (decode_rest f) (Emit-IsFilter boolean-IsFilter cap (there o) out e) m, fits)

unfoldable pub rfc4506_lib : XdrLib
unfolding word32 word64 word32_of word64_of number_of bool_of boolean array pointer
rfc4506_lib = record {
  xdr = rfc4506;
  xdr_u_quad_t = word64;
  xdr_enum = word32;
  xdr_bool = boolean;
  xdr_array = array;
  xdr_pointer = pointer;
}

pub rfc4506_lib-IsXdrLib : IsXdrLib rfc4506_lib
unfolding rfc4506_lib
rfc4506_lib-IsXdrLib = record {
  is_xdr = rfc4506-IsXdr;
  u_quad_t_lem = word64-IsFilter;
  enum_lem = word32-IsFilter;
  bool_lem = boolean-IsFilter;
  array_lem = array-IsFilter;
  pointer_lem = pointer-IsFilter;
}
