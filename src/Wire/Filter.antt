-- ===== src/Wire/Filter.antt =====
-- XDR filters, as rpcgen/gss_proxy_xdr.c composes them: one function for both directions, which the
-- library (libtirpc) runs under XDR_ENCODE and under XDR_DECODE.
use gssproxy.Prelude.{ℕ, ◌<◌, ◌≤◌, ◌^◌, ◌≡◌, ap, List, Option, some, Bool, ◌>>=◌, length}
use gssproxy.Xdr.{Xdr, IsXdr}
use gssproxy.Rpc.Decode.{Get}
use gssproxy.Rpc.Procs.{Put, IsInverse}
use gssproxy.Rpc.Emit.{>>=-eq-some, Emit, Emit-bind, Emit-pure, Emit-bytes, put-fits}

-- xdrproc_t
pub record Filter (A : Type 0) : Type 0 where
  pub encode : Put A
  pub decode : Get A

-- A filter reads back what it wrote, and writes nothing beyond the stream.
pub record IsFilter {A : Type 0} (f : Filter A) : Type 0 where
  pub inverse : IsInverse f.encode f.decode
  pub fits :
      (cap : ℕ) (a : A) (out : List ℕ) {out' : List ℕ}
      → f.encode cap a out ≡ some out'
      → length out' ≤ cap

-- A machine integer of so many bits.
abbrev pub UInt : ℕ → Type 0
UInt w = (n : ℕ) × (n < 2 ^ w)

-- xdr_u_quad_t, xdr_enum, xdr_bool, xdr_array and xdr_pointer of the library; xdr_bytes is that of the
-- record Xdr. The maximal length ~0 of the arrays is that of a u_int.
pub record XdrLib : Type 1 where
  pub xdr : Xdr
  pub xdr_u_quad_t : Filter (UInt 64)
  pub xdr_enum : Filter (UInt 32)
  pub xdr_bool : Filter Bool
  pub xdr_array : {A : Type 0} → Filter A → Filter (List A)
  pub xdr_pointer : {A : Type 0} → Filter A → Filter (Option A)

-- What RFC 4506 and the manual say of them: each reads back what it wrote.
pub record IsXdrLib (lib : XdrLib) : Type 1 where
  pub is_xdr : IsXdr lib.xdr
  pub u_quad_t_lem : IsFilter lib.xdr_u_quad_t
  pub enum_lem : IsFilter lib.xdr_enum
  pub bool_lem : IsFilter lib.xdr_bool
  pub array_lem : {A : Type 0} {f : Filter A} → IsFilter f → IsFilter (lib.xdr_array f)
  pub pointer_lem : {A : Type 0} {f : Filter A} → IsFilter f → IsFilter (lib.xdr_pointer f)

-- A value that selects the filter of what follows it.
unfoldable pub switch :
    {A : Type 0} {B : A → Type 0} → Filter A → ((a : A) → Filter (B a)) → Filter ((a : A) × B a)
switch f g = record {
  encode = λ cap (a, b) out. f.encode cap a out >>= λ mid. (g a).encode cap b mid;
  decode = λ inp. do
    (a, inp) ← f.decode inp
    (b, inp) ← (g a).decode inp
    some ((a, b), inp);
}

-- A field of a struct, with its filter.
pub record Field (S A : Type 0) : Type 0 where
  pub get : S → A
  pub filter : Filter A

abbrev pub on : {S A : Type 0} → (S → A) → Filter A → Field S A
on get filter = record { get = get; filter = filter }

-- The filters of some fields of S, in order, which under XDR_DECODE give an A.
pub record Fields (S A : Type 0) : Type 0 where
  pub encode : Put S
  pub decode : Get A

infixl 35 ◌⊙◌ ◌⊛◌
-- The first field.
unfoldable pub ◌⊙◌ : {S A B : Type 0} → (A → B) → Field S A → Fields S B
make ⊙ field = record {
  encode = λ cap s out. field.filter.encode cap (field.get s) out;
  decode = λ inp. do
    (a, inp) ← field.filter.decode inp
    some (make a, inp);
}

-- The next field, if those before succeed.
unfoldable pub ◌⊛◌ : {S A B : Type 0} → Fields S (A → B) → Field S A → Fields S B
before ⊛ field = record {
  encode = λ cap s out. do
    out ← before.encode cap s out
    field.filter.encode cap (field.get s) out;
  decode = λ inp. do
    (make, inp) ← before.decode inp
    (a, inp) ← field.filter.decode inp
    some (make a, inp);
}

unfoldable pub struct : {S : Type 0} → Fields S S → Filter S
struct all = record { encode = all.encode; decode = all.decode }

-- xdr_bytes with the maximal length ~0.
unfoldable pub xdr_bytes : Xdr → Filter (List ℕ)
xdr_bytes x = record {
  encode = λ cap b out. x.bytes 4294967295 b >>= λ chunk. x.put cap out chunk;
  decode = x.get_bytes 4294967295;
}

pub xdr_bytes-IsFilter : {x : Xdr} → IsXdr x → IsFilter (xdr_bytes x)
unfolding xdr_bytes
xdr_bytes-IsFilter {x} lib = record {
  inverse = λ cap b out out' h.
      let (chunk, e, e') = >>=-eq-some (x.bytes 4294967295 b) _ h in
      let m = Emit-bytes lib cap 4294967295 b out e e' in (m.chunk, m.added, m.reads);
  fits = λ cap b out h.
      let (chunk, e, e') = >>=-eq-some (x.bytes 4294967295 b) _ h in put-fits lib cap out chunk e';
}

-- What a filter that reads back leaves on the stream.
pub Emit-IsFilter :
    {A : Type 0} {f : Filter A}
    → IsFilter f
    → (cap : ℕ) (a : A) (out : List ℕ) {out' : List ℕ} → f.encode cap a out ≡ some out'
    → Emit f.decode a out out'
Emit-IsFilter ok cap a out {out'} h =
    let (chunk, added, reads) = ok.inverse cap a out out' h in
    record { chunk = chunk; added = added; reads = reads }

pub switch-IsFilter :
    {A : Type 0} {B : A → Type 0} {f : Filter A} {g : (a : A) → Filter (B a)}
    → IsFilter f
    → ((a : A) → IsFilter (g a))
    → IsFilter (switch f g)
unfolding switch
switch-IsFilter {f = f} {g} ok ok' = record {
  inverse = λ cap (a, b) out out' h.
      let (mid, e, e') = >>=-eq-some (f.encode cap a out) _ h in
      let second = Emit-IsFilter (ok' a) cap b mid e' in
      let pair = Emit-bind (λ w left. some ((a, w), left)) second (Emit-pure (a, b) out') in
      let m =
        Emit-bind (λ v inp. (g v).decode inp >>= λ (w, left). some ((v, w), left))
          (Emit-IsFilter ok cap a out e) pair in
      (m.chunk, m.added, m.reads);
  fits = λ cap (a, b) out h.
      let (mid, e, e') = >>=-eq-some (f.encode cap a out) _ h in (ok' a).fits cap b mid e';
}

-- Reading back some fields of `s` gives `value s`.
pub record Reads {S A : Type 0} (fs : Fields S A) (value : S → A) : Type 0 where
  pub emits :
      (cap : ℕ) (s : S) (out : List ℕ) {out' : List ℕ}
      → fs.encode cap s out ≡ some out'
      → Emit fs.decode (value s) out out'
  pub fits :
      (cap : ℕ) (s : S) (out : List ℕ) {out' : List ℕ}
      → fs.encode cap s out ≡ some out'
      → length out' ≤ cap

module _ {S A B : Type 0} {get : S → A} {f : Filter A} where
  pub first : (make : A → B) → IsFilter f → Reads (make ⊙ on get f) (λ s. make (get s))
  unfolding ◌⊙◌
  first make ok = record {
    emits = λ cap s out {out'} h.
        Emit-bind (λ a left. some (make a, left)) (Emit-IsFilter ok cap (get s) out h)
          (Emit-pure (make (get s)) out');
    fits = λ cap s out h. ok.fits cap (get s) out h;
  }

  infixl 35 ◌▹◌
  pub ◌▹◌ :
      {fs : Fields S (A → B)} {value : S → A → B}
      → Reads fs value
      → IsFilter f
      → Reads (fs ⊛ on get f) (λ s. value s (get s))
  unfolding ◌⊛◌
  ◌▹◌ {fs} {value} before ok = record {
    emits = λ cap s out {out'} h.
        let (mid, e, e') = >>=-eq-some (fs.encode cap s out) _ h in
        let last =
          Emit-bind (λ a left. some (value s a, left)) (Emit-IsFilter ok cap (get s) mid e')
            (Emit-pure (value s (get s)) out') in
        Emit-bind (λ make inp. f.decode inp >>= λ (a, left). some (make a, left))
          (before.emits cap s out e) last;
    fits = λ cap s out h.
        let (mid, e, e') = >>=-eq-some (fs.encode cap s out) _ h in ok.fits cap (get s) mid e';
  }

pub struct-IsFilter :
    {S : Type 0} {fs : Fields S S} {value : S → S}
    → Reads fs value
    → ((s : S) → value s ≡ s)
    → IsFilter (struct fs)
unfolding struct
struct-IsFilter all whole = record {
  inverse = λ cap s out out' h.
      let m = all.emits cap s out h in
      (m.chunk, m.added, λ rest. rw (m.reads rest) (ap (λ v. some (v, rest)) (whole s)));
  fits = λ cap s out h. all.fits cap s out h;
}
