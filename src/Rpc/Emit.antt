-- ===== src/Rpc/Emit.antt =====
-- What an encoding filter leaves on the stream, as the decoding filter reads it back: the shape of
-- the proofs about the filters of rpcgen/gp_rpc_xdr.c.
use gssproxy.Prelude.{
  ℕ, ◌<◌, ◌+◌, ◌^◌, ◌≡◌, refl, sym, ◌∙◌, ap, List, [], ◌++◌, Option, none, some, ◌>>=◌, append-nil,
  append_assoc, length, length-append, leb, leb→le, ◌≤◌, arith, Bool-cases, inl, inr,
}
use gssproxy.Xdr.{Xdr, IsXdr}
use gssproxy.Rpc.Decode.{Get}

-- From `out` to `out'` a chunk was added, from which `get` reads `a` and no more than that.
pub record Emit {A : Type 0} (get : Get A) (a : A) (out out' : List ℕ) : Type 0 where
  pub chunk : List ℕ
  pub added : out' ≡ out ++ chunk
  pub reads : (rest : List ℕ) → get (chunk ++ rest) ≡ some (a, rest)

-- Inversion of a chain that succeeds.
pub >>=-eq-some {ℓ κ} :
    {A : Type ℓ} {B : Type κ} (m : Option A) (f : A → Option B) {b : B}
    → (m >>= f) ≡ some b
    → (a : A) × (m ≡ some a) × (f a ≡ some b)
>>=-eq-some none f h = cc
>>=-eq-some (some a) f h = (a, refl, h)

module _ {A : Type 0} where
  pub Emit-pure : (a : A) (out : List ℕ) → Emit (λ inp. some (a, inp)) a out out
  Emit-pure a out = record { chunk = []; added = sym (append-nil out); reads = λ rest. refl }

  -- Two filters in a row.
  pub Emit-bind :
      {B : Type 0} (next : A → Get B) {get : Get A} {a : A} {b : B} {out mid out' : List ℕ}
      → Emit get a out mid
      → Emit (next a) b mid out'
      → Emit (λ inp. get inp >>= λ (v, left). next v left) b out out'
  Emit-bind next {get} {a} {b} {out} e f = record {
    chunk = e.chunk ++ f.chunk;
    added = f.added ∙ ap (λ o. o ++ f.chunk) e.added ∙ append_assoc out e.chunk f.chunk;
    reads =
        λ rest. rw (append_assoc e.chunk f.chunk rest, e.reads (f.chunk ++ rest)) (f.reads rest);
  }

  -- A filter that reads as another one does, here after a test on a tag.
  pub Emit-cast :
      {get get' : Get A} {a : A} {out out' : List ℕ}
      → ((inp : List ℕ) → get' inp ≡ get inp)
      → Emit get a out out'
      → Emit get' a out out'
  Emit-cast same e = record {
    chunk = e.chunk;
    added = e.added;
    reads = λ rest. same (e.chunk ++ rest) ∙ e.reads rest;
  }

module _ {x : Xdr} (lib : IsXdr x) (cap : ℕ) where
  pub put-eq-some :
      (out chunk : List ℕ) {out' : List ℕ} → x.put cap out chunk ≡ some out' → out' ≡ out ++ chunk
  put-eq-some out chunk h = elim (Bool-cases (leb (length out + length chunk) cap)) [
    | inl fits ↦ let e = sym h ∙ lib.put_lem cap out chunk in cc (e, fits)
    | inr full ↦ let e = sym h ∙ lib.put_lem cap out chunk in cc (e, full)
  ]

  pub put-fits :
      (out chunk : List ℕ) {out' : List ℕ} → x.put cap out chunk ≡ some out' → length out' ≤ cap
  put-fits out chunk h = elim (Bool-cases (leb (length out + length chunk) cap)) [
    | inl fits ↦
        let n = leb→le _ cap fits in
        omega (arith, ap length (put-eq-some out chunk h), length-append out chunk)
    | inr full ↦ let e = sym h ∙ lib.put_lem cap out chunk in cc (e, full)
  ]

  pub Emit-u_int :
      (n : ℕ) (out : List ℕ) {out' : List ℕ}
      → n < 2 ^ 32
      → x.put cap out (x.u_int n) ≡ some out'
      → Emit x.get_u_int n out out'
  Emit-u_int n out small h = record {
    chunk = x.u_int n;
    added = put-eq-some out (x.u_int n) h;
    reads = λ rest. lib.get_u_int-u_int n rest small;
  }

  pub Emit-enum :
      (n : ℕ) (out : List ℕ) {out' : List ℕ}
      → n < 2 ^ 32
      → x.put cap out (x.enum n) ≡ some out'
      → Emit x.get_enum n out out'
  Emit-enum n out small h = record {
    chunk = x.enum n;
    added = put-eq-some out (x.enum n) h;
    reads = λ rest. lib.get_enum-enum n rest small;
  }

  pub Emit-bytes :
      (max : ℕ) (b : List ℕ) {chunk : List ℕ} (out : List ℕ) {out' : List ℕ}
      → x.bytes max b ≡ some chunk
      → x.put cap out chunk ≡ some out'
      → Emit (x.get_bytes max) b out out'
  Emit-bytes max b {chunk} out long h = record {
    chunk = chunk;
    added = put-eq-some out chunk h;
    reads = λ rest. lib.get_bytes-bytes max b chunk rest long;
  }

  pub Emit-opaque_nil :
      (out : List ℕ) {out' : List ℕ}
      → x.put cap out (x.opaque []) ≡ some out'
      → Emit (x.get_opaque 0) [] out out'
  Emit-opaque_nil out h = record {
    chunk = [];
    added = rw lib.opaque-nil at (put-eq-some out (x.opaque []) h);
    reads = λ rest. lib.get_opaque-nil rest;
  }
