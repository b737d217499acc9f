-- ===== src/Xdr.antt =====
-- The XDR library (libtirpc) that rpcgen/ calls: a parameter of the model, since its code is not in
-- the repository. A memory stream is the list of bytes written so far, or left to read.
use gssproxy.Prelude.{
  ℕ, ◌+◌, ◌<◌, ◌^◌, ◌≡◌, List, [], ◌++◌, Option, some, none, length, leb, if◌then◌else◌,
}

-- `put` is the write of a chunk to a memory stream of a capacity (xdrmem), after the bytes that are
-- there. The chunks are those of xdr_u_int, xdr_enum, xdr_bytes and xdr_opaque, and the `get`s what
-- these do under XDR_DECODE. xdr_bytes takes the maximal length.
pub record Xdr : Type 0 where
  pub put : ℕ → List ℕ → List ℕ → Option (List ℕ)
  pub u_int : ℕ → List ℕ
  pub enum : ℕ → List ℕ
  pub bytes : ℕ → List ℕ → Option (List ℕ)
  pub opaque : List ℕ → List ℕ
  pub get_u_int : List ℕ → Option (ℕ × List ℕ)
  pub get_enum : List ℕ → Option (ℕ × List ℕ)
  pub get_bytes : ℕ → List ℕ → Option (List ℕ × List ℕ)
  pub get_opaque : ℕ → List ℕ → Option (List ℕ × List ℕ)

-- What RFC 4506 and the manual of the library say of these calls.
pub record IsXdr (x : Xdr) : Type 0 where
  pub put_lem :
      (cap : ℕ) (out chunk : List ℕ)
      → x.put cap out chunk
        ≡ (if leb (length out + length chunk) cap then some (out ++ chunk) else none)
  pub length-u_int : (n : ℕ) → length (x.u_int n) ≡ 4
  pub length-enum : (n : ℕ) → length (x.enum n) ≡ 4
  pub get_u_int-u_int :
      (n : ℕ) (rest : List ℕ) → n < 2 ^ 32 → x.get_u_int (x.u_int n ++ rest) ≡ some (n, rest)
  pub get_enum-enum :
      (n : ℕ) (rest : List ℕ) → n < 2 ^ 32 → x.get_enum (x.enum n ++ rest) ≡ some (n, rest)
  pub get_bytes-bytes :
      (max : ℕ) (b chunk rest : List ℕ)
      → x.bytes max b ≡ some chunk
      → x.get_bytes max (chunk ++ rest) ≡ some (b, rest)
  pub get_u_int-lt :
      (inp : List ℕ) {n : ℕ} {rest : List ℕ} → x.get_u_int inp ≡ some (n, rest) → n < 2 ^ 32
  pub bytes-nil : (max : ℕ) → x.bytes max [] ≡ some (x.u_int 0)
  pub opaque-nil : x.opaque [] ≡ []
  pub get_opaque-nil : (rest : List ℕ) → x.get_opaque 0 rest ≡ some ([], rest)
