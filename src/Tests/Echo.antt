-- ===== src/Tests/Echo.antt =====
-- Procedures that return their arguments, over the XDR of RFC 4506: an instance of the interface
-- between the RPC layer and the handlers, for the examples. The context counts the calls.
use gssproxy.Prelude.{
  ℕ, ◌+◌, ◌≤◌, ◌≡◌, List, [], ◌∷◌, some, ◌>>=◌, Ret, success, failure, enomem, length,
}
use gssproxy.Rpc.Decode.{Get}
use gssproxy.Rpc.Emit.{>>=-eq-some, Emit-bytes, put-fits}
use gssproxy.Rpc.Procs.{Proc, Put, Procs, IsProcs, IsInverse}
use gssproxy.Tests.Rfc.{rfc4506, rfc4506-IsXdr}

abbrev put_octets : Put (List ℕ)
put_octets cap octets out = rfc4506.bytes 100 octets >>= λ chunk. rfc4506.put cap out chunk

abbrev get_octets : Get (List ℕ)
get_octets = rfc4506.get_bytes 100

abbrev echo_exec : Proc → ℕ → List ℕ → ℕ × Ret × List ℕ
echo_exec p ctx [] = (ctx + 1, failure enomem, [])
echo_exec p ctx (n ∷ octets) = (ctx + 1, success, n ∷ octets)

abbrev pub echo : Procs ℕ (List ℕ) (List ℕ)
echo = record {
  zero_arg = [];
  zero_res = [];
  cleared = λ p. [];
  encode_arg = λ p. put_octets;
  decode_arg = λ p. get_octets;
  encode_res = λ p. put_octets;
  decode_res = λ p. get_octets;
  exec = echo_exec;
}

octets-IsInverse : IsInverse put_octets get_octets
octets-IsInverse cap octets out out' h =
    let (chunk, e, e') = >>=-eq-some (rfc4506.bytes 100 octets) _ h in
    let m = Emit-bytes rfc4506-IsXdr cap 100 octets out e e' in (m.chunk, m.added, m.reads)

octets_fit :
    (cap : ℕ) (octets out : List ℕ) {out' : List ℕ}
    → put_octets cap octets out ≡ some out'
    → length out' ≤ cap
octets_fit cap octets out {out'} h =
    let (chunk, e, e') = >>=-eq-some (rfc4506.bytes 100 octets) _ h in
    put-fits rfc4506-IsXdr cap out chunk e'

pub echo-IsProcs : IsProcs echo
echo-IsProcs = record {
  arg_inverse = λ p. octets-IsInverse;
  res_inverse = λ p. octets-IsInverse;
  res_fits = λ p cap octets out h. octets_fit cap octets out h;
}
