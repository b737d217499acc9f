-- ===== src/Rpc/Procs.antt =====
-- The procedures of the protocol (rpcgen/gss_proxy.h), and the interface between the RPC layer and
-- what it calls by procedure: the argument and result filters of rpcgen/gss_proxy_xdr.c and the
-- handlers of src/gp_rpc_*.c.
use gssproxy.Prelude.{length, ◌≤◌, ℕ, List, Option, Ret, ◌≡◌, ◌++◌, some}
use gssproxy.Rpc.Decode.{Get}

pub data Proc : Type 0 where
  indicate_mechs get_call_context import_and_canon_name export_cred import_cred : Proc
  acquire_cred store_cred init_sec_context accept_sec_context release_handle : Proc
  get_mic verify_mic wrap unwrap wrap_size_limit : Proc

-- GSSX_INDICATE_MECHS and the others
unfoldable pub number : Proc → ℕ
number indicate_mechs = 1
number get_call_context = 2
number import_and_canon_name = 3
number export_cred = 4
number import_cred = 5
number acquire_cred = 6
number store_cred = 7
number init_sec_context = 8
number accept_sec_context = 9
number release_handle = 10
number get_mic = 11
number verify_mic = 12
number wrap = 13
number unwrap = 14
number wrap_size_limit = 15

abbrev pub gssx_proc_min : ℕ
gssx_proc_min = 1

abbrev pub gssx_proc_max : ℕ
gssx_proc_max = 15

-- #define GSSPROXY
abbrev pub gssproxy_prog : ℕ
gssproxy_prog = 400112

-- #define GSSPROXYVERS
abbrev pub gssproxy_vers : ℕ
gssproxy_vers = 1

-- #define MAX_RPC_SIZE
abbrev pub max_rpc_size : ℕ
max_rpc_size = 1048576

-- Writes a value to a stream of a capacity, behind what is there.
abbrev pub Put : Type 0 → Type 0
Put A = ℕ → A → List ℕ → Option (List ℕ)

-- `Arg` is union gp_rpc_arg, `Res` union gp_rpc_res, and `Ctx` all that a handler may read and
-- change through struct gp_call_ctx. The zeros are what memset leaves; `cleared` is the zeros of the
-- union, read as the result of a procedure.
pub record Procs (Ctx Arg Res : Type 0) : Type 0 where
  pub zero_arg : Arg
  pub zero_res : Res
  pub cleared : Proc → Res
  pub encode_arg : Proc → Put Arg
  pub decode_arg : Proc → Get Arg
  pub encode_res : Proc → Put Res
  pub decode_res : Proc → Get Res
  pub exec : Proc → Ctx → Arg → Ctx × Ret × Res

-- The filters of one type read back what they wrote.
abbrev pub IsInverse : {A : Type 0} → Put A → Get A → Type 0
IsInverse {A} put get =
    (cap : ℕ) (a : A) (out out' : List ℕ)
    → put cap a out ≡ some out'
    → (chunk : List ℕ) × (out' ≡ out ++ chunk)
      × ((rest : List ℕ) → get (chunk ++ rest) ≡ some (a, rest))

pub record IsProcs {Ctx Arg Res : Type 0} (ps : Procs Ctx Arg Res) : Type 0 where
  pub arg_inverse : (p : Proc) → IsInverse (ps.encode_arg p) (ps.decode_arg p)
  pub res_inverse : (p : Proc) → IsInverse (ps.encode_res p) (ps.decode_res p)
  -- A filter does not write beyond the stream.
  pub res_fits :
      (p : Proc) (cap : ℕ) (res : Res) (out : List ℕ) {out' : List ℕ}
      → ps.encode_res p cap res out ≡ some out'
      → length out' ≤ cap
