-- ===== src/Server/Rows.antt =====
-- The table gp_xdr_set by procedure: src/gp_rpc_process.c.
use gssproxy.Prelude.{
  ℕ, zero, suc, ◌≤◌, ◌≡◌, refl, some, Ret, success, Bool, true, false, if◌then◌else◌, arith,
}
use gssproxy.Rpc.Procs.{
  Proc, indicate_mechs, get_call_context, import_and_canon_name, export_cred, import_cred,
  acquire_cred, store_cred, init_sec_context, accept_sec_context, release_handle, get_mic,
  verify_mic, wrap, unwrap, wrap_size_limit, number, Procs,
}
use gssproxy.Server.Table.{FnSet, fn_set}

-- The procedures that the server does not implement.
unfoldable pub is_unused : Proc → Bool
is_unused get_call_context = true
is_unused export_cred = true
is_unused import_cred = true
is_unused store_cred = true
is_unused _ = false

-- What a call of procedure `p` runs.
unfoldable pub handler :
    {Ctx Arg Res : Type 0} → Procs Ctx Arg Res → Proc → Ctx → Arg → Ctx × Ret × Res
unfolding is_unused
handler ps p ctx arg = if is_unused p then (ctx, success, ps.cleared p) else ps.exec p ctx arg

pub number_range : (p : Proc) → (1 ≤ number p) × (number p ≤ 15)
unfolding number
number_range indicate_mechs = omega arith
number_range p = omega arith

-- Every number in the range names a procedure.
pub number_onto : (n : ℕ) → 1 ≤ n → n ≤ 15 → (p : Proc) × (number p ≡ n)
unfolding number
number_onto zero lo hi = absurd (omega arith)
number_onto (suc zero) lo hi = (indicate_mechs, refl)
number_onto (suc (suc zero)) lo hi = (get_call_context, refl)
number_onto (suc (suc (suc zero))) lo hi = (import_and_canon_name, refl)
number_onto (suc (suc (suc (suc zero)))) lo hi = (export_cred, refl)
number_onto (suc (suc (suc (suc (suc zero))))) lo hi = (import_cred, refl)
number_onto (suc (suc (suc (suc (suc (suc zero)))))) lo hi = (acquire_cred, refl)
number_onto (suc (suc (suc (suc (suc (suc (suc zero))))))) lo hi = (store_cred, refl)
number_onto (suc (suc (suc (suc (suc (suc (suc (suc n)))))))) lo hi = upper n (omega arith)
  where
    upper :
        (k : ℕ) → k ≤ 7 → (p : Proc) × (number p ≡ suc (suc (suc (suc (suc (suc (suc (suc k))))))))
    upper zero h = (init_sec_context, refl)
    upper (suc zero) h = (accept_sec_context, refl)
    upper (suc (suc zero)) h = (release_handle, refl)
    upper (suc (suc (suc zero))) h = (get_mic, refl)
    upper (suc (suc (suc (suc zero)))) h = (verify_mic, refl)
    upper (suc (suc (suc (suc (suc zero))))) h = (wrap, refl)
    upper (suc (suc (suc (suc (suc (suc zero)))))) h = (unwrap, refl)
    upper (suc (suc (suc (suc (suc (suc (suc zero))))))) h = (wrap_size_limit, refl)
    upper (suc (suc (suc (suc (suc (suc (suc (suc k)))))))) h = absurd (omega arith)

module _ {Ctx Arg Res : Type 0} (ps : Procs Ctx Arg Res) where
  abbrev pub row_of : Proc → FnSet Ctx Arg Res
  row_of p = record {
    proc = number p;
    arg_fn = ps.decode_arg p;
    res_fn = ps.encode_res p;
    exec_fn = some (handler ps p);
  }

  -- The row at the number of a procedure is the row of that procedure: its number, its filters and
  -- its handler, which for the four unimplemented procedures does nothing and reports success.
  pub fn_set-number : (p : Proc) → fn_set ps (number p) ≡ some (row_of p)
  unfolding fn_set number handler
  fn_set-number indicate_mechs = refl
  fn_set-number p = refl
