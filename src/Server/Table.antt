-- ===== src/Server/Table.antt =====
-- gp_xdr_set of src/gp_rpc_process.c: for each procedure number its filters and its handler.
use gssproxy.Prelude.{ℕ, List, [], ◌∷◌, Option, some, none, Ret, success, get_elem?}
use gssproxy.Rpc.Decode.{Get}
use gssproxy.Rpc.Procs.{
  Proc, indicate_mechs, get_call_context, import_and_canon_name, export_cred, import_cred,
  acquire_cred, store_cred, init_sec_context, accept_sec_context, release_handle, get_mic,
  verify_mic, wrap, unwrap, wrap_size_limit, number, Put, Procs,
}

-- struct gp_rpc_fn_set; `none` is the handler NULL of the first row.
pub record FnSet (Ctx Arg Res : Type 0) : Type 0 where
  pub proc : ℕ
  pub arg_fn : Get Arg
  pub res_fn : Put Res
  pub exec_fn : Option (Ctx → Arg → Ctx × Ret × Res)

module _ {Ctx Arg Res : Type 0} (ps : Procs Ctx Arg Res) where
  row : Proc → FnSet Ctx Arg Res
  row p = record {
    proc = number p;
    arg_fn = ps.decode_arg p;
    res_fn = ps.encode_res p;
    exec_fn = some (ps.exec p);
  }

  -- GP_EXEC_UNUSED_FUNC: a handler that does nothing and reports success.
  unused : Proc → FnSet Ctx Arg Res
  unused p = record {
    proc = number p;
    arg_fn = ps.decode_arg p;
    res_fn = ps.encode_res p;
    exec_fn = some (λ ctx arg. (ctx, success, ps.cleared p));
  }

  -- NULLPROC: xdr_void reads and writes nothing.
  nullproc : FnSet Ctx Arg Res
  nullproc = record {
    proc = 0;
    arg_fn = λ inp. some (ps.zero_arg, inp);
    res_fn = λ cap res out. some out;
    exec_fn = none;
  }

  unfoldable pub gp_xdr_set : List (FnSet Ctx Arg Res)
  unfolding row unused nullproc number
  gp_xdr_set =
      nullproc
      ∷ row indicate_mechs
      ∷ unused get_call_context
      ∷ row import_and_canon_name
      ∷ unused export_cred
      ∷ unused import_cred
      ∷ row acquire_cred
      ∷ unused store_cred
      ∷ row init_sec_context
      ∷ row accept_sec_context
      ∷ row release_handle
      ∷ row get_mic
      ∷ row verify_mic
      ∷ row wrap
      ∷ row unwrap
      ∷ row wrap_size_limit
      ∷ []

  -- The element of an array, where an index out of range is a fault.
  unfoldable pub fn_set : ℕ → Option (FnSet Ctx Arg Res)
  unfolding gp_xdr_set
  fn_set i = get_elem? gp_xdr_set i
