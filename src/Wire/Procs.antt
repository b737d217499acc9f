-- ===== src/Wire/Procs.antt =====
-- The filters of all procedures read back what they wrote, as the interface to the RPC layers asks.
use gssproxy.Prelude.{ℕ, List, ◌≡◌, ap, subst, some, Ret, length, ◌≤◌, sym, ◌∙◌}
use gssproxy.Rpc.Procs.{
  Proc, indicate_mechs, get_call_context, import_and_canon_name, export_cred, import_cred,
  acquire_cred, store_cred, init_sec_context, accept_sec_context, release_handle, get_mic,
  verify_mic, wrap, unwrap, wrap_size_limit, IsProcs, IsInverse,
}
use gssproxy.Rpc.Emit.{>>=-eq-some, Emit-bind, Emit-pure}
use Prim.Derive.{path_j}
use mathlib.Core.Path.{subst_refl}
use gssproxy.Wire.Filter.{Filter, IsFilter, XdrLib, IsXdrLib, Emit-IsFilter}
use gssproxy.Wire.Union.{
  ArgOf, ResOf, Union, Proc-discrete, as_member, encode_member, decode_member, arg_filter,
  res_filter, wire_procs,
}
use gssproxy.Wire.Inverse.Args.{
  xdr_gssx_arg_indicate_mechs-IsFilter, xdr_gssx_arg_get_call_context-IsFilter,
  xdr_gssx_arg_import_and_canon_name-IsFilter, xdr_gssx_arg_export_cred-IsFilter,
  xdr_gssx_arg_import_cred-IsFilter, xdr_gssx_arg_acquire_cred-IsFilter,
  xdr_gssx_arg_store_cred-IsFilter, xdr_gssx_arg_init_sec_context-IsFilter,
  xdr_gssx_arg_accept_sec_context-IsFilter, xdr_gssx_arg_release_handle-IsFilter,
  xdr_gssx_arg_get_mic-IsFilter, xdr_gssx_arg_verify_mic-IsFilter, xdr_gssx_arg_wrap-IsFilter,
  xdr_gssx_arg_unwrap-IsFilter, xdr_gssx_arg_wrap_size_limit-IsFilter,
}
use gssproxy.Wire.Inverse.Results.{
  xdr_gssx_res_indicate_mechs-IsFilter, xdr_gssx_res_get_call_context-IsFilter,
  xdr_gssx_res_import_and_canon_name-IsFilter, xdr_gssx_res_export_cred-IsFilter,
  xdr_gssx_res_import_cred-IsFilter, xdr_gssx_res_acquire_cred-IsFilter,
  xdr_gssx_res_store_cred-IsFilter, xdr_gssx_res_init_sec_context-IsFilter,
  xdr_gssx_res_accept_sec_context-IsFilter, xdr_gssx_res_release_handle-IsFilter,
  xdr_gssx_res_get_mic-IsFilter, xdr_gssx_res_verify_mic-IsFilter, xdr_gssx_res_wrap-IsFilter,
  xdr_gssx_res_unwrap-IsFilter, xdr_gssx_res_wrap_size_limit-IsFilter,
}

stored_at :
    (Of : Proc → Type 0) {q p : Proc} (same : q ≡ p) (a : Of q)
    → Path (Union Of) (p, subst Of same a) (q, a)
stored_at Of {q} same a =
    path_j (λ r e. Path (Union Of) (r, subst Of e a) (q, a)) (ap (λ v. (q, v)) (subst_refl Of a))
      same

as_member-eq-some :
    (Of : Proc → Type 0) (p q : Proc) (d : Dec (q ≡ p)) (a : Of q) {b : Of p}
    → as_member Of p q d a ≡ some b
    → Path (Union Of) (p, b) (q, a)
unfolding as_member
as_member-eq-some Of p q (yes same) a h =
    ap (λ v. (p, v)) (let e : _ ≡ _ = sym h in cc) ∙ stored_at Of same a
as_member-eq-some Of p q (no other) a h = cc

module _ {Of : Proc → Type 0} {f : (p : Proc) → Filter (Of p)}
    (ok : (p : Proc) → IsFilter (f p)) where
  member-IsInverse : (p : Proc) → IsInverse (encode_member f p) (decode_member f p)
  unfolding encode_member decode_member
  member-IsInverse p cap (q, a) out out' h =
      let (b, e, e') = >>=-eq-some (as_member Of p q (Proc-discrete q p) a) _ h in
      let m =
        Emit-bind (λ v left. some ((p, v), left)) (Emit-IsFilter (ok p) cap b out e')
          (Emit-pure (p, b) out') in
      (
        m.chunk,
        m.added,
        λ rest.
            m.reads rest
            ∙ ap (λ v. some (v, rest)) (as_member-eq-some Of p q (Proc-discrete q p) a e),
      )

  member_fits :
      (p : Proc) (cap : ℕ) (u : Union Of) (out : List ℕ) {out' : List ℕ}
      → encode_member f p cap u out ≡ some out'
      → length out' ≤ cap
  unfolding encode_member
  member_fits p cap (q, a) out h =
      let (b, e, e') = >>=-eq-some (as_member Of p q (Proc-discrete q p) a) _ h in
      (ok p).fits cap b out e'

module _ {lib : XdrLib} (ok : IsXdrLib lib) where
  arg_filter-IsFilter : (p : Proc) → IsFilter (arg_filter lib p)
  unfolding arg_filter ArgOf
  arg_filter-IsFilter indicate_mechs = xdr_gssx_arg_indicate_mechs-IsFilter ok
  arg_filter-IsFilter get_call_context = xdr_gssx_arg_get_call_context-IsFilter ok
  arg_filter-IsFilter import_and_canon_name = xdr_gssx_arg_import_and_canon_name-IsFilter ok
  arg_filter-IsFilter export_cred = xdr_gssx_arg_export_cred-IsFilter ok
  arg_filter-IsFilter import_cred = xdr_gssx_arg_import_cred-IsFilter ok
  arg_filter-IsFilter acquire_cred = xdr_gssx_arg_acquire_cred-IsFilter ok
  arg_filter-IsFilter store_cred = xdr_gssx_arg_store_cred-IsFilter ok
  arg_filter-IsFilter init_sec_context = xdr_gssx_arg_init_sec_context-IsFilter ok
  arg_filter-IsFilter accept_sec_context = xdr_gssx_arg_accept_sec_context-IsFilter ok
  arg_filter-IsFilter release_handle = xdr_gssx_arg_release_handle-IsFilter ok
  arg_filter-IsFilter get_mic = xdr_gssx_arg_get_mic-IsFilter ok
  arg_filter-IsFilter verify_mic = xdr_gssx_arg_verify_mic-IsFilter ok
  arg_filter-IsFilter wrap = xdr_gssx_arg_wrap-IsFilter ok
  arg_filter-IsFilter unwrap = xdr_gssx_arg_unwrap-IsFilter ok
  arg_filter-IsFilter wrap_size_limit = xdr_gssx_arg_wrap_size_limit-IsFilter ok

  res_filter-IsFilter : (p : Proc) → IsFilter (res_filter lib p)
  unfolding res_filter ResOf
  res_filter-IsFilter indicate_mechs = xdr_gssx_res_indicate_mechs-IsFilter ok
  res_filter-IsFilter get_call_context = xdr_gssx_res_get_call_context-IsFilter ok
  res_filter-IsFilter import_and_canon_name = xdr_gssx_res_import_and_canon_name-IsFilter ok
  res_filter-IsFilter export_cred = xdr_gssx_res_export_cred-IsFilter ok
  res_filter-IsFilter import_cred = xdr_gssx_res_import_cred-IsFilter ok
  res_filter-IsFilter acquire_cred = xdr_gssx_res_acquire_cred-IsFilter ok
  res_filter-IsFilter store_cred = xdr_gssx_res_store_cred-IsFilter ok
  res_filter-IsFilter init_sec_context = xdr_gssx_res_init_sec_context-IsFilter ok
  res_filter-IsFilter accept_sec_context = xdr_gssx_res_accept_sec_context-IsFilter ok
  res_filter-IsFilter release_handle = xdr_gssx_res_release_handle-IsFilter ok
  res_filter-IsFilter get_mic = xdr_gssx_res_get_mic-IsFilter ok
  res_filter-IsFilter verify_mic = xdr_gssx_res_verify_mic-IsFilter ok
  res_filter-IsFilter wrap = xdr_gssx_res_wrap-IsFilter ok
  res_filter-IsFilter unwrap = xdr_gssx_res_unwrap-IsFilter ok
  res_filter-IsFilter wrap_size_limit = xdr_gssx_res_wrap_size_limit-IsFilter ok

  -- The filters of the arguments and of the results of each procedure read back what they wrote,
  -- and a result is not written beyond the stream. The laws of the XDR library are assumed.
  pub wire_procs-IsProcs :
      {Ctx : Type 0} (exec : Proc → Ctx → Union ArgOf → Ctx × Ret × Union ResOf)
      → IsProcs (wire_procs lib exec)
  unfolding wire_procs
  wire_procs-IsProcs exec = record {
    arg_inverse = member-IsInverse arg_filter-IsFilter;
    res_inverse = member-IsInverse res_filter-IsFilter;
    res_fits = λ p cap res out h. member_fits res_filter-IsFilter p cap res out h;
  }
