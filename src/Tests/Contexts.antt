-- ===== src/Tests/Contexts.antt =====
-- A context goes to the kernel: src/gp_export.c.
use gssproxy.Prelude.{ℕ, suc, ◌≡◌, refl, List, [], ◌∷◌, true, some, none, arith, subst}
use gssproxy.Export.Lucid.{Lucid, has_subkey, lucid_flags, lucid_key, format_linux_lucid_v1}
use gssproxy.Export.Names.{
  name_to_gssx, after_export, after_composite, conv_octet_string, oid_to_gssx, or_failure,
}
use gssproxy.Export.Handle.{wide}
use gssproxy.Export.Context.{
  CtxCalls, exp_ctx_linux_lucid_v1, empty_ctx, empty_name, name_or_empty, describe, after_inquire,
  export_as, export_ctx_id_to_gssx,
}
use gssproxy.Export.Kernel.{
  KernelContext, read_krb5_buffer, IsLucid, IsSized, export_ctx_id_to_gssx-IsLucid,
}
use gssproxy.Gss.Status.{done, stop, ◌>>=◌, continue, return, failure, no_minor}
use gssproxy.Wire.Types.{GssxCtx}
use gssproxy.Tests.Exports.{all_there}
use gssproxy.Tests.Machines.{machine, reader, machine-IsMachine}
use gssproxy.Tests.Rfc.{rfc4506}
use gssproxy.Tests.Stateless.{ten_minutes}

abbrev lucid : Lucid
lucid = record {
  version = 1;
  protocol = 1;
  initiate = true;
  endtime = 600;
  send_seq = 7;
  rfc1964_key = record { type = 0; octets = [] };
  have_acceptor_subkey = 1;
  ctx_key = record { type = 18; octets = 1 ∷ 2 ∷ [] };
  acceptor_subkey = record { type = 18; octets = 3 ∷ 4 ∷ [] };
}

-- The world counts the exports.
abbrev calls : CtxCalls ℕ (List ℕ) (List ℕ)
calls = record {
  names = record {
    display = λ name w. (w, done (name, some (7 ∷ [])));
    export = λ name w. (w, done name);
    export_composite = λ name w. (w, done name);
  };
  inquire = λ ctx w. (
    w,
    done (record {
      src_name = some (104 ∷ []);
      targ_name = none;
      lifetime = ten_minutes;
      mech_type = some (42 ∷ []);
      ctx_flags = ten_minutes;
      locally_initiated = true;
      is_open = true;
    }),
  );
  export_sec_context = λ ctx w. (w, stop failure no_minor);
  export_lucid = λ ctx w. (suc w, done lucid);
  import_sec_context = λ token w. (w, done token);
}

abbrev handed : GssxCtx
handed = record empty_ctx {
  exported_context_token =
      0 ∷ 0 ∷ 0 ∷ 7 ∷ 0 ∷ 0 ∷ 2 ∷ 88 ∷ 0 ∷ 0 ∷ 0 ∷ 0 ∷ 0 ∷ 0 ∷ 0 ∷ 7 ∷ 0 ∷ 0 ∷ 0 ∷ 18 ∷ 3 ∷ 4 ∷ [];
  mech = 42 ∷ [];
  src_name = record empty_name {
    display_name = 104 ∷ [];
    name_type = 7 ∷ [];
    exported_name = 104 ∷ [];
  };
  lifetime = wide ten_minutes;
  ctx_flags = wide ten_minutes;
  locally_initiated = true;
  is_open = true;
}

handed_over :
    export_ctx_id_to_gssx calls machine all_there exp_ctx_linux_lucid_v1 none (5 ∷ []) 7
    ≡ (8, done handed)
unfolding export_ctx_id_to_gssx after_inquire export_as describe name_or_empty name_to_gssx
    after_export after_composite conv_octet_string oid_to_gssx or_failure format_linux_lucid_v1
    lucid_flags lucid_key has_subkey rfc4506 ◌>>=◌ continue return
handed_over = refl

sized : (wa wb : ℕ) (l : Lucid) → calls.export_lucid (5 ∷ []) wa ≡ (wb, done l) → IsSized l
sized wa wb l h = subst IsSized same (record {
  endtime = omega arith;
  send_seq = omega arith;
  rfc1964_type = omega arith;
  ctx_type = omega arith;
  subkey_type = omega arith;
})
  where
    same : lucid ≡ l
    same = cc

export_ctx_id_to_gssx-IsLucid_example :
    (wa : ℕ) × (wb : ℕ) × (lucid : Lucid) × (context : KernelContext) × (calls.export_lucid
        (5 ∷ [])
        wa
      ≡ (wb, done lucid))
    × (read_krb5_buffer reader handed.exported_context_token ≡ some context)
    × IsLucid lucid context
    × (handed.src_name.exported_composite_name ≡ [])
    × (handed.targ_name.exported_composite_name ≡ [])
export_ctx_id_to_gssx-IsLucid_example =
    export_ctx_id_to_gssx-IsLucid machine-IsMachine all_there calls none (5 ∷ []) 7 8 handed
      handed_over sized
