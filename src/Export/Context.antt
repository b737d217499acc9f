-- ===== src/Export/Context.antt =====
-- Contexts: gp_get_exported_context_type, gp_export_ctx_id_to_gssx and gp_import_gssx_to_ctx_id of
-- src/gp_export.c.
use gssproxy.Prelude.{
  ℕ, List, [], ◌∷◌, Bool, true, false, if◌then◌else◌, Option, none, some, einval, arith,
}
use gssproxy.Creds.Options.{options_find, string_match}
use gssproxy.Export.Lucid.{Lucid, Machine, format_linux_lucid_v1}
use gssproxy.Export.Names.{NameCalls, conv_octet_string, oid_to_gssx, or_failure, name_to_gssx}
use gssproxy.Export.Handle.{wide}
use gssproxy.Gss.Status.{Outcome, done, stop, fault, Run, ◌>>=◌, return, goto_done, failure, errno}
use gssproxy.Wire.Filter.{UInt}
use gssproxy.Wire.Types.{GssxOption, GssxName, GssxCtx}

-- EXP_CTX_TYPE_OPTION and LINUX_LUCID_V1, as sizeof counts them: with the NUL.
abbrev pub exp_ctx_type_option : List ℕ
exp_ctx_type_option =
    101 ∷ 120 ∷ 112 ∷ 111 ∷ 114 ∷ 116 ∷ 101 ∷ 100 ∷ 95 ∷ 99 ∷ 111 ∷ 110 ∷ 116 ∷ 101 ∷ 120 ∷ 116 ∷ 95
    ∷ 116 ∷ 121 ∷ 112 ∷ 101 ∷ 0 ∷ []

abbrev pub linux_lucid_v1 : List ℕ
linux_lucid_v1 =
    108 ∷ 105 ∷ 110 ∷ 117 ∷ 120 ∷ 95 ∷ 108 ∷ 117 ∷ 99 ∷ 105 ∷ 100 ∷ 95 ∷ 118 ∷ 49 ∷ 0 ∷ []

-- enum exp_ctx_types
pub data CtxType : Type 0 where
  exp_ctx_partial exp_ctx_default exp_ctx_linux_lucid_v1 : CtxType

unfoldable pub ctx_type_of : Option GssxOption → CtxType
unfolding string_match
ctx_type_of none = exp_ctx_default
ctx_type_of (some val) =
    if string_match val.value linux_lucid_v1 then exp_ctx_linux_lucid_v1 else exp_ctx_partial

-- gp_get_exported_context_type
unfoldable pub get_exported_context_type : List GssxOption → CtxType
unfolding ctx_type_of options_find
get_exported_context_type options = ctx_type_of (options_find options exp_ctx_type_option)

-- What gss_inquire_context tells of a context; `none` is GSS_C_NO_NAME.
pub record InquiredCtx (Name : Type 0) : Type 0 where
  pub src_name : Option Name
  pub targ_name : Option Name
  pub lifetime : UInt 32
  pub mech_type : Option (List ℕ)
  pub ctx_flags : UInt 32
  pub locally_initiated : Bool
  pub is_open : Bool

-- The calls of the GSSAPI with a context: a parameter of the model.
pub record CtxCalls (W Name Ctx : Type 0) : Type 0 where
  pub names : NameCalls W Name
  pub inquire : Ctx → Run W (InquiredCtx Name)
  pub export_sec_context : Ctx → Run W (List ℕ)
  pub export_lucid : Ctx → Run W Lucid
  pub import_sec_context : List ℕ → Run W Ctx

abbrev pub empty_name : GssxName
empty_name = record {
  display_name = [];
  name_type = [];
  exported_name = [];
  exported_composite_name = [];
  name_attributes = [];
  extensions = [];
}

-- What calloc leaves.
abbrev pub empty_ctx : GssxCtx
empty_ctx = record {
  exported_context_token = [];
  state = [];
  needs_release = false;
  mech = [];
  src_name = empty_name;
  targ_name = empty_name;
  lifetime = (0, omega arith);
  ctx_flags = (0, omega arith);
  locally_initiated = false;
  is_open = false;
  options = [];
}

abbrev pub without_composite : GssxName → GssxName
without_composite name = record name { exported_composite_name = [] }

module _ {W Name Ctx : Type 0} (calls : CtxCalls W Name Ctx) (machine : Machine)
    (malloc : ℕ → Bool) where
  unfoldable pub name_or_empty : Option Name → Run W GssxName
  unfolding name_to_gssx
  name_or_empty none = return empty_name
  name_or_empty (some name) = name_to_gssx calls.names malloc name

  unfoldable pub describe : InquiredCtx Name → Run W GssxCtx
  unfolding oid_to_gssx or_failure name_or_empty
  describe inq = do
    mech ← or_failure (oid_to_gssx malloc inq.mech_type)
    src ← name_or_empty inq.src_name
    targ ← name_or_empty inq.targ_name
    return (record empty_ctx {
      mech = mech;
      src_name = src;
      targ_name = targ;
      lifetime = wide inq.lifetime;
      ctx_flags = wide inq.ctx_flags;
      locally_initiated = inq.locally_initiated;
      is_open = inq.is_open;
    })

  -- Of a context that is not established nothing may be known.
  unfoldable pub after_inquire : CtxType → W × Outcome (InquiredCtx Name) → W × Outcome GssxCtx
  unfolding describe
  after_inquire type (w, done inq) = describe inq w
  after_inquire exp_ctx_partial (w, stop maj min) = (w, done empty_ctx)
  after_inquire type (w, stop maj min) = (w, stop maj min)
  after_inquire type (w, fault) = (w, fault)

  unfoldable pub export_default : Ctx → GssxCtx → Run W GssxCtx
  unfolding conv_octet_string or_failure
  export_default ctx out = do
    buffer ← calls.export_sec_context ctx
    token ← or_failure (conv_octet_string malloc buffer)
    return (record out { exported_context_token = token })

  -- The switch behind the label export.
  unfoldable pub export_as : CtxType → Option (List ℕ) → Ctx → GssxCtx → Run W GssxCtx
  unfolding export_default oid_to_gssx or_failure format_linux_lucid_v1
  export_as exp_ctx_partial mech ctx out = do
    oid ← or_failure (oid_to_gssx malloc mech)
    export_default ctx (record out { mech = oid; locally_initiated = true; is_open = false })
  export_as exp_ctx_default mech ctx out = export_default ctx out
  export_as exp_ctx_linux_lucid_v1 mech ctx out = do
    lucid ← calls.export_lucid ctx
    token ← or_failure (format_linux_lucid_v1 machine malloc lucid)
    return (record out {
      exported_context_token = token;
      src_name = without_composite out.src_name;
      targ_name = without_composite out.targ_name;
    })

  -- gp_export_ctx_id_to_gssx
  unfoldable pub export_ctx_id_to_gssx : CtxType → Option (List ℕ) → Ctx → Run W GssxCtx
  unfolding after_inquire export_as
  export_ctx_id_to_gssx type mech ctx =
      (λ w. after_inquire type (calls.inquire ctx w)) >>= λ out. export_as type mech ctx out

  -- gp_import_gssx_to_ctx_id
  unfoldable pub import_gssx_to_ctx_id : CtxType → GssxCtx → Run W Ctx
  import_gssx_to_ctx_id exp_ctx_default c = calls.import_sec_context c.exported_context_token
  import_gssx_to_ctx_id exp_ctx_partial c = goto_done failure (errno einval)
  import_gssx_to_ctx_id exp_ctx_linux_lucid_v1 c = goto_done failure (errno einval)
