-- ===== src/Export/Handle.antt =====
-- gp_export_gssx_cred and gp_import_gssx_cred of src/gp_export.c: the daemon keeps no credential of a
-- client, and gives it an encrypted one to hold.
use gssproxy.Prelude.{
  ℕ, ◌*◌, ◌/◌, List, [], ◌∷◌, Bool, true, false, length, ◌==◌, if◌then◌else◌, enomem, einval,
  Result, ok, err, Option, none, some, arith,
}
use gssproxy.Creds.Service.{CredUsage}
use gssproxy.Creds.Options.{string_match}
use gssproxy.Export.Padding.{Krb5, encrypt_buffer, decrypt_buffer}
use gssproxy.Export.Names.{NameCalls, oid_to_gssx, or_failure, cred_usage_to_gssx, name_to_gssx}
use gssproxy.Gss.Status.{Outcome, done, stop, fault, Run, ◌>>=◌, return, goto_done, failure, errno}
use gssproxy.Gss.Api.{Inquired}
use gssproxy.Wire.Filter.{UInt}
use gssproxy.Wire.Types.{GssxOption, GssxCred, GssxCredElement}

-- What gss_inquire_cred_by_mech tells.
pub record ByMech (Name : Type 0) : Type 0 where
  pub name : Name
  pub initiator_lifetime : UInt 32
  pub acceptor_lifetime : UInt 32
  pub cred_usage : CredUsage

-- The calls of the GSSAPI: a parameter of the model. The last two change the options of a credential,
-- and their errors are only logged.
pub record CredCalls (W Name Cred : Type 0) : Type 0 where
  pub names : NameCalls W Name
  pub inquire : Cred → Run W (Inquired Name)
  pub inquire_by_mech : Cred → List ℕ → Run W (ByMech Name)
  pub export_cred : Cred → Run W (List ℕ)
  pub import_cred : List ℕ → Run W Cred
  pub set_allowable_enctypes : Cred → List ℕ → W → W
  pub set_no_ci_flags : Cred → W → W

-- The widening of a lifetime to gssx_time.
abbrev pub wide : UInt 32 → UInt 64
wide (n, small) = (n, omega arith)

-- sizeof(gssx_cred_element), where pointers have eight bytes
abbrev pub cred_element_size : ℕ
cred_element_size = 152

module _ {W Name Cred : Type 0} (calls : CredCalls W Name Cred) (malloc : ℕ → Bool) where
  unfoldable pub export_element : List ℕ → ByMech Name → Run W GssxCredElement
  unfolding name_to_gssx or_failure oid_to_gssx cred_usage_to_gssx
  export_element mech by_mech = do
    mn ← name_to_gssx calls.names malloc by_mech.name
    oid ← or_failure (oid_to_gssx malloc (some mech))
    return (record {
      mn = mn;
      mech = oid;
      cred_usage = cred_usage_to_gssx by_mech.cred_usage;
      initiator_time_rec = wide by_mech.initiator_lifetime;
      acceptor_time_rec = wide by_mech.acceptor_lifetime;
      options = [];
    })

  -- A mechanism of which nothing is told is skipped.
  unfoldable pub after_by_mech :
      List ℕ
      → Run W (List GssxCredElement)
      → W × Outcome (ByMech Name)
      → W × Outcome (List GssxCredElement)
  unfolding export_element
  after_by_mech mech rest (w, done by_mech) =
      (export_element mech by_mech >>= λ el. rest >>= λ els. return (el ∷ els)) w
  after_by_mech mech rest (w, stop maj min) = rest w
  after_by_mech mech rest (w, fault) = (w, fault)

  -- The loop over the mechanisms.
  unfoldable pub export_elements : Cred → List (List ℕ) → Run W (List GssxCredElement)
  unfolding after_by_mech
  export_elements cred [] = return []
  export_elements cred (mech ∷ mechs) =
      let rest = export_elements cred mechs in
      λ w. after_by_mech mech rest (calls.inquire_by_mech cred mech w)

  unfoldable pub alloc_elements : Cred → List (List ℕ) → Run W (List GssxCredElement)
  unfolding export_elements
  alloc_elements cred mechs =
      if malloc (length mechs * cred_element_size)
      then export_elements cred mechs
      else goto_done failure (errno enomem)

  -- The handle is that of the service, with its key.
  unfoldable pub seal_cred : Option Krb5 → Cred → Run W (List ℕ)
  unfolding or_failure encrypt_buffer
  seal_cred none cred = goto_done failure (errno einval)
  seal_cred (some k) cred = do
    token ← calls.export_cred cred
    or_failure (encrypt_buffer k malloc token)

  -- gp_export_gssx_cred
  unfoldable pub export_gssx_cred : Option Krb5 → Cred → Run W GssxCred
  unfolding name_to_gssx alloc_elements seal_cred
  export_gssx_cred handle cred = do
    inq ← calls.inquire cred
    desired ← name_to_gssx calls.names malloc inq.name
    elements ← alloc_elements cred inq.mechanisms
    reference ← seal_cred handle cred
    return (record {
      desired_name = desired;
      elements = elements;
      cred_handle_reference = reference;
      needs_release = false;
    })

-- "krb5_set_allowed_enctype_values" and "krb5_set_no_ci_flags", with the NUL
abbrev pub set_allowed_enctype : List ℕ
set_allowed_enctype =
    107 ∷ 114 ∷ 98 ∷ 53 ∷ 95 ∷ 115 ∷ 101 ∷ 116 ∷ 95 ∷ 97 ∷ 108 ∷ 108 ∷ 111 ∷ 119 ∷ 101 ∷ 100 ∷ 95
    ∷ 101 ∷ 110 ∷ 99 ∷ 116 ∷ 121 ∷ 112 ∷ 101 ∷ 95 ∷ 118 ∷ 97 ∷ 108 ∷ 117 ∷ 101 ∷ 115 ∷ 0 ∷ []

abbrev pub set_no_ci_flags : List ℕ
set_no_ci_flags =
    107 ∷ 114 ∷ 98 ∷ 53 ∷ 95 ∷ 115 ∷ 101 ∷ 116 ∷ 95 ∷ 110 ∷ 111 ∷ 95 ∷ 99 ∷ 105 ∷ 95 ∷ 102 ∷ 108
    ∷ 97 ∷ 103 ∷ 115 ∷ 0 ∷ []

-- num_ktypes with ktypes, and no_ci_flags.
pub record CredOptions : Type 0 where
  pub ktypes : List ℕ
  pub num_ktypes : ℕ
  pub no_ci_flags : Bool

-- The options of an element: the loop ends at the first list of enctypes.
unfoldable pub element_options : List GssxOption → CredOptions → CredOptions
unfolding string_match
element_options [] o = o
element_options (op ∷ ops) o =
    let further = element_options ops in
    if string_match op.option set_allowed_enctype
    then record o { ktypes = op.value; num_ktypes = length op.value / 4 }
    else if string_match op.option set_no_ci_flags
    then further (record o { no_ci_flags = true })
    else further o

unfoldable pub all_options : List GssxCredElement → CredOptions → CredOptions
unfolding element_options
all_options [] o = o
all_options (ce ∷ ces) o = all_options ces (element_options ce.options o)

module _ {W Name Cred : Type 0} (calls : CredCalls W Name Cred) (malloc : ℕ → Bool) where
  unfoldable pub apply_options : Cred → CredOptions → W → W
  apply_options cred o w =
      let w = if o.num_ktypes == 0 then w else calls.set_allowable_enctypes cred o.ktypes w in
      if o.no_ci_flags then calls.set_no_ci_flags cred w else w

  -- gp_set_cred_options
  unfoldable pub set_cred_options : GssxCred → Cred → W → W
  unfolding all_options apply_options
  set_cred_options c cred =
      apply_options cred
        (all_options c.elements record { ktypes = []; num_ktypes = 0; no_ci_flags = false })

  unfoldable pub after_import : GssxCred → W × Outcome Cred → W × Outcome (Option Cred)
  unfolding set_cred_options
  after_import c (w, done cred) = (set_cred_options c cred w, done (some cred))
  after_import c (w, stop maj min) = (w, stop maj min)
  after_import c (w, fault) = (w, fault)

  -- What does not decrypt is no credential, and no error.
  unfoldable pub import_opened : GssxCred → Option (Result (List ℕ)) → Run W (Option Cred)
  unfolding after_import
  import_opened c none w = (w, fault)
  import_opened c (some (err e)) w = (w, done none)
  import_opened c (some (ok token)) w = after_import c (calls.import_cred token w)

  -- gp_import_gssx_cred
  unfoldable pub import_gssx_cred : Option Krb5 → Bool → GssxCred → Run W (Option Cred)
  unfolding import_opened decrypt_buffer
  import_gssx_cred none char_signed c = goto_done failure (errno einval)
  import_gssx_cred (some k) char_signed c =
      if malloc (length c.cred_handle_reference)
      then import_opened c (decrypt_buffer k char_signed c.cred_handle_reference)
      else goto_done failure (errno enomem)
