-- ===== src/Export/Names.antt =====
-- Names, OIDs and usages from the GSSAPI to the wire: gp_conv_octet_string, gp_conv_oid_to_gssx,
-- gp_conv_buffer_to_gssx, gp_conv_name_to_gssx and gp_conv_cred_usage_to_gssx of src/gp_conv.c.
use gssproxy.Prelude.{
  ℕ, List, [], Bool, length, ◌==◌, if◌then◌else◌, enomem, Result, ok, err, Option, none, some,
  arith,
}
use gssproxy.Creds.Service.{CredUsage, both, initiate, accept}
use gssproxy.Gss.Status.{
  Outcome, done, stop, fault, Run, ◌>>=◌, return, goto_done, failure, unavailable, name_not_mn,
  errno,
}
use gssproxy.Wire.Types.{OctetString, GssxBuffer, GssxOid, GssxName, GssxCredUsage}

-- The calls of the GSSAPI on names: gss_display_name with the type, gss_export_name and
-- gss_export_name_composite. A parameter of the model.
pub record NameCalls (W Name : Type 0) : Type 0 where
  pub display : Name → Run W (List ℕ × Option (List ℕ))
  pub export : Name → Run W (List ℕ)
  pub export_composite : Name → Run W (List ℕ)

-- gp_conv_octet_string
unfoldable pub conv_octet_string : (ℕ → Bool) → List ℕ → Result OctetString
conv_octet_string malloc value =
    if length value == 0 then ok [] else if malloc (length value) then ok value else err enomem

-- gp_conv_oid_to_gssx
unfoldable pub oid_to_gssx : (ℕ → Bool) → Option (List ℕ) → Result GssxOid
unfolding conv_octet_string
oid_to_gssx malloc none = conv_octet_string malloc []
oid_to_gssx malloc (some oid) = conv_octet_string malloc oid

-- An errno is the minor status of GSS_S_FAILURE.
unfoldable pub or_failure : {W A : Type 0} → Result A → Run W A
or_failure (ok a) = return a
or_failure (err e) = goto_done failure (errno e)

-- gp_conv_cred_usage_to_gssx
unfoldable pub cred_usage_to_gssx : CredUsage → GssxCredUsage
cred_usage_to_gssx both = (3, omega arith)
cred_usage_to_gssx initiate = (1, omega arith)
cred_usage_to_gssx accept = (2, omega arith)

module _ {W Name : Type 0} (calls : NameCalls W Name) (malloc : ℕ → Bool) where
  -- The name of a mechanism, which a name that is not one of a mechanism has not.
  unfoldable pub after_export : W × Outcome (List ℕ) → W × Outcome GssxBuffer
  unfolding or_failure conv_octet_string
  after_export (w, done exported) = or_failure (conv_octet_string malloc exported) w
  after_export (w, stop name_not_mn min) = (w, done [])
  after_export (w, stop maj min) = (w, stop maj min)
  after_export (w, fault) = (w, fault)

  unfoldable pub after_composite : W × Outcome (List ℕ) → W × Outcome GssxBuffer
  unfolding or_failure conv_octet_string
  after_composite (w, done exported) = or_failure (conv_octet_string malloc exported) w
  after_composite (w, stop name_not_mn min) = (w, done [])
  after_composite (w, stop unavailable min) = (w, done [])
  after_composite (w, stop maj min) = (w, stop maj min)
  after_composite (w, fault) = (w, fault)

  -- gp_conv_name_to_gssx
  unfoldable pub name_to_gssx : Name → Run W GssxName
  unfolding or_failure conv_octet_string oid_to_gssx after_export after_composite
  name_to_gssx name = do
    (display, name_type) ← calls.display name
    display_name ← or_failure (conv_octet_string malloc display)
    type ← or_failure (oid_to_gssx malloc name_type)
    exported ← (λ w. after_export (calls.export name w))
    composite ← (λ w. after_composite (calls.export_composite name w))
    return (record {
      display_name = display_name;
      name_type = type;
      exported_name = exported;
      exported_composite_name = composite;
      name_attributes = [];
      extensions = [];
    })
