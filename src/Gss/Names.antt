-- ===== src/Gss/Names.antt =====
-- Names and OIDs from the wire to the GSSAPI: gp_conv_gssx_to_buffer_alloc, gp_conv_gssx_to_oid_alloc
-- and gp_conv_gssx_to_name of src/gp_conv.c.
use gssproxy.Prelude.{
  ℕ, List, [], ◌∷◌, Bool, true, false, ◌&&◌, length, ◌==◌, if◌then◌else◌, enomem, Result, ok, err,
  Option, none, some, not,
}
use gssproxy.Gss.Status.{Run, goto_done, failure, errno}
use gssproxy.Gss.Api.{Gss, NameType, nt_export_name, no_type, nt_oid}
use gssproxy.Wire.Types.{GssxBuffer, GssxOid, GssxName}

-- gss_oid_equal, and strcmp of two strings
unfoldable pub equal : List ℕ → List ℕ → Bool
equal [] [] = true
equal (c ∷ cs) (d ∷ ds) = let rest = equal cs ds in if c == d then rest else false
equal _ _ = false

-- Sizes of gss_buffer_desc and gss_OID_desc, where pointers have eight bytes.
abbrev pub buffer_desc_size : ℕ
buffer_desc_size = 16

abbrev pub oid_desc_size : ℕ
oid_desc_size = 16

-- gp_conv_gssx_to_buffer_alloc, of which `none` is GSS_C_NO_BUFFER
unfoldable pub gssx_to_buffer_alloc : (ℕ → Bool) → GssxBuffer → Result (Option (List ℕ))
gssx_to_buffer_alloc malloc b =
    if length b == 0
    then ok none
    else if malloc buffer_desc_size && malloc (length b)
    then ok (some b)
    else err enomem

-- gp_conv_gssx_to_oid_alloc, of which `none` is GSS_C_NO_OID
unfoldable pub gssx_to_oid_alloc : (ℕ → Bool) → GssxOid → Result (Option (List ℕ))
gssx_to_oid_alloc malloc oid =
    if length oid == 0
    then ok none
    else if malloc oid_desc_size && malloc (length oid)
    then ok (some oid)
    else err enomem

unfoldable pub type_of : Option (List ℕ) → NameType
type_of none = no_type
type_of (some oid) = nt_oid oid

unfoldable pub octets_of : Option (List ℕ) → List ℕ
octets_of none = []
octets_of (some b) = b

module _ {W Name Cred : Type 0} (gss : Gss W Name Cred) (malloc : ℕ → Bool) where
  unfoldable pub import_typed : Option (List ℕ) → Result (Option (List ℕ)) → Run W Name
  unfolding octets_of type_of
  import_typed input (err e) = goto_done failure (errno e)
  import_typed input (ok name_type) = gss.import_name (octets_of input) (type_of name_type)

  unfoldable pub import_display : GssxName → Result (Option (List ℕ)) → Run W Name
  unfolding import_typed gssx_to_oid_alloc
  import_display name (err e) = goto_done failure (errno e)
  import_display name (ok input) = import_typed input (gssx_to_oid_alloc malloc name.name_type)

  -- gp_conv_gssx_to_name
  unfoldable pub gssx_to_name : GssxName → Run W Name
  unfolding import_display gssx_to_buffer_alloc
  gssx_to_name name =
      if not (length name.display_name == 0)
      then import_display name (gssx_to_buffer_alloc malloc name.display_name)
      else gss.import_name name.exported_name nt_export_name
