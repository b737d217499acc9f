-- ===== src/Conv/Copies.antt =====
-- The copies of src/gp_conv.c: sets of OIDs, channel bindings, names and statuses.
use gssproxy.Prelude.{ℕ, ◌*◌, List, [], ◌∷◌, Bool, if◌then◌else◌, length, enomem, Result, ok, err}
use gssproxy.Export.Names.{conv_octet_string}
use gssproxy.Export.Handle.{wide}
use gssproxy.Wire.Filter.{UInt}
use gssproxy.Wire.Types.{GssxOid, GssxOidSet, GssxName, GssxStatus, GssxCb, Utf8string}

-- struct gss_channel_bindings_struct
pub record ChannelBindings : Type 0 where
  pub initiator_addrtype : UInt 32
  pub initiator_address : List ℕ
  pub acceptor_addrtype : UInt 32
  pub acceptor_address : List ℕ
  pub application_data : List ℕ

-- `if (ret) goto done`
unfoldable pub on_success : {A B : Type 0} → Result A → (A → Result B) → Result B
on_success (ok a) next = next a
on_success (err e) next = err e

-- sizeof(gssx_OID), where pointers have eight bytes
abbrev pub gssx_oid_size : ℕ
gssx_oid_size = 16

module _ (malloc : ℕ → Bool) where
  -- The loop of gp_conv_oid_set_to_gssx.
  unfoldable pub copy_oids : List GssxOid → Result GssxOidSet
  unfolding on_success conv_octet_string
  copy_oids [] = ok []
  copy_oids (oid ∷ oids) =
      on_success (conv_octet_string malloc oid) λ o. on_success (copy_oids oids) λ os. ok (o ∷ os)

  -- gp_conv_oid_set_to_gssx, for an `out` that is empty
  unfoldable pub oid_set_to_gssx : List GssxOid → Result GssxOidSet
  unfolding copy_oids
  oid_set_to_gssx [] = ok []
  oid_set_to_gssx (oid ∷ oids) =
      if malloc (length (oid ∷ oids) * gssx_oid_size) then copy_oids (oid ∷ oids) else err enomem

  -- gp_conv_cb_to_gssx
  unfoldable pub cb_to_gssx : ChannelBindings → Result GssxCb
  unfolding on_success conv_octet_string
  cb_to_gssx cb = on_success (conv_octet_string malloc cb.initiator_address) λ initiator.
      on_success (conv_octet_string malloc cb.acceptor_address) λ acceptor.
        on_success (conv_octet_string malloc cb.application_data) λ application. ok record {
          initiator_addrtype = wide cb.initiator_addrtype;
          initiator_address = initiator;
          acceptor_addrtype = wide cb.acceptor_addrtype;
          acceptor_address = acceptor;
          application_data = application;
        }

  -- gp_copy_utf8string, which allocates for an empty string too
  unfoldable pub copy_utf8string : Utf8string → Result Utf8string
  copy_utf8string s = if malloc (length s) then ok s else err enomem

  -- gp_copy_gssx_name, for an `out` that is empty: the attributes and the extensions are not copied.
  unfoldable pub copy_gssx_name : GssxName → Result GssxName
  unfolding on_success conv_octet_string
  copy_gssx_name name = on_success (conv_octet_string malloc name.display_name) λ display.
      on_success (conv_octet_string malloc name.name_type) λ type.
        on_success (conv_octet_string malloc name.exported_name) λ exported.
          on_success (conv_octet_string malloc name.exported_composite_name) λ composite.
            ok record {
              display_name = display;
              name_type = type;
              exported_name = exported;
              exported_composite_name = composite;
              name_attributes = [];
              extensions = [];
            }

  -- A string of a status is copied if it is not empty.
  unfoldable pub copy_filled : Utf8string → Result Utf8string
  unfolding copy_utf8string
  copy_filled [] = ok []
  copy_filled (c ∷ cs) = copy_utf8string (c ∷ cs)

  -- sizeof(gssx_status), where pointers have eight bytes
  abbrev pub status_size : ℕ
  status_size = 96

  -- gp_copy_gssx_status_alloc: the options are not copied.
  unfoldable pub copy_gssx_status_alloc : GssxStatus → Result GssxStatus
  unfolding on_success conv_octet_string copy_filled
  copy_gssx_status_alloc status =
      if malloc status_size
      then (on_success (conv_octet_string malloc status.mech) λ mech.
          on_success (copy_filled status.major_status_string) λ major.
            on_success (copy_filled status.minor_status_string) λ minor.
              on_success (conv_octet_string malloc status.server_ctx) λ server_ctx. ok record {
                major_status = status.major_status;
                mech = mech;
                minor_status = status.minor_status;
                major_status_string = major;
                minor_status_string = minor;
                server_ctx = server_ctx;
                options = [];
              })
      else err enomem
