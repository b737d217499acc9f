-- ===== src/Conv/Sets.antt =====
-- A set of OIDs goes from the wire to the GSSAPI and back: src/gp_conv.c.
use gssproxy.Prelude.{
  ℕ, ◌*◌, ◌≡◌, refl, ap, ◌∙◌, List, [], ◌∷◌, Bool, true, ◌&&◌, length, some, ok, Bool-cases, inl,
  inr, ne→==, arith,
}
use gssproxy.Export.Names.{conv_octet_string}
use gssproxy.Gss.Names.{oid_desc_size}
use gssproxy.Handlers.Mechs.{copies, gssx_to_oid_set}
use gssproxy.Wire.Types.{GssxOid, GssxOidSet}
use gssproxy.Conv.Copies.{on_success, gssx_oid_size, copy_oids, oid_set_to_gssx}

module _ (malloc : ℕ → Bool) (room : (n : ℕ) → malloc n ≡ true) where
  conv_octet_string_lem : (value : List ℕ) → conv_octet_string malloc value ≡ ok value
  unfolding conv_octet_string
  conv_octet_string_lem [] = refl
  conv_octet_string_lem (c ∷ cs) =
      rw (ne→== (length (c ∷ cs)) 0 (λ e. omega (arith, e)), room (length (c ∷ cs))) refl

  copy_oids_lem : (oids : List GssxOid) → copy_oids malloc oids ≡ ok oids
  unfolding copy_oids on_success
  copy_oids_lem [] = refl
  copy_oids_lem (oid ∷ oids) = rw (conv_octet_string_lem oid, copy_oids_lem oids) refl

  -- A set of OIDs that came over the wire goes back as it came. Allocations of the way back succeed.
  pub oid_set_to_gssx-gssx_to_oid_set :
      (malloc' : ℕ → Bool) (set : GssxOidSet) (oids : List GssxOid)
      → gssx_to_oid_set malloc' set ≡ ok (some oids)
      → oid_set_to_gssx malloc oids ≡ ok set
  unfolding gssx_to_oid_set oid_set_to_gssx
  oid_set_to_gssx-gssx_to_oid_set malloc' [] oids h = cc
  oid_set_to_gssx-gssx_to_oid_set malloc' (oid ∷ set) oids h =
      elim (Bool-cases (
        malloc' 16 && malloc' (length (oid ∷ set) * oid_desc_size) && copies malloc' (oid ∷ set))) [
          | inl made ↦
              let h' = rw made at h in
              let e : oids ≡ oid ∷ set = cc in
              ap (oid_set_to_gssx malloc) e
              ∙ rw (room (length (oid ∷ set) * gssx_oid_size)) (copy_oids_lem (oid ∷ set))
          | inr failed ↦ let h' = rw failed at h in cc
        ]
