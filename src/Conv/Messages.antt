-- ===== src/Conv/Messages.antt =====
-- How many messages of a status gp_conv_err_to_gssx_string of src/gp_conv.c takes.
use gssproxy.Prelude.{
  ℕ, ◌+◌, ◌≡◌, ◌≢◌, refl, List, [], ◌∷◌, Bool, true, false, length, ◌==◌, Option, some, Bool-cases,
  inl, inr, arith, ne→==, Result, ok, err,
}
use gssproxy.Creds.Allowed.{until_nul}
use gssproxy.Export.Names.{oid_to_gssx}
use gssproxy.Wire.Filter.{UInt}
use gssproxy.Wire.Types.{GssxOid, GssxStatus}
use gssproxy.Conv.Status.{
  Displayed, message, Text, text, failed, printed, unanswered, joined, converted, after_asprintf,
  display, err_to_gssx_string, status_string, with_strings, with_mech, status_to_gssx,
}

joined_long : (str msg : List ℕ) → (length (joined str msg) == 0) ≡ false
joined_long [] msg = ne→== (length (joined [] msg)) 0 (λ e. omega (arith, e))
joined_long (c ∷ cs) msg = ne→== (length (joined (c ∷ cs) msg)) 0 (λ e. omega (arith, e))

module _ (malloc : ℕ → Bool) where
  -- A second message ends the work with an error, whatever follows it.
  display_second :
      (str msg : List ℕ) (more : Bool) (rest : List Displayed) (t : List ℕ)
      → display malloc (some str) (message msg more ∷ rest) ≢ text t
  unfolding display after_asprintf
  display_second str msg more rest t h = elim (Bool-cases (malloc (length (joined str msg) + 1))) [
    | inl room ↦ let h' = rw (room, joined_long str msg) at h in cc
    | inr full ↦ let h' = rw full at h in cc
  ]

  err_second :
      (msg msg' : List ℕ) (more : Bool) (rest : List Displayed) (t : List ℕ)
      → err_to_gssx_string malloc (message msg true ∷ message msg' more ∷ rest) ≢ text t
  unfolding err_to_gssx_string display
  err_second msg msg' more rest t h = elim (Bool-cases (malloc (length (until_nul msg) + 1))) [
    | inl room ↦ let h' = rw room at h in display_second (until_nul msg) msg' more rest t h'
    | inr full ↦ let h' = rw full at h in cc
  ]

  status_second :
      (maj : UInt 32) (msg msg' : List ℕ) (more : Bool) (rest : List Displayed) (t : List ℕ)
      → maj.0 ≢ 0
      → status_string malloc maj (message msg true ∷ message msg' more ∷ rest) ≢ text t
  unfolding status_string
  status_second maj msg msg' more rest t is_error h =
      let h' = rw (ne→== maj.0 0 is_error) at h in err_second msg msg' more rest t h'

  strings-converted :
      (maj min : UInt 32) (mech : GssxOid) (major minor : Text) (s : GssxStatus)
      → with_strings malloc maj min mech major minor ≡ converted s
      → (t : List ℕ) × (major ≡ text t)
  unfolding with_strings
  strings-converted maj min mech (text major) minor s h = (major, refl)
  strings-converted maj min mech (failed e) minor s h = cc
  strings-converted maj min mech (printed n) minor s h = cc
  strings-converted maj min mech unanswered minor s h = cc

  -- A major status other than 0 of which gss_display_status gives a second message is never converted:
  -- gp_conv_status_to_gssx ends with an error, whatever the mechanism, the messages and the minor status.
  pub status_to_gssx_fails :
      (maj min : UInt 32) (mech : Option (List ℕ)) (msg msg' : List ℕ) (more : Bool)
      (rest minors : List Displayed) (s : GssxStatus)
      → maj.0 ≢ 0
      → status_to_gssx malloc maj min mech (message msg true ∷ message msg' more ∷ rest) minors
        ≢ converted s
  unfolding status_to_gssx with_mech
  status_to_gssx_fails maj min mech msg msg' more rest minors s is_error =
      refuses (oid_to_gssx malloc mech)
    where
      refuses :
          (r : Result GssxOid)
          → with_mech malloc maj min r (message msg true ∷ message msg' more ∷ rest) minors
            ≢ converted s
      refuses (err e) h = cc
      refuses (ok oid) h =
          let (t, e) = strings-converted maj min oid _ _ s h in
          status_second maj msg msg' more rest t is_error e
