-- ===== src/Export/Sealed.antt =====
-- The round trip of gp_encrypt_buffer and gp_decrypt_buffer of src/gp_export.c.
use gssproxy.Prelude.{
  ℕ, zero, suc, ◌+◌, ◌-◌, ◌^◌, ◌≤◌, ◌<◌, ◌≡◌, refl, ap, subst, ◌∙◌, inl, inr, List, [], ◌∷◌, ◌++◌,
  some, Bool, true, false, not, ◌&&◌, ◌||◌, suc-plus, length, length-append, length-replicate,
  append-nil, replicate, leb, ◌==◌, if◌then◌else◌, Bool-cases, arith, ==→eq, le→ltb, lt→ltb, eq→==,
  ne→==, enomem, Result, ok, err,
}
use gssproxy.Export.Depad.{depad-padded}
use gssproxy.Export.Padding.{
  Krb5, and_then, search, find_pad, choose_pad, sealed, seal, encrypt_buffer, last_byte, depad,
  open_sealed, decrypt_buffer,
}

-- What RFC 3961 says of a cipher: it adds a fixed overhead, and fills the last block; decryption
-- gives the plaintext with the filling, whatever that is.
pub record IsKrb5 (k : Krb5) (overhead : ℕ) (fill : ℕ → ℕ) : Type 0 where
  pub length_lem : (n : ℕ) → k.encrypt_length n ≡ ok (overhead + n + fill n)
  pub fill_down : (n m : ℕ) → fill n ≡ suc m → fill (n + 1) ≡ m
  pub decrypt-encrypt :
      (d c : List ℕ)
      → k.encrypt d ≡ ok c
      → (filling : List ℕ) × (length filling ≡ fill (length d)) × (k.decrypt c ≡ ok (d ++ filling))

module _ {k : Krb5} {overhead : ℕ} {fill : ℕ → ℕ} (lib : IsKrb5 k overhead fill) where
  fill_at : (i n r : ℕ) → fill n ≡ i + r → fill (n + i) ≡ r
  fill_at zero n r h = ap fill (plus_zero n) ∙ h ∙ zero_plus r
    where
      plus_zero : (n : ℕ) → n + 0 ≡ n
      plus_zero n = omega arith

      zero_plus : (n : ℕ) → 0 + n ≡ n
      zero_plus n = omega arith
  fill_at (suc i) n r h =
      ap fill (plus_suc n i) ∙ fill_at i (n + 1) r (lib.fill_down n (i + r) (h ∙ suc-plus i r))
    where
      plus_suc : (n i : ℕ) → n + suc i ≡ n + 1 + i
      plus_suc n i = omega arith

  -- The loop finds the end of the block, if it is near enough.
  search_finds :
      (left i len f : ℕ)
      → fill (len + 8) ≡ f
      → i ≤ f
      → f < i + left
      → search k left i len (overhead + (len + 8) + f) ≡ ok (8 + f)
  unfolding search and_then
  search_finds zero i len f filled from to = absurd (omega (arith, from, to))
  search_finds (suc left) i len f filled from to =
      rw (lib.length_lem (len + 8 + i + 1)) (elim (Bool-cases (i == f)) [
        | inl here ↦
            rw
              (lt→ltb (overhead + (len + 8) + f)
                (overhead + (len + 8 + i + 1) + fill (len + 8 + i + 1))
                (omega (arith, ==→eq i f here)))
              (ap (λ n. ok (8 + n)) (==→eq i f here))
        | inr further ↦
            rw
              (le→ltb (overhead + (len + 8 + i + 1) + fill (len + 8 + i + 1))
                (overhead + (len + 8) + f) (within (ground arith)))
              (search_finds left (suc i) len f filled (ground arith) (omega (arith, to)))
      ])
    where
      parts : i < f → f ≡ i + suc (f - i - 1)
      parts before = omega (arith, before)

      within :
          i < f → overhead + (len + 8 + i + 1) + fill (len + 8 + i + 1) ≤ overhead + (len + 8) + f
      within before = omega (
        arith,
        before,
        lib.fill_down (len + 8 + i) (f - i - 1)
            (fill_at i (len + 8) (suc (f - i - 1)) (filled ∙ parts before)),
      )

  -- The padding: none where the cipher fills nothing, and else at least eight bytes up to the end of a
  -- block.
  choose_pad_none : (len : ℕ) → fill len ≡ 0 → choose_pad k len ≡ ok (0, overhead + len + fill len)
  unfolding choose_pad and_then
  choose_pad_none len whole =
      rw
        (
          lib.length_lem len,
          lib.length_lem (len + 1),
          ne→== (overhead + (len + 1) + fill (len + 1)) (overhead + len + fill len)
              (λ e. omega (arith, e, whole)),
        )
        refl

  choose_pad_some :
      (len m f : ℕ)
      → fill len ≡ suc m
      → fill (len + 8) ≡ f
      → f ≤ 14
      → choose_pad k len ≡ ok (8 + f, overhead + (len + 8) + f)
  unfolding choose_pad find_pad and_then
  choose_pad_some len m f part filled near =
      rw
        (
          lib.length_lem len,
          lib.length_lem (len + 1),
          eq→== (overhead + (len + 1) + fill (len + 1)) (overhead + len + fill len)
              (omega (arith, part, lib.fill_down len m part)),
          lib.length_lem (len + 8),
          filled,
          search_finds 15 0 len f filled (omega arith) (omega (arith, near)),
        )
        refl

  -- What is encrypted comes back, when the cipher fills nothing.
  sealed_whole :
      (malloc : ℕ → Bool) (buf c : List ℕ) (pad cipherlen : ℕ)
      → fill (length (buf ++ replicate pad pad)) ≡ 0
      → seal k malloc buf (pad, cipherlen) ≡ ok c
      → k.decrypt c ≡ ok (buf ++ replicate pad pad)
  unfolding seal sealed
  sealed_whole malloc buf c pad cipherlen whole h =
      let (filling, size, opened) = lib.decrypt-encrypt (buf ++ replicate pad pad) c (
        encrypted (k.encrypt (buf ++ replicate pad pad))
          ((not (pad == 0) && not (malloc (length buf + pad))) || not (malloc cipherlen)) h) in
      opened
      ∙ ap (λ l. ok (buf ++ replicate pad pad ++ l)) (nothing filling (size ∙ whole))
      ∙ ap ok (append-nil (buf ++ replicate pad pad))
    where
      encrypted :
          (r : Result (List ℕ)) (no_memory : Bool)
          → (if no_memory then err enomem else sealed r) ≡ ok c
          → r ≡ ok c
      encrypted (ok c') false e = e
      encrypted (err n) false e = ground arith
      encrypted r true e = ground arith

      nothing : (l : List ℕ) → length l ≡ 0 → l ≡ []
      nothing [] e = refl
      nothing (x ∷ xs) e = absurd (omega (arith, e))

  chosen-ok :
      (malloc : ℕ → Bool) (buf c : List ℕ) (pad cipherlen : ℕ)
      → choose_pad k (length buf) ≡ ok (pad, cipherlen)
      → encrypt_buffer k malloc buf ≡ ok c
      → seal k malloc buf (pad, cipherlen) ≡ ok c
  unfolding encrypt_buffer and_then
  chosen-ok malloc buf c pad cipherlen chosen h = small (leb (2 ^ 32) (length buf)) (
      subst
        (λ r.
          (if leb (2 ^ 32) (length buf) then err enomem else and_then r (seal k malloc buf)) ≡ ok c)
        chosen h)
    where
      small :
          (large : Bool) {x : Result (List ℕ)} → (if large then err enomem else x) ≡ ok c → x ≡ ok c
      small true e = ground arith
      small false e = e

  -- A credential of at least two bytes that gp_encrypt_buffer encrypts is what gp_decrypt_buffer gives
  -- back: when the cipher pads it, and fills at most 14 bytes behind the first eight bytes of padding;
  -- and when the cipher does not pad it, if its own end does not look like padding.
  -- This rests on the laws of the cipher.
  pub decrypt_buffer-encrypt_buffer :
      (malloc : ℕ → Bool) (char_signed : Bool) (buf c : List ℕ)
      → 2 ≤ length buf
      → fill (length buf + 8) ≤ 14
      → (fill (length buf) ≡ 0 → depad char_signed buf (last_byte buf) ≡ some buf)
      → encrypt_buffer k malloc buf ≡ ok c
      → decrypt_buffer k char_signed c ≡ some (ok buf)
  unfolding decrypt_buffer open_sealed
  decrypt_buffer-encrypt_buffer malloc s buf c long near plain h =
      go (fill (length buf)) refl (fill (length buf + 8)) refl
    where
      opened :
          (d : List ℕ) → depad s d (last_byte d) ≡ some buf → open_sealed s (ok d) ≡ some (ok buf)
      opened d e = rw (e, open_sealed) refl

      unpadded_size : (f : ℕ) → fill (length buf) ≡ f → fill (length (buf ++ replicate 0 0)) ≡ f
      unpadded_size f e = ap (λ l. fill (length l)) (append-nil buf) ∙ e

      padded_size : (f : ℕ) → length (buf ++ replicate (8 + f) (8 + f)) ≡ length buf + 8 + f
      padded_size f =
          omega
            (arith, length-append buf (replicate (8 + f) (8 + f)), length-replicate (8 + f) (8 + f))

      padded_whole :
          (f : ℕ) → fill (length buf + 8) ≡ f → fill (length (buf ++ replicate (8 + f) (8 + f))) ≡ 0
      padded_whole f e = ap fill (padded_size f) ∙ fill_at f (length buf + 8) 0 (e ∙ omega arith)

      go :
          (g : ℕ)
          → fill (length buf) ≡ g
          → (f : ℕ) → fill (length buf + 8) ≡ f
          → open_sealed s (k.decrypt c) ≡ some (ok buf)
      go zero whole f filled =
          ap (open_sealed s) (
            sealed_whole malloc buf c 0 _ (unpadded_size 0 whole)
              (chosen-ok malloc buf c 0 _ (choose_pad_none (length buf) whole) h)
            ∙ ap ok (append-nil buf))
          ∙ opened buf (plain whole)
      go (suc m) part f filled =
          ap (open_sealed s) (
            sealed_whole malloc buf c (8 + f) _ (padded_whole f filled) (
              chosen-ok malloc buf c (8 + f) _
                (choose_pad_some (length buf) m f part filled (omega (arith, near, filled))) h))
          ∙ opened (buf ++ replicate (8 + f) (8 + f))
              (depad-padded s buf (8 + f) long (omega arith) (omega (arith, near, filled)))
