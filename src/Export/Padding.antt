-- ===== src/Export/Padding.antt =====
-- gp_encrypt_buffer and gp_decrypt_buffer of src/gp_export.c: exported credentials are encrypted, and
-- padded where the cipher would pad.
use gssproxy.Prelude.{
  ℕ, zero, suc, ◌+◌, ◌-◌, ◌^◌, List, [], ◌∷◌, ◌++◌, Option, none, some, Bool, true, false, not,
  ◌&&◌, ◌||◌, length, take, drop, replicate, ltb, leb, ◌==◌, if◌then◌else◌, enomem, einval, Result,
  ok, err,
}

-- libkrb5 with a key: krb5_c_encrypt_length, krb5_c_encrypt and krb5_c_decrypt. A parameter of the
-- model, since its code is not in the repository.
pub record Krb5 : Type 0 where
  pub encrypt_length : ℕ → Result ℕ
  pub encrypt : List ℕ → Result (List ℕ)
  pub decrypt : List ℕ → Result (List ℕ)

-- ENC_MIN_PAD_LEN
abbrev pub enc_min_pad_len : ℕ
enc_min_pad_len = 8

-- `if (ret) goto done` after a call.
unfoldable pub and_then {ℓ κ} : {A : Type ℓ} {B : Type κ} → Result A → (A → Result B) → Result B
and_then (err e) f = err e
and_then (ok a) f = f a

-- A failure of krb5_c_encrypt is EINVAL.
unfoldable pub sealed : Result (List ℕ) → Result (List ℕ)
sealed (err e) = err einval
sealed (ok ciphertext) = ok ciphertext

module _ (k : Krb5) where
  -- The loop that looks for the end of the block, from `i` on: it gives the padding. When no turn is
  -- left `i` is 15, and the test `i > 15` behind the loop does not hold.
  unfoldable pub search : ℕ → ℕ → ℕ → ℕ → Result ℕ
  unfolding and_then
  search zero i len cipherlen = ok enc_min_pad_len
  search (suc left) i len cipherlen =
      and_then (k.encrypt_length (len + enc_min_pad_len + i + 1)) (λ padcheck.
        if ltb cipherlen padcheck
        then ok (enc_min_pad_len + i)
        else search left (suc i) len cipherlen)

  -- With padding: its count, and the length of the ciphertext.
  unfoldable pub find_pad : ℕ → Result (ℕ × ℕ)
  unfolding search and_then
  find_pad len =
      and_then (k.encrypt_length (len + enc_min_pad_len))
        (λ cipherlen. and_then (search 15 0 len cipherlen) (λ pad. ok (pad, cipherlen)))

  -- Padding is required when one byte more makes no longer ciphertext.
  unfoldable pub choose_pad : ℕ → Result (ℕ × ℕ)
  unfolding find_pad and_then
  choose_pad len = and_then (k.encrypt_length len) (λ cipherlen.
      and_then (k.encrypt_length (len + 1))
        (λ padcheck. if padcheck == cipherlen then find_pad len else ok (0, cipherlen)))

  -- The copy with its padding, the ciphertext, and the copy of that in gp_conv_octet_string.
  unfoldable pub seal : (ℕ → Bool) → List ℕ → ℕ × ℕ → Result (List ℕ)
  unfolding sealed
  seal malloc buf (pad, cipherlen) =
      if (not (pad == 0) && not (malloc (length buf + pad))) || not (malloc cipherlen)
      then err enomem
      else sealed (k.encrypt (buf ++ replicate pad pad))

  -- The length must fit in four bytes.
  unfoldable pub encrypt_buffer : (ℕ → Bool) → List ℕ → Result (List ℕ)
  unfolding choose_pad seal and_then
  encrypt_buffer malloc buf =
      if leb (2 ^ 32) (length buf)
      then err enomem
      else and_then (choose_pad (length buf)) (seal malloc buf)

-- data_out.data[data_out.length - 1]; `none` is a read before the buffer.
unfoldable pub last_byte : List ℕ → Option ℕ
last_byte [] = none
last_byte (b ∷ []) = some b
last_byte (b ∷ c ∷ bs) = last_byte (c ∷ bs)

-- `pad != data_out.data[i - j]`: where char is signed, a byte from 128 on is a negative char, and
-- differs from every uint8_t.
unfoldable pub same_char : Bool → ℕ → ℕ → Bool
same_char char_signed pad c = (pad == c) && not (char_signed && leb 128 c)

-- The loop over the last `pad` bytes.
unfoldable pub all_pad : Bool → ℕ → List ℕ → Bool
unfolding same_char
all_pad char_signed pad [] = true
all_pad char_signed pad (c ∷ cs) =
    if same_char char_signed pad c then all_pad char_signed pad cs else false

unfoldable pub depad_by : Bool → List ℕ → ℕ → List ℕ
unfolding all_pad
depad_by char_signed d pad =
    if leb enc_min_pad_len pad && ltb pad (length d - 1)
    then if all_pad char_signed pad (drop (length d - pad) d) then take (length d - pad) d else d
    else d

unfoldable pub depad : Bool → List ℕ → Option ℕ → Option (List ℕ)
unfolding depad_by
depad char_signed d none = none
depad char_signed d (some pad) = some (depad_by char_signed d pad)

-- `none` is undefined behaviour.
unfoldable pub open_sealed : Bool → Result (List ℕ) → Option (Result (List ℕ))
unfolding depad last_byte
open_sealed char_signed (err e) = some (err e)
open_sealed char_signed (ok d) = elim (depad char_signed d (last_byte d)) [
  | none ↦ none
  | some plain ↦ some (ok plain)
]

unfoldable pub decrypt_buffer : Krb5 → Bool → List ℕ → Option (Result (List ℕ))
unfolding open_sealed
decrypt_buffer k char_signed ciphertext = open_sealed char_signed (k.decrypt ciphertext)
