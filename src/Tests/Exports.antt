-- ===== src/Tests/Exports.antt =====
-- A cipher with blocks of eight bytes and no secrets, which fills with zeros, and an export with it.
use gssproxy.Prelude.{
  ℕ, ◌+◌, ◌-◌, ◌%◌, ◌≡◌, refl, sym, ap, List, [], ◌∷◌, ◌++◌, some, Bool, true, length, replicate,
  length-replicate, ok, arith,
}
use gssproxy.Export.Padding.{
  Krb5, and_then, search, find_pad, choose_pad, sealed, seal, encrypt_buffer, decrypt_buffer,
}
use gssproxy.Export.Sealed.{IsKrb5, decrypt_buffer-encrypt_buffer}

abbrev pub fill : ℕ → ℕ
fill n = (8 - n % 8) % 8

abbrev pub blocks : Krb5
blocks = record {
  encrypt_length = λ n. ok (n + fill n);
  encrypt = λ d. ok (d ++ replicate (fill (length d)) 0);
  decrypt = λ c. ok c;
}

pub blocks-IsKrb5 : IsKrb5 blocks 0 fill
blocks-IsKrb5 = record {
  length_lem = λ n. ap ok (sum n);
  fill_down = λ n m h. omega (arith, h);
  decrypt-encrypt =
      λ d c h. (replicate (fill (length d)) 0, length-replicate (fill (length d)) 0, sym h);
}
  where
    sum : (n : ℕ) → n + fill n ≡ 0 + n + fill n
    sum n = omega arith

abbrev pub all_there : ℕ → Bool
all_there n = true

abbrev credential : List ℕ
credential = 1 ∷ 2 ∷ 3 ∷ []

abbrev exported : List ℕ
exported = credential ++ replicate 13 13

exported_lem : encrypt_buffer blocks all_there credential ≡ ok exported
unfolding encrypt_buffer choose_pad find_pad search and_then seal sealed
exported_lem = refl

decrypt_buffer-encrypt_buffer_example : decrypt_buffer blocks true exported ≡ some (ok credential)
decrypt_buffer-encrypt_buffer_example =
    decrypt_buffer-encrypt_buffer blocks-IsKrb5 all_there true credential exported (omega arith)
      (omega arith) (λ whole. absurd (omega (arith, whole))) exported_lem
