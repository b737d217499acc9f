-- ===== src/Export/Depad.antt =====
-- gp_decrypt_buffer of src/gp_export.c takes padding off.
use gssproxy.Prelude.{
  ℕ, zero, suc, ◌+◌, ◌-◌, ◌≤◌, ◌<◌, ◌≡◌, refl, ap, ◌∙◌, List, [], ◌∷◌, ◌++◌, some, Bool, true,
  false, length, length-append, length-replicate, take-length-append, drop-length-append, replicate,
  le→leb, lt→ltb, arith,
}
use gssproxy.Export.Padding.{last_byte, same_char, all_pad, depad_by, depad}

last_byte-append : (xs ys : List ℕ) (y : ℕ) → last_byte (xs ++ y ∷ ys) ≡ last_byte (y ∷ ys)
unfolding last_byte
last_byte-append [] ys y = refl
last_byte-append (x ∷ []) ys y = refl
last_byte-append (x ∷ x' ∷ xs) ys y = last_byte-append (x' ∷ xs) ys y

last_byte-replicate : (n p : ℕ) → last_byte (replicate (suc n) p) ≡ some p
unfolding last_byte
last_byte-replicate zero p = refl
last_byte-replicate (suc n) p = last_byte-replicate n p

all_pad-replicate :
    (char_signed : Bool) (n p : ℕ) → p < 128 → all_pad char_signed p (replicate n p) ≡ true
unfolding all_pad same_char
all_pad-replicate s zero p small = refl
all_pad-replicate true (suc n) p small = ground (arith, all_pad-replicate true n p small)
all_pad-replicate false (suc n) p small = ground (arith, all_pad-replicate false n p small)

-- Padding of at least eight bytes behind at least two is taken off.
depad_by-padded :
    (char_signed : Bool) (buf : List ℕ) (p : ℕ)
    → 2 ≤ length buf
    → 8 ≤ p
    → p < 128
    → depad_by char_signed (buf ++ replicate p p) p ≡ buf
unfolding depad_by
depad_by-padded s buf p long enough small =
    rw (le→leb 8 p enough, lt→ltb p (length (buf ++ replicate p p) - 1) short)
      (rw place (
        rw (drop-length-append buf (replicate p p), all_pad-replicate s p p small)
          (take-length-append buf (replicate p p))))
  where
    total : length (buf ++ replicate p p) ≡ length buf + p
    total = length-append buf (replicate p p) ∙ ap (λ n. length buf + n) (length-replicate p p)

    short : p < length (buf ++ replicate p p) - 1
    short = omega (arith, total, long)

    place : length (buf ++ replicate p p) - p ≡ length buf
    place = omega (arith, total)

pub depad-padded :
    (char_signed : Bool) (buf : List ℕ) (p : ℕ)
    → 2 ≤ length buf
    → 8 ≤ p
    → p < 128
    → depad char_signed (buf ++ replicate p p) (last_byte (buf ++ replicate p p)) ≡ some buf
unfolding depad
depad-padded s buf zero long enough small = absurd (omega (arith, enough))
depad-padded s buf (suc p) long enough small =
    ap (depad s (buf ++ replicate (suc p) (suc p)))
      (last_byte-append buf (replicate p (suc p)) (suc p) ∙ last_byte-replicate p (suc p))
    ∙ ap some (depad_by-padded s buf (suc p) long enough small)
