-- ===== src/Creds/Formatted.antt =====
-- get_formatted_string gives what a template stands for.
use gssproxy.Prelude.{
  ℕ, zero, suc, ◌+◌, ◌-◌, ◌^◌, ◌<◌, ◌≤◌, ◌≡◌, ◌≢◌, refl, ap, sym, ◌∙◌, List, [], ◌∷◌, ◌++◌,
  append-nil, append_assoc, Option, none, some, ◌>>=◌, Bool, true, length, length-append, take,
  drop, take-length-append, drop-length-append, le→leb, ne→==, Option-cases, inl, inr, arith,
}
use gssproxy.Creds.Format.{
  Percent, beyond, absent, found, strchr, Scan, Turn, null, scanning, formatted, c_string, pointed,
  printed, replaced, user_replaced, ended, format_code, after_strchr, turn, scan,
  get_formatted_string, decimal,
}
use gssproxy.Creds.Numeral.{IsIntNumeral, decimal-IsIntNumeral}
use gssproxy.Creds.Pieces.{
  Piece, source, expand, IsString, string-nil, string-cons, IsTemplate, template-nil,
  template-literal, template-uid, template-user, template-unknown, returned, append-IsString,
  decimal-IsString, source-IsString, c_string-IsString,
}

-- The loop before the rest of a template, when the string before it is done.
abbrev at_rest : List ℕ → List ℕ → Scan
at_rest done rest = record {
  before = done;
  after = rest ++ 0 ∷ [];
  len = length done + length rest;
}

scanning-eq :
    {before before' after after' : List ℕ} {n n' : ℕ}
    → before ≡ before'
    → after ≡ after'
    → n ≡ n'
    → scanning record { before = before; after = after; len = n }
      ≡ scanning record { before = before'; after = after'; len = n' }
scanning-eq p q r = λ i. scanning record { before = p i; after = q i; len = r i }

-- The pointer behind the text that was put in.
pointed_behind :
    (front rest : List ℕ) (left old_len : ℕ)
    → old_len ≡ left + length rest
    → pointed left old_len (front ++ rest) ≡ scanning (at_rest front rest)
unfolding pointed
pointed_behind front rest left old_len same =
    rw
      (
        place,
        le→leb old_len (length (front ++ rest) + left) (omega (arith, same, size)),
        le→leb (length front) (length (front ++ rest)) (omega (arith, size)),
      )
      (scanning-eq (take-length-append front rest)
        (ap (drop (length front)) (append_assoc front rest (0 ∷ []))
          ∙ drop-length-append front (rest ++ 0 ∷ []))
        size)
  where
    size : length (front ++ rest) ≡ length front + length rest
    size = length-append front rest

    place : length (front ++ rest) + left - old_len ≡ length front
    place = omega (arith, size, same)

replaced_text :
    (malloc : ℕ → Bool) (done text rest : List ℕ) (c : ℕ)
    → ((n : ℕ) → malloc n ≡ true)
    → IsString rest
    → replaced malloc text record {
      before = done ++ 37 ∷ c ∷ [];
      after = rest ++ 0 ∷ [];
      len = length done + suc (suc (length rest));
    }
      ≡ scanning (at_rest (done ++ text) rest)
unfolding replaced printed
replaced_text malloc done text rest c room string_rest =
    rw (c_string-IsString [] string_rest, kept, room (length (done ++ text ++ rest) + 1))
      (pointed_behind (done ++ text) rest (length (done ++ 37 ∷ c ∷ []))
        (length done + suc (suc (length rest))) (omega (arith, size)))
  where
    size : length (done ++ 37 ∷ c ∷ []) ≡ length done + 2
    size = length-append done (37 ∷ c ∷ [])

    kept : take (length (done ++ 37 ∷ c ∷ []) - 2) (done ++ 37 ∷ c ∷ []) ≡ done
    kept =
        ap (λ n. take n (done ++ 37 ∷ c ∷ [])) (omega (arith, size))
        ∙ take-length-append done (37 ∷ c ∷ [])

returned_behind :
    (done text : List ℕ) (o : Option (List ℕ))
    → returned (done ++ text) o ≡ returned done (o >>= λ t. some (text ++ t))
unfolding returned
returned_behind done text none = refl
returned_behind done text (some t) = ap formatted (append_assoc done text t)

module _ (malloc : ℕ → Bool) (room : (n : ℕ) → malloc n ≡ true) (name : Option (List ℕ))
    (uid : ℕ) where
  -- A literal byte is passed by.
  turn_literal :
      (done rest : List ℕ) (c n : ℕ)
      → c ≢ 0
      → c ≢ 37
      → turn malloc name uid record { before = done; after = c ∷ rest; len = n }
        ≡ turn malloc name uid record { before = done ++ c ∷ []; after = rest; len = n }
  unfolding turn strchr after_strchr
  turn_literal done rest c n byte plain =
      rw (ne→== c 37 plain, ne→== c 0 byte) (same (strchr (done ++ c ∷ []) rest))
    where
      same :
          (f : Percent)
          → after_strchr malloc name uid (record { before = done; after = c ∷ rest; len = n }) f
            ≡ after_strchr malloc name uid
                (record { before = done ++ c ∷ []; after = rest; len = n })
                f
      same beyond = refl
      same absent = ap (λ b. ended (c_string b)) (sym (append_assoc done (c ∷ []) rest))
      same (found before []) = refl
      same (found before (d ∷ ds)) = refl

  -- A format code is found.
  turn_code :
      (done rest : List ℕ) (c n : ℕ)
      → turn malloc name uid record { before = done; after = 37 ∷ c ∷ rest; len = n }
        ≡ format_code malloc name uid
            record { before = done ++ 37 ∷ []; after = c ∷ rest; len = n }
            c
            rest
  unfolding turn strchr after_strchr
  turn_code done rest c n = refl

  abbrev scanned : ℕ → List ℕ → ℕ → List ℕ → Turn
  scanned fuel done n rest =
      scan fuel malloc name uid
        (turn malloc name uid record { before = done; after = rest ++ 0 ∷ []; len = n })

  -- A code that is replaced, and the turn after it.
  code_scanned :
      (done text rest : List ℕ) (c n fuel : ℕ)
      → format_code malloc name uid
          (record { before = done ++ 37 ∷ []; after = c ∷ rest ++ 0 ∷ []; len = n })
          c
          (rest ++ 0 ∷ [])
        ≡ scanning (at_rest (done ++ text) rest)
      → scanned (suc fuel) done n (37 ∷ c ∷ rest)
        ≡ scanned fuel (done ++ text) (length (done ++ text) + length rest) rest
  unfolding scan
  code_scanned done text rest c n fuel code = rw (turn_code done (rest ++ 0 ∷ []) c n, code) refl

  scan_null : (fuel : ℕ) → scan fuel malloc name uid null ≡ null
  unfolding scan
  scan_null zero = refl
  scan_null (suc fuel) = refl

  scan_stops : (fuel : ℕ) (out : List ℕ) → scan fuel malloc name uid (formatted out) ≡ formatted out
  unfolding scan
  scan_stops zero out = refl
  scan_stops (suc fuel) out = refl

  -- The code of a replacement, with the percent sign that strchr has found before it.
  replaced_at :
      (done text rest : List ℕ) (c n : ℕ)
      → IsString rest
      → n ≡ length done + suc (suc (length rest))
      → replaced malloc text
          record { before = (done ++ 37 ∷ []) ++ c ∷ []; after = rest ++ 0 ∷ []; len = n }
        ≡ scanning (at_rest (done ++ text) rest)
  replaced_at done text rest c n string_rest counted =
      rw (append_assoc done (37 ∷ []) (c ∷ []), counted)
        (replaced_text malloc done text rest c room string_rest)

  turn_end :
      (done : List ℕ) (n : ℕ)
      → IsString done
      → turn malloc name uid record { before = done; after = 0 ∷ []; len = n } ≡ formatted done
  unfolding turn strchr after_strchr ended
  turn_end done n string_done = rw (c_string-IsString [] string_done) refl

  formats :
      {ps : List Piece} (done : List ℕ) (n fuel : ℕ)
      → IsTemplate ps
      → IsString done
      → ((user : List ℕ) → name ≡ some user → IsString user)
      → n ≡ length done + length (source ps)
      → length (source ps) ≤ fuel
      → scanned fuel done n (source ps) ≡ returned done (expand name (decimal uid) ps)
  unfolding source expand returned format_code user_replaced scan
  formats done n fuel template-nil string_done names counted enough =
      rw (turn_end done n string_done) (scan_stops fuel done) ∙ ap formatted (sym (append-nil done))
  formats done n fuel (template-literal {c} {ps} byte plain rest) string_done names counted enough =
      ap (scan fuel malloc name uid) (turn_literal done (source ps ++ 0 ∷ []) c n byte plain)
      ∙ formats (done ++ c ∷ []) n fuel rest
          (append-IsString string_done (string-cons byte string-nil)) names
          (omega (arith, counted, length-append done (c ∷ []))) (omega arith)
      ∙ returned_behind done (c ∷ []) (expand name (decimal uid) ps)
  formats done n (suc fuel) (template-uid {ps} rest) string_done names counted enough =
      code_scanned done (decimal uid) (source ps) 85 n fuel
        (replaced_at done (decimal uid) (source ps) 85 n (source-IsString rest) counted)
      ∙ formats (done ++ decimal uid) _ fuel rest
          (append-IsString string_done (decimal-IsString uid)) names refl (omega arith)
      ∙ returned_behind done (decimal uid) (expand name (decimal uid) ps)
  formats done n zero (template-uid rest) string_done names counted enough = absurd (omega arith)
  formats done n (suc fuel) (template-user {ps} rest) string_done names counted enough =
      elim (Option-cases name) [
        | inl unknown ↦
            rw (turn_code done (source ps ++ 0 ∷ []) 117 n, unknown) (scan_null (suc fuel))
        | inr (user, known) ↦
            let code = replaced_at done user (source ps) 117 n (source-IsString rest) counted in
            code_scanned done user (source ps) 117 n fuel (rw known code)
            ∙ formats (done ++ user) _ fuel rest (append-IsString string_done (names user known))
                names refl (omega arith)
            ∙ returned_behind done user (expand name (decimal uid) ps)
            ∙ ap
                (λ o.
                  returned done
                    (o >>= λ user. expand name (decimal uid) ps >>= λ t. some (user ++ t)))
                (sym known)
      ]
  formats done n zero (template-user rest) string_done names counted enough = absurd (omega arith)
  formats done n fuel (template-unknown {c} {ps} byte p q r rest) string_done names counted enough =
      rw (turn_code done (source ps ++ 0 ∷ []) c n, ne→== c 37 p, ne→== c 85 q, ne→== c 117 r)
        (scan_null fuel)

  -- On a template, get_formatted_string returns what the template stands for, and NULL if that needs
  -- the name of a user who has none, or a code is unknown. %u stands for the name, and %U for the decimal
  -- numeral of the int that has the bits of the user's number, which from 2 ^ 31 on is a negative one.
  -- A template has no double percent sign, allocations succeed, a user's name is a string, and the
  -- number has 32 bits.
  pub get_formatted_string-source :
      {ps : List Piece}
      → uid < 2 ^ 32
      → IsTemplate ps
      → ((user : List ℕ) → name ≡ some user → IsString user)
      → (number : List ℕ) × IsIntNumeral uid number
        × (get_formatted_string malloc name uid (source ps) ≡ returned [] (expand name number ps))
  unfolding get_formatted_string scan
  get_formatted_string-source {ps} word template names = (
    decimal uid,
    decimal-IsIntNumeral uid word,
    rw (room (length (source ps) + 1)) (
        formats [] (length (source ps)) (suc (length (source ps))) template string-nil names
          (omega arith) (omega arith)),
  )
