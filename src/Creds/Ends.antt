-- ===== src/Creds/Ends.antt =====
-- The loop of get_formatted_string ends: each turn leaves fewer bytes behind the pointer, also where
-- it removes a sign or puts a longer text in.
use gssproxy.Prelude.{
  ℕ, zero, suc, ◌+◌, ◌-◌, ◌<◌, ◌≤◌, ◌≡◌, ◌≢◌, refl, ap, sym, ◌∙◌, List, [], ◌∷◌, ◌++◌, Option, none,
  some, Bool, length, length-append, take, drop, take-drop, length-drop, leb, leb→le, ◌==◌, ◌&&◌,
  Bool-cases, inl, inr, arith,
}
use gssproxy.Creds.Format.{
  Percent, beyond, absent, found, strchr, memmove, Scan, Turn, undefined, null, scanning, formatted,
  c_string, pointed, replaced, printed, removed, user_replaced, ended, format_code, after_strchr,
  turn, scan, get_formatted_string, decimal,
}

-- The length that the code keeps is at most that of what the allocation holds before its end.
abbrev IsCounted : Scan → Type 0
IsCounted s = s.len < length s.before + length s.after

-- A turn that goes on leaves fewer bytes than there were.
data Shrinks (n : ℕ) : Turn → Type 0 where
  shrinks-undefined : Shrinks n undefined
  shrinks-null : Shrinks n null
  shrinks-formatted : (out : List ℕ) → Shrinks n (formatted out)
  shrinks-scanning : (s : Scan) → length s.after < n → IsCounted s → Shrinks n (scanning s)

data Splits (total rest : ℕ) : Percent → Type 0 where
  splits-beyond : Splits total rest beyond
  splits-absent : Splits total rest absent
  splits-found :
      (before after : List ℕ)
      → length before + length after ≡ total
      → length after < rest
      → 0 < length before
      → Splits total rest (found before after)

ended-Shrinks : {n : ℕ} (o : Option (List ℕ)) → Shrinks n (ended o)
unfolding ended
ended-Shrinks none = shrinks-undefined
ended-Shrinks (some out) = shrinks-formatted out

strchr-Splits :
    (before cs : List ℕ) (total n : ℕ)
    → length before + length cs ≡ total
    → length cs ≤ n
    → Splits total n (strchr before cs)
unfolding strchr
strchr-Splits before [] total n whole few = splits-beyond
strchr-Splits before (c ∷ cs) total n whole few = elim (Bool-cases (c == 37)) [
  | inl sign ↦ rw sign (
      splits-found (before ++ c ∷ []) cs (omega (arith, length-append before (c ∷ [])))
        (omega arith) (omega (arith, length-append before (c ∷ []))))
  | inr other ↦ elim (Bool-cases (c == 0)) [
    | inl nul ↦ rw (other, nul) splits-absent
    | inr more ↦
        rw (other, more)
          (strchr-Splits (before ++ c ∷ []) cs total n
            (omega (arith, length-append before (c ∷ []))) (omega arith))
  ]
]

length-parts : (k : ℕ) (xs : List ℕ) → length (take k xs) + length (drop k xs) ≡ length xs
length-parts k xs = sym (length-append (take k xs) (drop k xs)) ∙ ap length (take-drop k xs)

pointed-Shrinks :
    (left old_len : ℕ) (tmp : List ℕ) (n : ℕ)
    → old_len + 1 < left + n
    → Shrinks n (pointed left old_len tmp)
unfolding pointed
pointed-Shrinks left old_len tmp n few =
    let at = length tmp + left - old_len in
    elim (Bool-cases (leb old_len (length tmp + left) && leb at (length tmp))) [
      | inl fits ↦
          let inside : (old_len ≤ length tmp + left) × (at ≤ length tmp) =
            (ground arith, ground arith) in
          let behind =
            length-drop at (tmp ++ 0 ∷ []) ∙ ap (λ m. m - at) (length-append tmp (0 ∷ [])) in
          rw fits (
            shrinks-scanning _ (omega (arith, inside.0, inside.1, behind))
              (omega (arith, inside.0, inside.1, behind, length-parts at tmp, length-drop at tmp)))
      | inr beyond_end ↦ rw beyond_end shrinks-undefined
    ]

replaced-Shrinks :
    (malloc : ℕ → Bool) (text : List ℕ) (s : Scan) (n : ℕ)
    → s.len + 1 < length s.before + n
    → Shrinks n (replaced malloc text s)
unfolding replaced
replaced-Shrinks malloc text s n few = printed-Shrinks (c_string s.after)
  where
    printed-Shrinks : (o : Option (List ℕ)) → Shrinks n (printed malloc text s o)
    printed-Shrinks none = shrinks-undefined
    printed-Shrinks (some rest) =
        let tmp = take (length s.before - 2) s.before ++ text ++ rest in
        elim (Bool-cases (malloc (length tmp + 1))) [
          | inl room ↦ rw room (pointed-Shrinks (length s.before) s.len tmp n few)
          | inr full ↦ rw full shrinks-null
        ]

memmove-length :
    (k : ℕ) (cs : List ℕ) {moved : List ℕ} → memmove k cs ≡ some moved → length moved ≡ length cs
unfolding memmove
memmove-length k [] h = cc
memmove-length k (c ∷ cs) {moved} h = elim (Bool-cases (leb k (length cs))) [
  | inl fits ↦
      let same : moved ≡ take k cs ++ drop k (c ∷ cs) = (let e = rw fits at h in cc) in
      ap length same
      ∙ omega (
        arith,
        leb→le _ _ fits,
        length-append (take k cs) (drop k (c ∷ cs)),
        length-parts k cs,
        length-drop k cs,
        length-drop k (c ∷ cs),
      )
  | inr beyond_end ↦ let e = rw beyond_end at h in cc
]

format_code-Shrinks :
    (malloc : ℕ → Bool) (name : Option (List ℕ)) (uid : ℕ) (s : Scan) (c : ℕ) (cs : List ℕ) (n : ℕ)
    → length cs + 1 < n
    → s.len < length s.before + (length cs + 1)
    → Shrinks n (format_code malloc name uid s c cs)
unfolding format_code
format_code-Shrinks malloc name uid s c cs n few counted = elim (Bool-cases (c == 37)) [
  | inl sign ↦ rw sign (removed-Shrinks (memmove (length s.before - 1) (c ∷ cs)) refl)
  | inr other ↦ elim (Bool-cases (c == 85)) [
    | inl uid_code ↦ rw (other, uid_code) (replaced_here (decimal uid))
    | inr no_uid ↦ elim (Bool-cases (c == 117)) [
      | inl user_code ↦ rw (other, no_uid, user_code) (user-Shrinks name)
      | inr invalid ↦ rw (other, no_uid, invalid) shrinks-null
    ]
  ]
]
  where
    next : Scan
    next = record { before = s.before ++ c ∷ []; after = cs; len = s.len }

    replaced_here : (text : List ℕ) → Shrinks n (replaced malloc text next)
    replaced_here text =
        replaced-Shrinks malloc text next n (omega (arith, length-append s.before (c ∷ [])))

    user-Shrinks : (o : Option (List ℕ)) → Shrinks n (user_replaced malloc o next)
    user-Shrinks none = shrinks-null
    user-Shrinks (some user) = replaced_here user

    removed-Shrinks :
        (o : Option (List ℕ)) → memmove (length s.before - 1) (c ∷ cs) ≡ o → Shrinks n (removed s o)
    removed-Shrinks none e = shrinks-undefined
    removed-Shrinks (some moved) e =
        let same = memmove-length (length s.before - 1) (c ∷ cs) e in
        shrinks-scanning _ (omega (arith, same)) (omega (arith, same))

turn-Shrinks :
    (malloc : ℕ → Bool) (name : Option (List ℕ)) (uid : ℕ) (s : Scan)
    → IsCounted s
    → Shrinks (length s.after) (turn malloc name uid s)
unfolding turn after_strchr
turn-Shrinks malloc name uid s counted = after-Shrinks (strchr s.before s.after) (
    strchr-Splits s.before s.after (length s.before + length s.after) (length s.after) refl
      (omega arith))
  where
    after-Shrinks :
        (f : Percent)
        → Splits (length s.before + length s.after) (length s.after) f
        → Shrinks (length s.after) (after_strchr malloc name uid s f)
    after-Shrinks beyond splits-beyond = shrinks-undefined
    after-Shrinks absent splits-absent = ended-Shrinks (c_string (s.before ++ s.after))
    after-Shrinks (found before []) (splits-found _ _ whole fewer some_before) = shrinks-undefined
    after-Shrinks (found before (c ∷ cs)) (splits-found _ _ whole fewer some_before) =
        format_code-Shrinks malloc name uid
          (record { before = before; after = c ∷ cs; len = s.len }) c cs (length s.after)
          (omega arith) (omega arith)

scan_ends :
    (malloc : ℕ → Bool) (name : Option (List ℕ)) (uid fuel n : ℕ) (t : Turn)
    → Shrinks n t
    → n ≤ fuel
    → (s : Scan) → scan fuel malloc name uid t ≢ scanning s
unfolding scan
scan_ends malloc name uid zero n undefined shrinks-undefined enough s h = cc
scan_ends malloc name uid zero n null shrinks-null enough s h = cc
scan_ends malloc name uid zero n (formatted out) (shrinks-formatted _) enough s h = cc
scan_ends malloc name uid zero n (scanning at) (shrinks-scanning _ fewer counted) enough s h =
    omega arith
scan_ends malloc name uid (suc fuel) n undefined shrinks-undefined enough s h = cc
scan_ends malloc name uid (suc fuel) n null shrinks-null enough s h = cc
scan_ends malloc name uid (suc fuel) n (formatted out) (shrinks-formatted _) enough s h = cc
scan_ends malloc name uid (suc fuel) n (scanning at) (shrinks-scanning _ fewer counted) enough s h =
    scan_ends malloc name uid fuel (length at.after) (turn malloc name uid at)
      (turn-Shrinks malloc name uid at counted) (omega arith) s h

-- get_formatted_string ends, whatever the string: the turns of its loop come to undefined behaviour,
-- to NULL or to a string before the fuel is used up.
pub get_formatted_string_ends :
    (malloc : ℕ → Bool) (name : Option (List ℕ)) (uid : ℕ) (orig : List ℕ) (s : Scan)
    → get_formatted_string malloc name uid orig ≢ scanning s
unfolding get_formatted_string
get_formatted_string_ends malloc name uid orig s h = elim (Bool-cases (malloc (length orig + 1))) [
  | inl room ↦
      let start : Scan = record { before = []; after = orig ++ 0 ∷ []; len = length orig } in
      let size = length-append orig (0 ∷ []) in
      scan_ends malloc name uid (suc (suc (length orig))) (suc (suc (length orig))) (scanning start)
        (shrinks-scanning start (omega (arith, size)) (omega (arith, size))) (omega arith) s
        (rw room at h)
  | inr full ↦ let e = rw full at h in cc
]
