-- ===== src/Export/Groups.antt =====
-- The groups of a user that the kernel gets: gp_export_creds_linux of src/gp_export.c.
use native.Mathlib.Nat.{mul-le-mul_right, pow-suc}
use gssproxy.Prelude.{
  ℕ, suc, zero, ◌+◌, ◌*◌, ◌^◌, ◌≡◌, ◌≢◌, ◌≤◌, refl, ap, ◌∙◌, List, ◌∷◌, ◌++◌, Bool, true, false,
  Bool-cases, if◌then◌else◌, length, leb, le→leb, ◌<◌, replicate, eintr, enoent, enospc, ◌⊎◌, inl,
  inr, arith,
}
use gssproxy.Gss.Status.{failure, errno}
use gssproxy.Export.Linux.{
  Passwd, Looked, entry, lookup_error, Local, local, no_local, NssCalls, ngroups_max, User, user,
  nobody, no_answer, no_user, Groups, creds_hdr, groups, no_groups, unfinished, Exported, exported,
  refused, waiting, min_of, look_up, next_count, after_list, list_groups, words,
  export_creds_enoent, filled, with_user, export_creds_linux,
}

-- getgrouplist of a user in these groups, as its manual says.
abbrev pub answer : List ℕ → ℕ → List ℕ ⊎ ℕ
answer gs count = if leb (length gs) count then inl gs else inr (length gs)

-- The count doubles, as long as it may.
next_count_lem :
    (nss : NssCalls) (count num : ℕ)
    → (next_count nss count num ≡ ngroups_max) ⊎ (count * 2 ≤ next_count nss count num)
unfolding next_count min_of
next_count_lem nss count num = ground arith

after_list_ends :
    (nss : NssCalls) (again : ℕ → Groups)
    → ((num : ℕ) → again num ≢ unfinished)
    → (r : List ℕ ⊎ ℕ) → after_list nss again r ≢ unfinished
unfolding after_list
after_list_ends nss again ends (inl gs) h = cc
after_list_ends nss again ends (inr num) h = ends num h

turn_ends :
    (nss : NssCalls) (n : ℕ) (pwd : Passwd) (count num : ℕ)
    → (leb ngroups_max count ≡ false
        → (num' : ℕ) → list_groups nss n pwd (next_count nss count num) num' ≢ unfinished)
    → list_groups nss (suc n) pwd count num ≢ unfinished
unfolding list_groups
turn_ends nss n pwd count num further h = elim (Bool-cases (leb ngroups_max count)) [
  | inl full ↦ let h' = rw full at h in cc
  | inr room ↦
      let h' = rw room at h in
      elim (Bool-cases (nss.malloc (next_count nss count num * 4 + creds_hdr))) [
        | inr failed ↦ let h'' = rw failed at h' in cc
        | inl there ↦
            let h'' = rw there at h' in
            after_list_ends nss (list_groups nss n pwd (next_count nss count num)) (further room)
              (nss.getgrouplist pwd.pw_name pwd.pw_gid (next_count nss count num)) h''
      ]
]

pow_pos : (m : ℕ) → 1 ≤ 2 ^ m
pow_pos zero = omega arith
pow_pos (suc m) = omega (arith, pow-suc 2 m, pow_pos m)

-- What is left of the fuel still suffices for the next count.
next_count_suffices :
    (nss : NssCalls) (m count num : ℕ)
    → ngroups_max ≤ count * 2 ^ suc m
    → ngroups_max ≤ next_count nss count num * 2 ^ m
next_count_suffices nss m count num big = elim (next_count_lem nss count num) [
  | inl top ↦ omega (arith, ap (λ n. n * 2 ^ m) top, pow_pos m)
  | inr twice ↦
      omega (arith, mul-le-mul_right (2 ^ m) twice, big, ap (λ p. count * p) (pow-suc 2 m))
]

-- Fuel for the doublings that are left is enough.
list_groups_ends :
    (nss : NssCalls) (n : ℕ) (pwd : Passwd) (count num : ℕ)
    → ngroups_max ≤ count * 2 ^ n
    → list_groups nss (suc n) pwd count num ≢ unfinished
list_groups_ends nss zero pwd count num big =
    turn_ends nss zero pwd count num (λ room num'. absurd (ground (arith, big, room)))
list_groups_ends nss (suc m) pwd count num big = turn_ends nss (suc m) pwd count num (λ room num'.
    list_groups_ends nss m pwd (next_count nss count num) num'
      (next_count_suffices nss m count num big))

lt→leb : (a b : ℕ) → b < a → leb a b ≡ false
lt→leb a b h = ground (arith, h)

module _ (nss : NssCalls) (room : (n : ℕ) → nss.malloc n ≡ true) where
  module _ (pwd : Passwd) (gs : List ℕ)
      (lists : (n : ℕ) → nss.getgrouplist pwd.pw_name pwd.pw_gid n ≡ answer gs n) where
    turn_full :
        (n count num : ℕ)
        → ngroups_max ≤ count
        → list_groups nss (suc n) pwd count num ≡ no_groups enospc
    unfolding list_groups
    turn_full n count num full = rw (le→leb ngroups_max count full) refl

    -- The groups that fit end the loop, and others give their number.
    turn_listed :
        (n count num : ℕ)
        → count < ngroups_max
        → list_groups nss (suc n) pwd count num ≡ (
            if leb (length gs) (next_count nss count num)
            then groups gs
            else list_groups nss n pwd (next_count nss count num) (length gs))
    unfolding list_groups after_list
    turn_listed n count num small =
        rw
          (
            lt→leb ngroups_max count small,
            room (next_count nss count num * 4 + creds_hdr),
            lists (next_count nss count num),
          )
          (fits (leb (length gs) (next_count nss count num)))
      where
        fits :
            (b : Bool)
            → after_list nss
                (list_groups nss n pwd (next_count nss count num))
                (if b then inl gs else inr (length gs))
              ≡ (if b
                  then groups gs
                  else list_groups nss n pwd (next_count nss count num) (length gs))
        fits true = refl
        fits false = refl

    list_groups-answer :
        list_groups nss 9 pwd 256 0
        ≡ (if leb (length gs) ngroups_max then groups gs else no_groups enospc)
    unfolding next_count min_of
    list_groups-answer = turn_listed 8 256 0 (omega arith) ∙ second
      where
        third :
            (if leb (length gs) (next_count nss 512 (length gs))
              then groups gs
              else list_groups nss 7 pwd (next_count nss 512 (length gs)) (length gs))
            ≡ (if leb (length gs) ngroups_max then groups gs else no_groups enospc)
        third = elim (Bool-cases (leb (length gs) ngroups_max)) [
          | inl fits ↦
              let enough : leb (length gs) (next_count nss 512 (length gs)) ≡ true =
                ground (arith, fits) in
              rw (fits, enough) refl
          | inr many ↦
              let short : leb (length gs) (next_count nss 512 (length gs)) ≡ false =
                ground (arith, many) in
              rw (many, short)
                (turn_full 6 (next_count nss 512 (length gs)) (length gs) (ground (arith, many)))
        ]

        second :
            (if leb (length gs) 512 then groups gs else list_groups nss 8 pwd 512 (length gs))
            ≡ (if leb (length gs) ngroups_max then groups gs else no_groups enospc)
        second = elim (Bool-cases (leb (length gs) 512)) [
          | inl few ↦
              let most : leb (length gs) ngroups_max ≡ true = ground (arith, few) in
              rw (few, most) refl
          | inr many ↦ rw many (turn_listed 7 512 (length gs) (omega arith) ∙ third)
        ]

  -- Interrupted calls are made again.
  look_up_interrupted :
      (i len : ℕ) (more : List Looked) (pwd : Passwd)
      → look_up nss (replicate i (lookup_error eintr) ++ entry pwd ∷ more) len ≡ user pwd
  unfolding look_up
  look_up_interrupted zero len more pwd = refl
  look_up_interrupted (suc i) len more pwd = look_up_interrupted i len more pwd

-- What gp_export_creds_linux gives for the groups of a user.
abbrev pub sent_groups : (nss : NssCalls) → Passwd → List ℕ → Exported
sent_groups nss pwd gs =
    if leb (length gs) ngroups_max
    then exported (words nss (pwd.pw_uid ∷ pwd.pw_gid ∷ length gs ∷ gs))
    else refused failure (errno enospc)

-- For a client who is a user of the system, however often getpwnam_r is interrupted before it gives the
-- entry, gp_export_creds_linux exports the user, the group, the number of the groups and all the groups,
-- or, for more than NGROUPS_MAX groups, fails with ENOSPC. Allocations succeed, and getgrouplist does as
-- its manual says.
pub export_creds_linux-groups :
    (nss : NssCalls) (name : List ℕ) (i : ℕ) (pwd : Passwd) (more : List Looked) (gs : List ℕ)
    → ((n : ℕ) → nss.malloc n ≡ true)
    → nss.getpwnam name ≡ replicate i (lookup_error eintr) ++ entry pwd ∷ more
    → ((n : ℕ) → nss.getgrouplist pwd.pw_name pwd.pw_gid n ≡ answer gs n)
    → export_creds_linux nss (local name) ≡ sent_groups nss pwd gs
unfolding export_creds_linux with_user filled
export_creds_linux-groups nss name i pwd more gs room looks lists =
    rw (room 1024, looks, look_up_interrupted nss room i 1024 more pwd)
      (ap (filled nss pwd) (list_groups-answer nss room pwd gs lists)
        ∙ chosen (leb (length gs) ngroups_max))
  where
    chosen :
        (b : Bool)
        → filled nss pwd (if b then groups gs else no_groups enospc) ≡ (
            if b
            then exported (words nss (pwd.pw_uid ∷ pwd.pw_gid ∷ length gs ∷ gs))
            else refused failure (errno enospc))
    chosen true = refl
    chosen false = refl

enoent_waits_not : (nss : NssCalls) → export_creds_enoent nss ≢ waiting
unfolding export_creds_enoent
enoent_waits_not nss h = elim (Bool-cases (nss.malloc creds_hdr)) [
  | inl there ↦ let h' = rw there at h in cc
  | inr failed ↦ let h' = rw failed at h in cc
]

filled_waits :
    (nss : NssCalls) (pwd : Passwd) (g : Groups) → filled nss pwd g ≡ waiting → g ≡ unfinished
unfolding filled
filled_waits nss pwd (groups gs) h = cc
filled_waits nss pwd (no_groups e) h = cc
filled_waits nss pwd unfinished h = refl

with_user_waits : (nss : NssCalls) (u : User) → with_user nss u ≡ waiting → u ≡ no_answer
unfolding with_user
with_user_waits nss (user pwd) h = absurd (
    list_groups_ends nss 8 pwd 256 0 (omega arith)
      (filled_waits nss pwd (list_groups nss 9 pwd 256 0) h))
with_user_waits nss nobody h = absurd (enoent_waits_not nss h)
with_user_waits nss no_answer h = refl
with_user_waits nss (no_user e) h = cc

-- gp_export_creds_linux waits only for a call of getpwnam_r that does not return: the loop over the
-- groups ends, whatever getgrouplist gives.
pub export_creds_linux_waits :
    (nss : NssCalls) (l : Local)
    → export_creds_linux nss l ≡ waiting
    → (name : List ℕ) × (l ≡ local name) × (look_up nss (nss.getpwnam name) 1024 ≡ no_answer)
unfolding export_creds_linux
export_creds_linux_waits nss (no_local maj (errno enoent)) h = absurd (enoent_waits_not nss h)
export_creds_linux_waits nss (no_local maj min) h = cc
export_creds_linux_waits nss (local name) h = elim (Bool-cases (nss.malloc 1024)) [
  | inl there ↦
      let h' = rw there at h in
      (name, refl, with_user_waits nss (look_up nss (nss.getpwnam name) 1024) h')
  | inr failed ↦ let h' = rw failed at h in cc
]
