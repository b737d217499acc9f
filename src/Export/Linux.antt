-- ===== src/Export/Linux.antt =====
-- gp_export_creds_linux of src/gp_export.c: the user, the group and the groups of a client, for the
-- kernel's NFS server.
use gssproxy.Prelude.{
  ℕ, suc, zero, ◌+◌, ◌*◌, ◌-◌, ◌^◌, List, [], ◌∷◌, ◌++◌, Bool, if◌then◌else◌, length, ltb, leb,
  ◌==◌, Errno, eintr, enoent, enomem, enospc, erange, esrch, ◌⊎◌, inl, inr,
}
use gssproxy.Gss.Status.{Major, failure, Minor, errno}

-- struct passwd
pub record Passwd : Type 0 where
  pub pw_name : List ℕ
  pub pw_uid : ℕ
  pub pw_gid : ℕ

-- What a call of getpwnam_r gives: an entry, NULL, or an error.
pub data Looked : Type 0 where
  entry : Passwd → Looked
  no_entry : Looked
  lookup_error : Errno → Looked

-- What gss_localname gives.
pub data Local : Type 0 where
  local : List ℕ → Local
  no_local : Major → Minor → Local

-- The calls: the results of getpwnam_r one after the other, and getgrouplist, which gives the groups,
-- or returns -1 and the number of groups. `word` are the bytes of a uint32_t in memory.
pub record NssCalls : Type 0 where
  pub malloc : ℕ → Bool
  pub getpwnam : List ℕ → List Looked
  pub getgrouplist : List ℕ → ℕ → ℕ → List ℕ ⊎ ℕ
  pub word : ℕ → List ℕ

abbrev pub ngroups_max : ℕ
ngroups_max = 65536

-- CREDS_BUF_MAX and CREDS_HDR
abbrev pub creds_buf_max : ℕ
creds_buf_max = 262144

abbrev pub creds_hdr : ℕ
creds_hdr = 12

-- What comes of the lookup; `no_answer` is a call of getpwnam_r that has not returned.
pub data User : Type 0 where
  user : Passwd → User
  nobody no_answer : User
  no_user : Errno → User

-- The groups, the errno of a failure, or the turn after the last of the fuel.
pub data Groups : Type 0 where
  groups : List ℕ → Groups
  no_groups : Errno → Groups
  unfinished : Groups

-- What the function gives: the buffer, or the two statuses.
pub data Exported : Type 0 where
  exported : List ℕ → Exported
  refused : Major → Minor → Exported
  waiting : Exported

unfoldable pub min_of : ℕ → ℕ → ℕ
min_of a b = if ltb b a then b else a

module _ (nss : NssCalls) where
  -- The turn after an ERANGE, with the next length of the buffer.
  unfoldable pub grown : ℕ → (ℕ → User) → User
  unfolding min_of
  grown len again =
      if len == creds_buf_max
      then no_user enospc
      else if nss.malloc (min_of (len * 2) creds_buf_max)
      then again (min_of (len * 2) creds_buf_max)
      else no_user enomem

  -- The loop over getpwnam_r, and the switch behind it.
  unfoldable pub look_up : List Looked → ℕ → User
  unfolding grown
  look_up [] len = no_answer
  look_up (entry pwd ∷ more) len = user pwd
  look_up (no_entry ∷ more) len = nobody
  look_up (lookup_error eintr ∷ more) len = look_up more len
  look_up (lookup_error erange ∷ more) len = grown len (look_up more)
  look_up (lookup_error enoent ∷ more) len = nobody
  look_up (lookup_error esrch ∷ more) len = nobody
  look_up (lookup_error e ∷ more) len = no_user e

  -- The next count of groups, from the one before and the number that getgrouplist has given.
  unfoldable pub next_count : ℕ → ℕ → ℕ
  unfolding min_of
  next_count count num = min_of (if ltb (count * 2) num then num else count * 2) ngroups_max

  unfoldable pub after_list : (ℕ → Groups) → List ℕ ⊎ ℕ → Groups
  after_list again (inl gs) = groups gs
  after_list again (inr num) = again num

  -- The loop over getgrouplist.
  unfoldable pub list_groups : ℕ → Passwd → ℕ → ℕ → Groups
  unfolding next_count after_list
  list_groups zero pwd count num = unfinished
  list_groups (suc fuel) pwd count num =
      let next = next_count count num in
      let further = list_groups fuel pwd next in
      if leb ngroups_max count
      then no_groups enospc
      else if nss.malloc (next * 4 + creds_hdr)
      then after_list further (nss.getgrouplist pwd.pw_name pwd.pw_gid next)
      else no_groups enomem

  unfoldable pub words : List ℕ → List ℕ
  words [] = []
  words (n ∷ ns) = nss.word n ++ words ns

  -- gp_export_creds_enoent, where -1 is the largest uint32_t
  unfoldable pub export_creds_enoent : Exported
  unfolding words
  export_creds_enoent =
      if nss.malloc creds_hdr
      then exported (words ((2 ^ 32 - 1) ∷ (2 ^ 32 - 1) ∷ 0 ∷ []))
      else refused failure (errno enomem)

  unfoldable pub filled : Passwd → Groups → Exported
  unfolding words
  filled pwd (groups gs) = exported (words (pwd.pw_uid ∷ pwd.pw_gid ∷ length gs ∷ gs))
  filled pwd (no_groups e) = refused failure (errno e)
  filled pwd unfinished = waiting

  -- The fuel for the groups: the count is doubled from 256 to NGROUPS_MAX.
  unfoldable pub with_user : User → Exported
  unfolding export_creds_enoent filled list_groups
  with_user (user pwd) = filled pwd (list_groups 9 pwd 256 0)
  with_user nobody = export_creds_enoent
  with_user no_answer = waiting
  with_user (no_user e) = refused failure (errno e)

  -- gp_export_creds_linux
  unfoldable pub export_creds_linux : Local → Exported
  unfolding with_user look_up export_creds_enoent
  export_creds_linux (no_local maj (errno enoent)) = export_creds_enoent
  export_creds_linux (no_local maj min) = refused maj min
  export_creds_linux (local name) =
      if nss.malloc 1024
      then with_user (look_up (nss.getpwnam name) 1024)
      else refused failure (errno enomem)
