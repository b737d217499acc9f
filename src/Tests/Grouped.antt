-- ===== src/Tests/Grouped.antt =====
-- A client in three groups, for the kernel: src/gp_export.c.
use gssproxy.Prelude.{ℕ, ◌≡◌, refl, List, [], ◌∷◌, true, eintr}
use gssproxy.Export.Linux.{
  Passwd, entry, lookup_error, NssCalls, local, no_answer, exported, waiting, words, look_up,
  with_user, export_creds_linux,
}
use gssproxy.Export.Groups.{
  answer, sent_groups, export_creds_linux-groups, export_creds_linux_waits,
}

abbrev bob : Passwd
bob = record { pw_name = 98 ∷ []; pw_uid = 1000; pw_gid = 100 }

abbrev bobs_groups : List ℕ
bobs_groups = 100 ∷ 10 ∷ 20 ∷ []

-- The call that finds the user is interrupted once; the bytes of a number are its word alone.
abbrev nss : NssCalls
nss = record {
  malloc = λ n. true;
  getpwnam = λ name. lookup_error eintr ∷ entry bob ∷ [];
  getgrouplist = λ name gid count. answer bobs_groups count;
  word = λ n. n ∷ [];
}

export_creds_linux-groups_example :
    export_creds_linux nss (local (98 ∷ [])) ≡ sent_groups nss bob bobs_groups
export_creds_linux-groups_example =
    export_creds_linux-groups nss (98 ∷ []) 1 bob [] bobs_groups (λ n. refl) refl (λ n. refl)

sent : sent_groups nss bob bobs_groups ≡ exported (1000 ∷ 100 ∷ 3 ∷ 100 ∷ 10 ∷ 20 ∷ [])
unfolding words
sent = refl

-- A lookup that is interrupted, and then does not come back.
abbrev stuck : NssCalls
stuck = record nss { getpwnam = λ name. lookup_error eintr ∷ [] }

waits : export_creds_linux stuck (local (98 ∷ [])) ≡ waiting
unfolding export_creds_linux with_user look_up
waits = refl

export_creds_linux_waits_example :
    (name : List ℕ) × (local (98 ∷ []) ≡ local name)
    × (look_up stuck (stuck.getpwnam name) 1024 ≡ no_answer)
export_creds_linux_waits_example = export_creds_linux_waits stuck (local (98 ∷ [])) waits
