-- ===== src/Export/Lucid.antt =====
-- gp_format_linux_lucid_v1 of src/gp_export.c: a context as the kernel takes it.
use gssproxy.Prelude.{
  ℕ, ◌+◌, List, ◌++◌, Bool, ◌&&◌, ◌||◌, not, ◌==◌, if◌then◌else◌, length, Result, ok, err, enomem,
  enotsup,
}

-- gss_krb5_lucid_key_t
pub record LucidKey : Type 0 where
  pub type : ℕ
  pub octets : List ℕ

-- gss_krb5_lucid_context_v1_t, as far as the code reads it.
pub record Lucid : Type 0 where
  pub version : ℕ
  pub protocol : ℕ
  pub initiate : Bool
  pub endtime : ℕ
  pub send_seq : ℕ
  pub rfc1964_key : LucidKey
  pub have_acceptor_subkey : ℕ
  pub ctx_key : LucidKey
  pub acceptor_subkey : LucidKey

-- The bytes of a uint32_t and of a uint64_t in memory.
pub record Machine : Type 0 where
  pub word : ℕ → List ℕ
  pub long : ℕ → List ℕ

unfoldable pub has_subkey : Lucid → Bool
has_subkey lucid = (lucid.protocol == 1) && (lucid.have_acceptor_subkey == 1)

-- The flags are single bits: KRB5_CTX_FLAG_INITIATOR, _CFX and _ACCEPTOR_SUBKEY.
unfoldable pub lucid_flags : Lucid → ℕ
unfolding has_subkey
lucid_flags lucid =
    (if lucid.initiate then 1 else 0)
    + (if lucid.protocol == 1 then 2 else 0)
    + (if has_subkey lucid then 4 else 0)

unfoldable pub lucid_key : Lucid → LucidKey
lucid_key lucid =
    if lucid.protocol == 0
    then lucid.rfc1964_key
    else if lucid.have_acceptor_subkey == 1
    then lucid.acceptor_subkey
    else lucid.ctx_key

unfoldable pub format_linux_lucid_v1 : Machine → (ℕ → Bool) → Lucid → Result (List ℕ)
unfolding lucid_flags lucid_key
format_linux_lucid_v1 machine malloc lucid =
    if not (lucid.version == 1) || (not (lucid.protocol == 0) && not (lucid.protocol == 1))
    then err enotsup
    else if malloc (20 + length (lucid_key lucid).octets)
    then ok (
        machine.word (lucid_flags lucid)
        ++ machine.word lucid.endtime
        ++ machine.long lucid.send_seq
        ++ machine.word (lucid_key lucid).type
        ++ (lucid_key lucid).octets)
    else err enomem
