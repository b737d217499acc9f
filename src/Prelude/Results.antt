-- ===== src/Prelude/Results.antt =====
-- The error numbers that the modelled functions return or test, and an `int` result: 0 or an errno.

-- `other` stands for the error numbers that no modelled function tests or returns by name.
pub data Errno : Type 0 where
  eacces eagain ebadf ebadfd efault einval eintr eio emsgsize enoent enomem enospc erange esrch
        enotsup etimedout :
      Errno
  other : Errno

-- `int ret`, where 0 is success.
pub data Ret : Type 0 where
  success : Ret
  failure : Errno → Ret

-- A result with the value that is only set on success.
pub data Result {ℓ} (A : Type ℓ) : Type ℓ where
  ok : A → Result A
  err : Errno → Result A
