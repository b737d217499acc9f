-- ===== src/Client/Xid.antt =====
-- The transaction ids of gpm_next_xid of src/client/gpm_common.c.
use gssproxy.Prelude.{ℕ, zero, suc, ◌+◌, ◌%◌, ◌<◌, ◌≡◌, ◌≢◌, leb, if◌then◌else◌, arith}
use gssproxy.Client.Loop.{next_xid}

-- The id of the call `k` from the state `n`, the first call being 0.
pub xid_of : ℕ → ℕ → ℕ
unfolding next_xid
xid_of zero n = (next_xid n).0
xid_of (suc k) n = xid_of k (next_xid n).1

-- The first id: 0 for a negative int.
pub first_xid : ℕ → ℕ
first_xid n = if leb 2147483648 n then 0 else n

xid_of_mod : (k n : ℕ) → xid_of k n ≡ (first_xid n + k) % 2147483648
unfolding xid_of next_xid first_xid
xid_of_mod zero n = ground arith
xid_of_mod (suc k) n = ground (arith, xid_of_mod k (next_xid n).1)

-- From any random state, the ids of the calls are below 2 ^ 31, and the ids of two calls with fewer
-- than 2 ^ 31 calls from one to the other differ. The increment of the int is taken to wrap around.
pub xid_of_distinct :
    (n i j : ℕ) → i < j → j < i + 2147483648 → (xid_of i n < 2147483648) × (xid_of i n ≢ xid_of j n)
xid_of_distinct n i j before near = (
  omega (arith, xid_of_mod i n),
  λ same. omega (arith, xid_of_mod i n, xid_of_mod j n, same, before, near),
)
