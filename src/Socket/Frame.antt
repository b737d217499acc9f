-- ===== src/Socket/Frame.antt =====
-- The framing of messages on a stream socket, shared by src/gp_socket.c and src/client/gpm_common.c:
-- a length of 32 bits in network order, with FRAGMENT_BIT set, and the message.
use gssproxy.Prelude.{
  ℕ, ◌+◌, ◌-◌, ◌*◌, ◌/◌, ◌%◌, ◌^◌, ◌<◌, ◌≡◌, refl, List, [], ◌∷◌, Option, some, none, length, arith,
  leb, if◌then◌else◌,
}

-- FRAGMENT_BIT, (1 << 31)
abbrev pub fragment_bit : ℕ
fragment_bit = 2147483648

-- htonl, and the four bytes of its result
unfoldable pub htonl : ℕ → List ℕ
htonl n = (n / 2 ^ 24 % 256) ∷ (n / 2 ^ 16 % 256) ∷ (n / 2 ^ 8 % 256) ∷ (n % 256) ∷ []

-- ntohl of four bytes; `none` for any other number of bytes.
unfoldable pub ntohl : List ℕ → Option ℕ
ntohl (a ∷ b ∷ c ∷ d ∷ []) = some (a * 2 ^ 24 + b * 2 ^ 16 + c * 2 ^ 8 + d)
ntohl _ = none

-- size | FRAGMENT_BIT, and size & ~FRAGMENT_BIT, of a number of 32 bits.
unfoldable pub set_fragment : ℕ → ℕ
set_fragment n = if leb fragment_bit n then n else n + fragment_bit

unfoldable pub clear_fragment : ℕ → ℕ
clear_fragment n = if leb fragment_bit n then n - fragment_bit else n

-- What goes over the wire for a message.
unfoldable pub header : ℕ → List ℕ
unfolding htonl set_fragment
header size = htonl (set_fragment size)

pub ntohl-header : (n : ℕ) → n < fragment_bit → ntohl (header n) ≡ some (n + fragment_bit)
unfolding header ntohl
ntohl-header n small = ground arith

pub length-header : (n : ℕ) → length (header n) ≡ 4
unfolding header
length-header n = refl
