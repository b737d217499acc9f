-- ===== src/Tests/Machines.antt =====
-- A machine that stores the high byte of a number first: an instance of the parameter Machine of the
-- model, for the examples.
use gssproxy.Prelude.{
  ℕ, ◌*◌, ◌+◌, ◌/◌, ◌%◌, ◌^◌, ◌≡◌, refl, List, ◌++◌, append_assoc, Option, some, ◌>>=◌, arith,
}
use gssproxy.Export.Lucid.{Machine}
use gssproxy.Export.Kernel.{Reader, IsMachine}
use gssproxy.Tests.Rfc.{rfc4506, rfc4506-IsXdr}

-- A number of 64 bits is two words.
abbrev pub machine : Machine
machine = record {
  word = rfc4506.u_int;
  long = λ n. rfc4506.u_int (n / 2 ^ 32) ++ rfc4506.u_int (n % 2 ^ 32);
}

abbrev read_two : List ℕ → Option (ℕ × List ℕ)
read_two octets = do
  (high, octets) ← rfc4506.get_u_int octets
  (low, octets) ← rfc4506.get_u_int octets
  some (high * 2 ^ 32 + low, octets)

abbrev pub reader : Reader
reader = record { read_word = rfc4506.get_u_int; read_long = read_two }

pub machine-IsMachine : IsMachine machine reader
machine-IsMachine = record {
  read-word = rfc4506-IsXdr.get_u_int-u_int;
  read-long = λ n rest small.
      let whole : n / 2 ^ 32 * 2 ^ 32 + n % 2 ^ 32 ≡ n = omega arith in
      rw
        (
          append_assoc (rfc4506.u_int (n / 2 ^ 32)) (rfc4506.u_int (n % 2 ^ 32)) rest,
          rfc4506-IsXdr.get_u_int-u_int (n / 2 ^ 32) (rfc4506.u_int (n % 2 ^ 32) ++ rest)
              (omega (arith, small)),
          rfc4506-IsXdr.get_u_int-u_int (n % 2 ^ 32) rest (omega arith),
          whole,
        )
        refl;
}
