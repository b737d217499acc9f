-- ===== src/Tests/Services.antt =====
-- A connection of an ordinary user, matched against three services.
use Prim.Native.String.{String}
use gssproxy.Prelude.{ℕ, ◌≡◌, refl, List, [], ◌∷◌, Option, none, some, false}
use gssproxy.Creds.Service.{SelinuxCtx, both, Service, Conn}
use gssproxy.Creds.Match.{same, check_selinux, wrong_program, wrong_socket, skips, match_conn}
use gssproxy.Creds.Admits.{Finds, match_conn-Finds}

-- The service HTTP of user 48, with one user and one socket to choose.
abbrev pub service : ℕ → Option SelinuxCtx → Option String → Service
service uid ctx socket = record {
  name = "HTTP";
  euid = uid;
  any_uid = false;
  allow_proto_trans = false;
  allow_const_deleg = false;
  allow_cc_sync = false;
  trusted = false;
  kernel_nfsd = false;
  impersonate = false;
  socket = socket;
  selinux_ctx = ctx;
  cred_usage = both;
  filter_flags = 0;
  enforce_flags = 0;
  min_lifetime = 15;
  program = none;
  mechs = 1;
  krb5 = record { principal = none; store = [] };
}

abbrev httpd_t : SelinuxCtx
httpd_t = record { user = "system_u"; role = "system_r"; type = "httpd_t"; range = none }

abbrev pub client : Conn
client = record {
  uid = 48;
  cred_selinux = false;
  selinux_ctx = none;
  program = some "/usr/sbin/httpd";
  socket = some "/run/gssproxy.sock";
}

abbrev pub services : List Service
services =
    service 0 none none
    ∷ service 48 (some httpd_t) none
    ∷ service 48 none none
    ∷ service 48 none (some "/run/other.sock")
    ∷ []

match_conn-Finds_example :
    Finds
      (some "/run/gssproxy.sock")
      client
      services
      (match_conn (some "/run/gssproxy.sock") client services)
match_conn-Finds_example = match_conn-Finds (some "/run/gssproxy.sock") client services

match_conn_runs :
    match_conn (some "/run/gssproxy.sock") client services ≡ some (service 48 none none)
unfolding match_conn skips check_selinux wrong_program wrong_socket same
match_conn_runs = refl
