-- ===== src/Creds/Match.antt =====
-- Which service a connection belongs to: gp_creds_match_conn of src/gp_creds.c, with gp_same of
-- src/gp_util.c and the SELinux tests of src/gp_socket.c.
use Prim.Native.String.{String}
use text.Mathlib.Text.{◌==◌ as str_eq}
use gssproxy.Prelude.{
  List, [], ◌∷◌, Option, none, some, Bool, true, false, not, ◌&&◌, ◌||◌, ◌==◌, if◌then◌else◌,
}
use gssproxy.Creds.Service.{SelinuxCtx, Service, Conn}

-- gp_same: strings or NULL.
unfoldable pub same : Option String → Option String → Bool
same none none = true
same none (some b) = false
same (some a) none = false
same (some a) (some b) = str_eq a b

-- The last test of gp_selinux_ctx_equal: a range that one side lacks is not compared.
unfoldable pub same_range : Option String → Option String → Bool
same_range (some a) (some b) = str_eq a b
same_range none b = true
same_range (some a) none = true

unfoldable pub same_parts : SelinuxCtx → SelinuxCtx → Bool
unfolding same_range
same_parts a b =
    if not (str_eq a.user b.user)
    then false
    else if not (str_eq a.role b.role)
    then false
    else if not (str_eq a.type b.type)
    then false
    else same_range a.range b.range

unfoldable pub selinux_ctx_equal : Option SelinuxCtx → Option SelinuxCtx → Bool
unfolding same_parts
selinux_ctx_equal none none = true
selinux_ctx_equal none (some b) = false
selinux_ctx_equal (some a) none = false
selinux_ctx_equal (some a) (some b) = same_parts a b

-- gp_conn_check_selinux
unfoldable pub check_selinux : Bool → Option SelinuxCtx → Option SelinuxCtx → Bool
unfolding selinux_ctx_equal
check_selinux cred_selinux conn_ctx none = true
check_selinux cred_selinux none (some ctx) = false
check_selinux cred_selinux (some conn_ctx) (some ctx) =
    if not cred_selinux then false else selinux_ctx_equal (some ctx) (some conn_ctx)

-- The program of the service, if it names one.
unfoldable pub wrong_program : Option String → Option String → Bool
unfolding same
wrong_program none program = false
wrong_program (some wanted) program = not (same program (some wanted))

-- The socket of the service, or that of the configuration.
unfoldable pub wrong_socket : Option String → Option String → Option String → Bool
unfolding same
wrong_socket (some wanted) socket socket_name = not (same socket (some wanted))
wrong_socket none socket socket_name = not (same socket socket_name)

-- The condition on which the loop continues with the next service.
unfoldable pub skips : Option String → Conn → Service → Bool
unfolding check_selinux wrong_program wrong_socket
skips socket_name conn svc =
    (not svc.any_uid && not (svc.euid == conn.uid))
    || not (check_selinux conn.cred_selinux conn.selinux_ctx svc.selinux_ctx)
    || wrong_program svc.program conn.program
    || wrong_socket svc.socket conn.socket socket_name

-- The first service that is not skipped.
unfoldable pub match_conn : Option String → Conn → List Service → Option Service
unfolding skips
match_conn socket_name conn [] = none
match_conn socket_name conn (svc ∷ svcs) =
    if skips socket_name conn svc then match_conn socket_name conn svcs else some svc
