-- ===== src/Tests/Handled.antt =====
-- A query of an admitted client, handled.
use gssproxy.Prelude.{ℕ, ◌≡◌, some}
use gssproxy.Creds.Service.{Service, Conn}
use gssproxy.Workers.State.{Query, query_in}
use gssproxy.Workers.Handle.{handle_query, Handled, handle_query-Handled}
use gssproxy.Tests.Rfc.{rfc4506, rfc4506-IsXdr}
use gssproxy.Tests.Echo.{echo, echo-IsProcs}
use gssproxy.Tests.Calls.{roomy, wrap_request}
use gssproxy.Tests.Services.{client, services}

abbrev query : Query
query = record { conn = 3; buffer = wrap_request; status = query_in }

abbrev conns : ℕ → Conn
conns n = client

-- A context for the procedures of the examples, which count calls.
abbrev no_calls : Service → Conn → ℕ
no_calls svc conn = 0

handle_query-Handled_example :
    (q' : Query) × (handle_query echo rfc4506 roomy
        (some "/run/gssproxy.sock")
        services
        conns
        no_calls
        query
      ≡ some q')
    × (q'.conn ≡ 3)
    × Handled echo rfc4506 roomy (some "/run/gssproxy.sock") services conns no_calls query q'
handle_query-Handled_example =
    handle_query-Handled echo rfc4506 roomy (some "/run/gssproxy.sock") services conns no_calls
      rfc4506-IsXdr echo-IsProcs query
