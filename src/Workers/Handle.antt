-- ===== src/Workers/Handle.antt =====
-- gp_handle_query of src/gp_workers.c: the service of the connection, and the call of the RPC engine.
use Prim.Native.String.{String}
use gssproxy.Prelude.{
  ℕ, ◌≡◌, ◌≢◌, refl, subst, List, Option, some, none, Bool, Errno, Result, ok, err,
}
use gssproxy.Xdr.{Xdr, IsXdr}
use gssproxy.Rpc.Procs.{Procs, IsProcs}
use gssproxy.Server.Process.{process_call}
use gssproxy.Server.Defined.{process_call_defined}
use gssproxy.Creds.Service.{Service, Conn}
use gssproxy.Creds.Match.{match_conn}
use gssproxy.Creds.Admits.{Finds, match_conn-Finds, Admits}
use gssproxy.Workers.State.{Query, query_out, query_err}

-- The query after the call: its error status, or the reply in its buffer.
unfoldable pub call_done : {Ctx : Type 0} → Query → Option (Ctx × Result (List ℕ)) → Option Query
call_done q none = none
call_done q (some (ctx, err e)) = some (record q { status = query_err })
call_done q (some (ctx, ok reply)) = some (record q { status = query_out; buffer = reply })

-- `conns` are the connections by their number in a query; `call_ctx` fills struct gp_call_ctx, which
-- the handlers of the procedures get. Their destroy_callback is left out.
module _ {Ctx Arg Res : Type 0} (ps : Procs Ctx Arg Res) (x : Xdr) (malloc : ℕ → Bool)
    (socket_name : Option String) (svcs : List Service) (conns : ℕ → Conn)
    (call_ctx : Service → Conn → Ctx) where
  -- With the service that was found.
  unfoldable pub call_service : Query → Option Service → Option Query
  unfolding call_done
  call_service q none = some (record q { status = query_err })
  call_service q (some svc) =
      call_done q (process_call ps x malloc (call_ctx svc (conns q.conn)) q.buffer)

  -- `none` is undefined behaviour of the call.
  unfoldable pub handle_query : Query → Option Query
  unfolding call_service
  handle_query q = call_service q (match_conn socket_name (conns q.conn) svcs)

  -- What becomes of a query: an error, because no service admits the connection or because the call
  -- ends with no reply, or the reply of the call for a service that admits the connection.
  pub data Handled (q : Query) : Query → Type 0 where
    unmatched :
        Finds socket_name (conns q.conn) svcs none → Handled q (record q { status = query_err })
    failed :
        (svc : Service) (ctx : Ctx) {e : Errno}
        → Admits socket_name (conns q.conn) svc
        → process_call ps x malloc (call_ctx svc (conns q.conn)) q.buffer ≡ some (ctx, err e)
        → Handled q (record q { status = query_err })
    answered :
        (svc : Service) (ctx : Ctx) (reply : List ℕ)
        → Admits socket_name (conns q.conn) svc
        → process_call ps x malloc (call_ctx svc (conns q.conn)) q.buffer ≡ some (ctx, ok reply)
        → Handled q (record q { status = query_out; buffer = reply })

  Handled-conn : {q q' : Query} → Handled q q' → q'.conn ≡ q.conn
  Handled-conn (unmatched no_service) = refl
  Handled-conn (failed svc ctx admits e) = refl
  Handled-conn (answered svc ctx reply admits e) = refl

  found-Admits :
      (conn : Conn) (svc : Service)
      → match_conn socket_name conn svcs ≡ some svc
      → Admits socket_name conn svc
  found-Admits conn svc found =
      (subst (λ o. Finds socket_name conn svcs o) found (match_conn-Finds socket_name conn svcs)).4

  call_done-Handled :
      (q : Query) (svc : Service)
      → Admits socket_name (conns q.conn) svc
      → (o : Option (Ctx × Result (List ℕ)))
      → process_call ps x malloc (call_ctx svc (conns q.conn)) q.buffer ≡ o
      → o ≢ none
      → (q' : Query) × (call_done q o ≡ some q') × Handled q q'
  unfolding call_done
  call_done-Handled q svc admits none e defined = absurd (defined refl)
  call_done-Handled q svc admits (some (ctx, err n)) e defined = (_, refl, failed svc ctx admits e)
  call_done-Handled q svc admits (some (ctx, ok reply)) e defined =
      (_, refl, answered svc ctx reply admits e)

  call_service-Handled :
      IsXdr x
      → IsProcs ps
      → (q : Query) (o : Option Service) → match_conn socket_name (conns q.conn) svcs ≡ o
      → (q' : Query) × (call_service q o ≡ some q') × Handled q q'
  unfolding call_service
  call_service-Handled lib procs q none found = (
    _,
    refl,
    unmatched (
        subst (λ o. Finds socket_name (conns q.conn) svcs o) found
          (match_conn-Finds socket_name (conns q.conn) svcs)),
  )
  call_service-Handled lib procs q (some svc) found =
      call_done-Handled q svc (found-Admits (conns q.conn) svc found)
        (process_call ps x malloc (call_ctx svc (conns q.conn)) q.buffer) refl
        (process_call_defined ps lib malloc procs (call_ctx svc (conns q.conn)) q.buffer)

  -- Every query is handled, with defined behaviour: it ends as an error, with its buffer as it was,
  -- when no service admits its connection or the call ends with no reply; else with the reply
  -- of the call, and the service that the call is made for admits the connection. The connection of
  -- the query stays. This rests on the laws of the XDR library and of the procedures.
  pub handle_query-Handled :
      IsXdr x
      → IsProcs ps
      → (q : Query) → (q' : Query) × (handle_query q ≡ some q') × (q'.conn ≡ q.conn) × Handled q q'
  unfolding handle_query
  handle_query-Handled lib procs q =
      let (q', e, h) =
        call_service-Handled lib procs q (match_conn socket_name (conns q.conn) svcs) refl in
      (q', e, Handled-conn h, h)
