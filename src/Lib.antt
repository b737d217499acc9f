-- ===== src/Lib.antt =====
-- gssproxy: a daemon that does the GSSAPI work of programs that may not hold credentials, and the
-- client library through which they ask it. A client encodes a call as an ONC RPC message and sends it
-- over a local socket; the daemon reads the message, hands it to a worker thread, which finds the
-- service that the connection belongs to and runs the call, and the daemon writes the reply back.
--
-- The parts, and the code that they model:
-- - Prelude: tests, lists over native numbers, results with an errno; shared by all.
-- - Xdr: the XDR primitives of libtirpc, as a record of functions (Xdr) and the laws that the code
--   relies on (IsXdr). It is a parameter: the library is not in the repository.
-- - Rpc: the message types of rpcgen/gp_rpc.h (Message), the filters of rpcgen/gp_rpc_xdr.c once for
--   each direction (Encode, Decode), and the procedures of rpcgen/gss_proxy.h as an interface (Procs)
--   between the RPC layers and the filters and handlers of the procedures. Emit, Room and Roundtrip
--   hold what is proved of the filters.
-- - Wire: rpcgen/gss_proxy_xdr.c. Types, Args and Results are the structs of rpcgen/gss_proxy.h, Filters
--   the functions xdr_*, each a pair of an encoder and a decoder (Filter) put together from the fields of
--   the struct; the filters of libtirpc that it calls are a record of functions (XdrLib) and their laws
--   (IsXdrLib). Union is union gp_rpc_arg and gp_rpc_res of src/gp_common.h with its filters by
--   procedure, which fill the interface Procs; Inverse and Procs hold the proofs.
-- - Server: src/gp_rpc_process.c. Table is gp_xdr_set, Call is gp_rpc_decode_call and its header,
--   Reply is gp_rpc_encode_reply and its header, Process is gp_rpc_process_call, and Refusals the rules
--   by which a message is refused. A buffer is a list of
--   bytes; `none` as a result is undefined behaviour (an index out of the table, a call of NULL).
-- - Client: src/client/gpm_common.c. Call is gpm_make_call with its table, over a record of socket
--   operations (Transport). Send is gpm_send_buffer, Recv is gpm_recv_buffer, Loop is
--   gpm_send_recv_loop and gpm_next_xid; what gpm_epoll_wait and the system calls give is an input.
-- - EndToEnd: the client and the server together.
-- - Socket: src/gp_socket.c. Frame is the header of a message, Read is gp_socket_read, Write is
--   gp_socket_write. What a system call gives is an input, one event after the other, and a run is a
--   recursion on the list of events; a run whose events are used up is one that waits.
-- - Workers: src/gp_workers.c. State is struct gp_workers with the place of each thread in its code,
--   Step is a relation with one constructor for each critical section or system call, so that any
--   interleaving of the dispatcher and the workers is a sequence of steps. Handle is gp_handle_query.
-- - Creds: gp_creds_match_conn of src/gp_creds.c, with gp_same of src/gp_util.c and the SELinux tests
--   of src/gp_socket.c, over struct gp_service of src/gp_proxy.h (Service, Match, Admits); the options
--   of a call and gp_get_acquire_type (Options, Lookup). Format is get_formatted_string, on a zipper of
--   the bytes before and behind its pointer, with what its templates mean in Pieces and what a numeral is in Numeral; Store and
--   Environment are gp_get_cred_environment, Check is gp_check_cred, Allowed is gp_cred_allowed, and
--   Acquire is gp_add_krb5_creds. The other modules of Creds prove what is said of these.
-- - Gss: the GSSAPI and libkrb5 as a record of calls on a world (Api), the chain of calls that the first
--   error ends (Status, Inversion), and names of the wire as src/gp_conv.c imports them (Names).
-- - Export: src/gp_export.c. Padding is gp_encrypt_buffer and gp_decrypt_buffer, over libkrb5 as a record
--   of functions (Krb5); IsKrb5, in Sealed, are the laws of a cipher that fills its last block. Names is
--   gp_conv_name_to_gssx of src/gp_conv.c, and Handle is gp_export_gssx_cred and gp_import_gssx_cred, over
--   the calls of the GSSAPI (NameCalls, CredCalls), with the tokens that the padding leaves whole (IsSafe) in
--   Stateless.
--   Linux and Options are gp_export_creds_linux and gp_export_creds_to_gssx_options, over the name service as
--   a record of functions (NssCalls), whose results for getpwnam_r come one after the other; Groups proves
--   what is said of them. Context is gp_export_ctx_id_to_gssx and gp_import_gssx_to_ctx_id, over CtxCalls, with
--   gp_format_linux_lucid_v1 in Lucid, where a Machine gives the bytes of a number; Kernel reads the token by
--   the comment above that function, with the laws of the Machine (IsMachine).
-- - Handlers: gp_acquire_cred of src/gp_rpc_acquire_cred.c over these (Acquire), with the mechanisms that the
--   service allows (Mechs); Discards and Impersonation prove what is said of it.
-- - Conv: gp_conv_err_to_gssx_string and gp_conv_status_to_gssx of src/gp_conv.c (Status); what
--   gss_display_status gives is an input, one message after the other. Copies is the sets of OIDs, the channel
--   bindings and the copies of names and statuses; Messages and Sets prove what is said of them.
-- - Sync: how a changed credential goes back to the client. Tickets is gp_check_sync_creds of src/gp_creds.c,
--   and Payload gp_export_sync_creds and the client's return_new_cred_handle of
--   src/client/gpm_init_sec_context.c; Counted and Returned prove what is said of them.
-- - Tests: an XDR of RFC 4506 and its filters, procedures that echo, a small GSSAPI, and the theorems at concrete inputs.
--
-- Bounds: MAX_RPC_SIZE is the code's, and the server's table has 16 rows. Fuel is only for get_formatted_string, of one turn more
-- than the string has bytes with its NUL, which suffices, as each turn passes a byte, and for the loop over
-- getgrouplist, of nine turns, which suffice, as the count doubles from 256 to NGROUPS_MAX; the other
-- loops that count, over three attempts of a call and fifteen lengths of a padding, count as the code
-- does.
-- Numbers on the wire are of 32 bits, as the hypotheses `n < 2 ^ 32` say where they matter.
--
-- Not modelled: memory that is freed, debug output, the set-up of sockets, threads and the pipe, and
-- their failures; spurious wakeups of pthread_cond_wait; the other handlers, the choice of a key, the configuration, and the GSSAPI mechanism, which mostly call other
-- libraries.
mod Prelude
pub mod Xdr
pub mod Rpc
pub mod Wire
pub mod Server
pub mod Client
pub mod EndToEnd
pub mod Socket
pub mod Workers
pub mod Creds
pub mod Gss
pub mod Conv
pub mod Handlers
pub mod Sync
pub mod Export
mod Tests
