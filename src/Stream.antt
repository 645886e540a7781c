-- ===== src/Stream.antt =====
-- dotcp.go and dotls.go: the round trip over a TCP or TLS stream. The goroutine that closes the
-- connection once the derived context is done runs when the function returns and `cancel` is
-- called; where the caller's context ends earlier, the reads and writes fail as the world answers.
pub mod RoundTrip
pub mod Balance
pub mod Opening
pub mod Answering
pub mod Logging
mod Tests
use dnscore.Prelude.{ℕ, Bytes, String, Bool, false, Option, none, some, [], ◌∷◌}
use dnscore.Go.{Result}
use dnscore.Dns.{Msg, Library}
use dnscore.ServerAddr.{ServerAddr}
use dnscore.Runtime.{Env, Trace, Context, Conn, Time, TlsConfig, closed, tls_dialed}
use dnscore.Runtime.Io.{Io, pure, lift, call, emit, defer, ◌>>=◌, ◌>>◌}
use dnscore.Transport.{
  Transport, Dialer, check_ctx, write, read_full, set_deadline, dial_context, maybe_log_query,
  maybe_log_response_conn,
}
use dnscore.Frame.{new_raw_msg_frame, frame_length}

module _ (L : Library) (E : Env) (t : Transport) where
  -- Steps 2 to 5 of `queryStream`, at what `query.Pack()` gives.
  pub send_frame : Context → ServerAddr → Result Bytes → Conn → Io (Bytes × Time)
  send_frame ctx addr packed conn = do
    set_deadline ctx conn
    raw_query ← lift packed
    t0 ← maybe_log_query E t addr raw_query
    raw_query_frame ← lift (new_raw_msg_frame addr raw_query)
    write E conn raw_query_frame
    pure (raw_query, t0)

  -- Step 6.
  receive_frame : Conn → Io Bytes
  receive_frame conn = do
    header ← read_full E conn 2
    length ← lift (frame_length header)
    read_full E conn length

  pub exchange_frames : Context → ServerAddr → Result Bytes → Conn → Io Msg
  exchange_frames ctx addr packed conn = do
    sent ← send_frame ctx addr packed conn
    raw_resp ← receive_frame conn
    resp ← lift (L.unpack raw_resp)
    maybe_log_response_conn E t addr sent.1 sent.0 raw_resp conn
    pure resp

  -- The closing stands where the exchange ends, also if the context is done before: then the world
  -- may let the reads and writes fail. A closing in between is not a state of this model.
  pub query_stream : Context → ServerAddr → Result Bytes → Conn → Io Msg
  query_stream ctx addr packed conn =
      defer (emit (closed conn)) (exchange_frames ctx addr packed conn)

  unfoldable pub query_tcp : Context → ServerAddr → Msg → Io Msg
  query_tcp ctx addr query = do
    check_ctx E ctx
    conn ← dial_context E t ctx "tcp" addr.address
    query_stream ctx addr (L.pack query) conn

  -- The configuration for the host of the address.
  tls_config : String → TlsConfig
  tls_config hostname = record {
    insecure_skip_verify = false;
    next_protos = "dot" ∷ [];
    root_cas = t.root_cas;
    server_name = hostname;
  }

  -- `dialTLSContext` where the hook is nil.
  default_dial_tls : Context → String → String → Io Conn
  unfolding tls_config
  default_dial_tls ctx network address = do
    hostname ← lift (E.split_host address)
    call (λ tr. E.default_tls_dial tr ctx (tls_config hostname) network address)
        (tls_dialed network address)

  dial_tls_with : Option Dialer → Context → String → String → Io Conn
  unfolding default_dial_tls
  dial_tls_with none ctx network address = default_dial_tls ctx network address
  dial_tls_with (some dial) ctx network address =
      call (λ tr. dial tr ctx network address) (tls_dialed network address)

  pub dial_tls_context : Context → String → String → Io Conn
  unfolding dial_tls_with
  dial_tls_context = dial_tls_with t.dial_tls_context

  unfoldable pub query_tls : Context → ServerAddr → Msg → Io Msg
  query_tls ctx addr query = do
    check_ctx E ctx
    conn ← dial_tls_context ctx "tcp" addr.address
    query_stream ctx addr (L.pack query) conn
