-- ===== src/Stream/Balance.antt =====
-- The round trips over TCP and TLS close the connection that they dial.
use dnscore.Prelude.{refl, Bytes, String, Option, none, some}
use dnscore.Dns.{Msg, Library}
use dnscore.Go.{Result}
use dnscore.ServerAddr.{ServerAddr}
use dnscore.Runtime.{Env, Context, Conn}
use dnscore.Runtime.Only.{Only, only_rules}
use dnscore.Transport.{Transport, Dialer, check_ctx, dial_context}
use dnscore.Transport.Steps.{check_ctx-Only, write-Only, read_full-Only, set_deadline-Only}
use dnscore.Transport.Logs.{maybe_log_query-Only, maybe_log_response_conn-Only}
use dnscore.Transport.Balance.{
  keeps_conns, logs_keep_conns, Balanced, Balanced-Only, Balanced-bind, Dials, Dials-call,
  Dials-bind, dialed-IsDial, tls_dialed-IsDial, Balanced-dial,
}
use dnscore.Stream.{
  send_frame, receive_frame, exchange_frames, query_stream, query_tcp, default_dial_tls,
  dial_tls_with, dial_tls_context, query_tls,
}

module _ (L : Library) (E : Env) (t : Transport) (ctx : Context) where
  pub exchange_frames-Only :
      (addr : ServerAddr) (packed : Result Bytes) (conn : Conn)
      → Only keeps_conns (exchange_frames L E t ctx addr packed conn)
  unfolding exchange_frames send_frame receive_frame
  exchange_frames-Only addr packed conn =
      search
        (
          only_rules,
          write-Only E conn,
          read_full-Only E conn,
          set_deadline-Only {p = keeps_conns} conn (λ d. refl),
          maybe_log_query-Only E t logs_keep_conns,
          maybe_log_response_conn-Only E t logs_keep_conns,
        )
        depth 25

  dial_context-Dials : (network address : String) → Dials (dial_context E t ctx network address)
  unfolding dial_context
  dial_context-Dials network address = Dials-call _ _ (dialed-IsDial network address)

  dial_tls_with-Dials :
      (dial : Option Dialer) (network address : String)
      → Dials (dial_tls_with L E t dial ctx network address)
  unfolding dial_tls_with default_dial_tls
  dial_tls_with-Dials none network address =
      Dials-bind _ _ (search only_rules) (λ _. Dials-call _ _ (tls_dialed-IsDial network address))
  dial_tls_with-Dials (some dial) network address =
      Dials-call _ _ (tls_dialed-IsDial network address)

  pub query_tcp-Balanced :
      (addr : ServerAddr) (query : Msg) → Balanced (query_tcp L E t ctx addr query)
  unfolding query_tcp query_stream
  query_tcp-Balanced addr query =
      Balanced-bind (check_ctx E ctx) _ (Balanced-Only _ (check_ctx-Only E ctx)) (λ _.
        Balanced-dial _ (exchange_frames-Only addr (L.pack query)) _
          (dial_context-Dials "tcp" addr.address))

  pub query_tls-Balanced :
      (addr : ServerAddr) (query : Msg) → Balanced (query_tls L E t ctx addr query)
  unfolding query_tls query_stream dial_tls_context
  query_tls-Balanced addr query =
      Balanced-bind (check_ctx E ctx) _ (Balanced-Only _ (check_ctx-Only E ctx)) (λ _.
        Balanced-dial _ (exchange_frames-Only addr (L.pack query)) _
          (dial_tls_with-Dials t.dial_tls_context "tcp" addr.address))
