-- ===== src/Udp/Opening.antt =====
-- How many connections a round trip over UDP opens.
use dnscore.Prelude.{refl, Bytes}
use dnscore.Dns.{Msg, Library}
use dnscore.ServerAddr.{ServerAddr}
use dnscore.Runtime.{Env, Time, Context, Conn}
use dnscore.Runtime.Only.{Only, Only-bind, Only-lift, Only-pure}
use dnscore.Transport.{Transport, dial_context}
use dnscore.Transport.Balance.{keeps_conns, logs_keep_conns}
use dnscore.Transport.Logs.{maybe_log_response_conn-Only}
use dnscore.Transport.Opens.{
  Opens, Opens-Only, Opens-dialed, Opens-defer, Opens-after, Opens-before,
}
use dnscore.Transport.Steps.{check_ctx-Only, read-Only}
use dnscore.Udp.{edns0_max_response_size, send_query_udp, recv_response_udp, query_udp}
use dnscore.Udp.Leak.{send_on-keeps}

module _ (L : Library) (E : Env) (t : Transport) (ctx : Context) where
  dial_udp-Opens : (addr : ServerAddr) → Opens 1 (dial_context E t ctx "udp" addr.address)
  unfolding dial_context
  dial_udp-Opens addr = Opens-dialed _ "udp" addr.address

  recv_response_udp-Only :
      (addr : ServerAddr) (conn : Conn) (t0 : Time) (q : Msg) (raw_query : Bytes)
      → Only keeps_conns (recv_response_udp L E t addr conn t0 q raw_query)
  unfolding recv_response_udp
  recv_response_udp-Only addr conn t0 q raw_query =
      Only-bind _ _ (read-Only {p = keeps_conns} E conn (edns0_max_response_size L q) (λ _. refl))
        (λ raw_resp. Only-bind _ _ (Only-lift _) (λ resp.
          Only-bind _ _
            (maybe_log_response_conn-Only E t logs_keep_conns addr t0 raw_query raw_resp conn)
            (λ _. Only-pure resp)))

  pub query_udp-Opens : (addr : ServerAddr) (q : Msg) → Opens 1 (query_udp L E t ctx addr q)
  unfolding query_udp send_query_udp
  query_udp-Opens addr q = Opens-after _ _ (check_ctx-Only E ctx) (λ _.
      Opens-before _ _
        (Opens-before _ _ (dial_udp-Opens addr)
          (λ conn. Opens-Only 0 _ (send_on-keeps L E t ctx addr q conn)))
        (λ sent.
          Opens-defer 0 sent.conn _
            (recv_response_udp-Only addr sent.conn sent.t0 q sent.raw_query)))
