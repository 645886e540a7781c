-- ===== src/Stream/Opening.antt =====
-- How many connections a round trip over TCP or TLS opens.
use dnscore.Prelude.{String, Option, none, some}
use dnscore.Dns.{Msg, Library}
use dnscore.ServerAddr.{ServerAddr}
use dnscore.Runtime.{Env, Context, Conn}
use dnscore.Runtime.Only.{only_rules}
use dnscore.Transport.{Transport, Dialer, dial_context}
use dnscore.Transport.Opens.{
  Opens, Opens-dialed, Opens-tls_dialed, Opens-defer, Opens-after, Opens-before,
}
use dnscore.Transport.Steps.{check_ctx-Only}
use dnscore.Stream.{
  query_stream, query_tcp, default_dial_tls, dial_tls_with, dial_tls_context, query_tls,
}
use dnscore.Stream.Balance.{exchange_frames-Only}

module _ (L : Library) (E : Env) (t : Transport) (ctx : Context) where
  dial_context-Opens : (network address : String) → Opens 1 (dial_context E t ctx network address)
  unfolding dial_context
  dial_context-Opens network address = Opens-dialed _ network address

  dial_tls_with-Opens :
      (dial : Option Dialer) (network address : String)
      → Opens 1 (dial_tls_with L E t dial ctx network address)
  unfolding dial_tls_with default_dial_tls
  dial_tls_with-Opens none network address =
      Opens-after _ _ (search only_rules) (λ _. Opens-tls_dialed _ network address)
  dial_tls_with-Opens (some dial) network address = Opens-tls_dialed _ network address

  query_stream-Opens :
      (addr : ServerAddr) (q : Msg) (conn : Conn)
      → Opens 0 (query_stream L E t ctx addr (L.pack q) conn)
  unfolding query_stream
  query_stream-Opens addr q conn =
      Opens-defer 0 conn _ (exchange_frames-Only L E t ctx addr (L.pack q) conn)

  pub query_tcp-Opens : (addr : ServerAddr) (q : Msg) → Opens 1 (query_tcp L E t ctx addr q)
  unfolding query_tcp
  query_tcp-Opens addr q =
      Opens-after _ _ (check_ctx-Only E ctx)
        (λ _. Opens-before _ _ (dial_context-Opens "tcp" addr.address) (query_stream-Opens addr q))

  pub query_tls-Opens : (addr : ServerAddr) (q : Msg) → Opens 1 (query_tls L E t ctx addr q)
  unfolding query_tls dial_tls_context
  query_tls-Opens addr q = Opens-after _ _ (check_ctx-Only E ctx) (λ _.
      Opens-before _ _ (dial_tls_with-Opens t.dial_tls_context "tcp" addr.address)
        (query_stream-Opens addr q))
