-- ===== src/Dispatch/Opening.antt =====
-- transport.go: how many connections `Query` opens.
use dnscore.Dns.{Msg, Library}
use dnscore.ServerAddr.{ServerAddr}
use dnscore.Runtime.{Env, Context}
use dnscore.Runtime.Only.{Only-fail}
use dnscore.Transport.{Transport}
use dnscore.Transport.Opens.{Opens, Opens-Only, Opens-if}
use dnscore.Stream.Opening.{query_tcp-Opens, query_tls-Opens}
use dnscore.Udp.Opening.{query_udp-Opens}
use dnscore.Https.Balance.{query_https-Only}
use dnscore.Dispatch.{query}

module _ (L : Library) (E : Env) (t : Transport) (ctx : Context) where
  pub query-Opens : (addr : ServerAddr) (q : Msg) → Opens 1 (query L E t ctx addr q)
  unfolding query
  query-Opens addr q = Opens-if _ _ _ (query_udp-Opens L E t ctx addr q) (
      Opens-if _ _ _ (query_tcp-Opens L E t ctx addr q) (
        Opens-if _ _ _ (query_tls-Opens L E t ctx addr q) (
          Opens-if _ _ _ (Opens-Only 1 _ (query_https-Only L E t ctx addr q))
            (Opens-Only 1 _ (Only-fail _)))))
