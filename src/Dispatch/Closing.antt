-- ===== src/Dispatch/Closing.antt =====
-- transport.go: the connections that `Query` opens.
use dnscore.Prelude.{◌≢◌, inl, inr, Bool-cases, str_eq, str_eq_iff}
use dnscore.Dns.{Msg, Library}
use dnscore.ServerAddr.{ServerAddr, protocol_udp}
use dnscore.Runtime.{Env, Context}
use dnscore.Runtime.Only.{Only-fail}
use dnscore.Transport.{Transport}
use dnscore.Transport.Balance.{Balanced, Balanced-Only, Balanced-if}
use dnscore.Stream.Balance.{query_tcp-Balanced, query_tls-Balanced}
use dnscore.Https.Balance.{query_https-Balanced}
use dnscore.Dispatch.{query}

-- For every protocol but UDP, `Query` closes each connection as often as it opens it, and no other,
-- whatever it returns, a panic included.
pub query-Balanced :
    (L : Library) (E : Env) (t : Transport) (ctx : Context) (addr : ServerAddr) (q : Msg)
    → addr.protocol ≢ protocol_udp
    → Balanced (query L E t ctx addr q)
unfolding query
query-Balanced L E t ctx addr q not_udp = elim (Bool-cases (str_eq addr.protocol protocol_udp)) [
  | inl u ↦ absurd (not_udp ((str_eq_iff _ _).0 u))
  | inr u ↦ rw u (
      Balanced-if _ _ _ (query_tcp-Balanced L E t ctx addr q) (
        Balanced-if _ _ _ (query_tls-Balanced L E t ctx addr q) (
          Balanced-if _ _ _ (query_https-Balanced L E t ctx addr q)
            (Balanced-Only _ (Only-fail _)))))
]
