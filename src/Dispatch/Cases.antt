-- ===== src/Dispatch/Cases.antt =====
-- Which round trip a response of `Query` comes from.
use dnscore.Prelude.{◌≡◌, ap, ◌⊎◌, inl, inr, Bool-cases, str_eq}
use dnscore.Go.{ok}
use dnscore.Dns.{Msg, Library}
use dnscore.ServerAddr.{ServerAddr, protocol_udp, protocol_tcp, protocol_dot, protocol_doh}
use dnscore.Runtime.{Env, Trace, Context}
use dnscore.Runtime.Io.{fail}
use dnscore.Transport.{Transport}
use dnscore.Udp.{query_udp}
use dnscore.Stream.{query_tcp, query_tls}
use dnscore.Https.{query_https}
use dnscore.Dispatch.{query}

pub query_ok :
    (L : Library) (E : Env) (t : Transport) (ctx : Context) (addr : ServerAddr) (q : Msg)
    (tr tr' : Trace) {resp : Msg}
    → query L E t ctx addr q tr ≡ (ok resp, tr')
    → (query_udp L E t ctx addr q tr ≡ (ok resp, tr'))
      ⊎ (query_tcp L E t ctx addr q tr ≡ (ok resp, tr'))
      ⊎ (query_tls L E t ctx addr q tr ≡ (ok resp, tr'))
      ⊎ (query_https L E t ctx addr q tr ≡ (ok resp, tr'))
unfolding query fail
query_ok L E t ctx addr q tr tr' h = elim (Bool-cases (str_eq addr.protocol protocol_udp)) [
  | inl p ↦ inl (rw p at h)
  | inr n ↦ elim (Bool-cases (str_eq addr.protocol protocol_tcp)) [
    | inl p ↦ inr (inl (rw (n, p) at h))
    | inr m ↦ elim (Bool-cases (str_eq addr.protocol protocol_dot)) [
      | inl p ↦ inr (inr (inl (rw (n, m, p) at h)))
      | inr o ↦ elim (Bool-cases (str_eq addr.protocol protocol_doh)) [
        | inl p ↦ inr (inr (inr (rw (n, m, o, p) at h)))
        | inr u ↦ absurd (cc (ap (λ x. x.0) (rw (n, m, o, u) at h)))
      ]
    ]
  ]
]
