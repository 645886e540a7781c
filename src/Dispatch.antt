-- ===== src/Dispatch.antt =====
-- The two entry points of transport.go: the protocol decides who answers.
pub mod Refusals
pub mod Cases
pub mod Closing
pub mod Opening
pub mod Logging
pub mod Bounds
mod Tests
use dnscore.Prelude.{ℕ, Bool, true, none, some, not, str_eq, if◌then◌else◌}
use dnscore.Errors
use dnscore.Errors.{Error, wrapped, sentinel}
use dnscore.Dns.{Msg, Library}
use dnscore.ServerAddr.{Protocol, ServerAddr}
use dnscore.ServerAddr.{protocol_udp, protocol_tcp, protocol_dot, protocol_doh}
use dnscore.Runtime.{Env, Context, emitted, channel_closed}
use dnscore.Runtime.Io.{Io, pure, fail, emit, ◌>>=◌, ◌>>◌}
use dnscore.Transport.{Transport}
use dnscore.Stream.{query_tcp, query_tls}
use dnscore.Udp.{query_udp, query_udp_with_duplicates}
use dnscore.Https.{query_https}

module _ (L : Library) (E : Env) (t : Transport) where
  unfoldable pub query : Context → ServerAddr → Msg → Io Msg
  query ctx addr q =
      if str_eq addr.protocol protocol_udp
      then query_udp L E t ctx addr q
      else if str_eq addr.protocol protocol_tcp
      then query_tcp L E t ctx addr q
      else if str_eq addr.protocol protocol_dot
      then query_tls L E t ctx addr q
      else if str_eq addr.protocol protocol_doh
      then query_https L E t ctx addr q
      else fail (wrapped (sentinel Errors.no_such_transport_protocol) addr.protocol)

  -- The fuel is that of the collecting loop; the channel is in the history.
  unfoldable pub query_with_duplicates : ℕ → Context → ServerAddr → Msg → Io Bool
  query_with_duplicates fuel ctx addr q =
      if not (str_eq addr.protocol protocol_udp)
      then (do
        emit (
            emitted (record {
              err =
                  some
                    (wrapped (sentinel Errors.transport_cannot_receive_duplicates) addr.protocol);
              msg = none;
            }))
        emit channel_closed
        pure true)
      else query_udp_with_duplicates L E t fuel ctx addr q
