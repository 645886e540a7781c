-- ===== src/Https/Tests.antt =====
-- An exchange over HTTPS in the sample world.
use dnscore.Prelude.{◌≡◌, refl, []}
use dnscore.Go.{ok}
use dnscore.ServerAddr.{protocol_doh}
use dnscore.Runtime.Io.{pure, fail, lift, ask, call, check, emit, defer, after, ◌>>=◌}
use dnscore.Transport.{
  default_transport, check_ctx, time_now, maybe_log_query, maybe_log_response_addr_port,
}
use dnscore.Udp.{edns0_max_response_size}
use dnscore.Https.{
  new_http_request_with_context, http_client_do, read_limited, read_all_context, read_response,
  maybe_log_round_trip, send_request, query_https,
}
use dnscore.Https.Exchange.{Exchanged, query_https-Exchanged}
use dnscore.Https.Closing.{AllClosed, bodies, query_https-AllClosed}
use dnscore.Samples.{library, reply}
use dnscore.Samples.World.{env, ctx, name, query, server}

query_https_run : query_https library env default_transport ctx (server protocol_doh) query [] ≡ (
  ok (reply 7 1 name),
  (query_https library env default_transport ctx (server protocol_doh) query []).1,
)
unfolding query_https maybe_log_round_trip send_request read_response new_http_request_with_context
    http_client_do read_limited read_all_context edns0_max_response_size check_ctx time_now
    maybe_log_query maybe_log_response_addr_port pure fail lift ask call check emit defer after
    ◌>>=◌
query_https_run = refl

query_https-Exchanged_example :
    Exchanged library env default_transport ctx
      (server protocol_doh)
      query
      []
      (query_https library env default_transport ctx (server protocol_doh) query []).1
      (reply 7 1 name)
query_https-Exchanged_example =
    query_https-Exchanged library env default_transport ctx (server protocol_doh) query [] _
      query_https_run

query_https-AllClosed_example :
    AllClosed []
      (bodies (query_https library env default_transport ctx (server protocol_doh) query []).1)
query_https-AllClosed_example =
    query_https-AllClosed library env default_transport ctx (server protocol_doh) query []
