-- ===== src/Udp/Tests.antt =====
-- Runs over UDP in the sample world.
use dnscore.Prelude.{◌≡◌, ◌≢◌, refl, inl, ◌+◌, ◌==◌, ltb, false, [], arith, if◌then◌else◌}
use dnscore.Errors.{foreign}
use dnscore.Go.{ok, err}
use dnscore.Dns.{new_msg}
use dnscore.Runtime.{Conn}
use dnscore.Query.{query_option_edns0}
use dnscore.Query.Padding.{with_opt}
use dnscore.Transport.Wire.{opened, closings}
use dnscore.ServerAddr.{protocol_udp}
use dnscore.Runtime.Io.{pure, fail, lift, ask, call, check, emit, defer, after, ◌>>=◌}
use dnscore.Transport.{
  default_transport, check_ctx, write, read, set_deadline, dial_context, time_now, maybe_log_query,
  maybe_log_response_conn,
}
use dnscore.Udp.{
  edns0_max_response_size, send_query_udp, recv_response_udp, query_udp, query_udp_with_duplicates,
}
use dnscore.Udp.Closing.{Exchanged, query_udp-Exchanged}
use dnscore.Udp.Leak.{query_udp-leak}
use dnscore.Udp.Size.{edns0_max_response_size-query_option_edns0}
use dnscore.Udp.Flow.{flow}
use dnscore.Udp.Ending.{datagrams, AtMost, query_udp_with_duplicates-stops}
use dnscore.Samples.{library, library-IsLawful, reply}
use dnscore.Samples.World.{env, ctx, name, query, server}

query_udp_run : query_udp library env default_transport ctx (server protocol_udp) query [] ≡ (
  ok (reply 7 1 name),
  (query_udp library env default_transport ctx (server protocol_udp) query []).1,
)
unfolding query_udp send_query_udp recv_response_udp edns0_max_response_size check_ctx write read
    set_deadline dial_context time_now maybe_log_query maybe_log_response_conn pure fail lift ask
    call check emit defer after ◌>>=◌
query_udp_run = refl

query_udp-Exchanged_example :
    Exchanged library env
      (server protocol_udp)
      query
      []
      (query_udp library env default_transport ctx (server protocol_udp) query []).1
      (reply 7 1 name)
query_udp-Exchanged_example =
    query_udp-Exchanged library env default_transport ctx (server protocol_udp) query [] _
      query_udp_run

-- The third read of the sample world fails.
two_datagrams : (conn : Conn) → AtMost 2 env conn (edns0_max_response_size library query)
two_datagrams conn at enough =
    let late : ltb (datagrams (flow at)) 2 ≡ false = ground arith in
    (foreign "i/o timeout", rw late refl)

query_udp_with_duplicates-stops_example :
    query_udp_with_duplicates library env default_transport 3 ctx (server protocol_udp) query []
    ≢ (ok false, [])
query_udp_with_duplicates-stops_example =
    query_udp_with_duplicates-stops library env default_transport ctx (server protocol_udp) query 2
      [] [] two_datagrams (omega arith)

with_size : query_option_edns0 library 1232 0 query ≡ ok (with_opt library query 1232 0 [])
unfolding query_option_edns0
with_size = refl

edns0_max_response_size-query_option_edns0_example :
    edns0_max_response_size library (with_opt library query 1232 0 [])
    ≡ (if 1232 == 0 then 512 else 1232)
edns0_max_response_size-query_option_edns0_example =
    edns0_max_response_size-query_option_edns0 library query (with_opt library query 1232 0 []) 1232
      0 library-IsLawful refl (omega arith) with_size

-- A query that the sample library cannot pack.
query_udp-leak_example :
    ((query_udp library env default_transport ctx (server protocol_udp) new_msg []).0
      ≡ err (foreign "no question"))
    × (opened (query_udp library env default_transport ctx (server protocol_udp) new_msg []).1
        ≡ opened [] + 1)
    × (closings (query_udp library env default_transport ctx (server protocol_udp) new_msg []).1
        ≡ closings [])
query_udp-leak_example =
    query_udp-leak library env default_transport ctx (server protocol_udp) new_msg 1 [] refl refl
      (inl refl)
