-- ===== src/Stream/Tests.antt =====
-- Exchanges on a stream in the sample world, one with a query that cannot be packed.
use dnscore.Prelude.{◌≡◌, refl, []}
use dnscore.Go.{ok}
use dnscore.ServerAddr.{protocol_tcp}
use dnscore.Runtime.Io.{pure, fail, lift, ask, call, check, emit, defer, after, ◌>>=◌}
use dnscore.Transport.{
  default_transport, write, read_full, set_deadline, time_now, maybe_log_query,
  maybe_log_response_conn,
}
use dnscore.Frame.{new_raw_msg_frame, frame_length}
use dnscore.Stream.{send_frame, receive_frame, exchange_frames, query_stream}
use dnscore.Stream.RoundTrip.{Exchanged, query_stream-Exchanged}
use dnscore.Samples.{library, reply}
use dnscore.Samples.World.{env, ctx, name, raw_reply, server}

query_stream_run :
    query_stream library env default_transport ctx (server protocol_tcp) (ok raw_reply) 1 [] ≡ (
      ok (reply 7 1 name),
      (query_stream library env default_transport ctx (server protocol_tcp) (ok raw_reply) 1 []).1,
    )
unfolding query_stream exchange_frames send_frame receive_frame new_raw_msg_frame frame_length write
    read_full set_deadline time_now maybe_log_query maybe_log_response_conn pure fail lift ask call
    check emit defer after ◌>>=◌
query_stream_run = refl

query_stream-Exchanged_example :
    Exchanged library env
      (ok raw_reply)
      1
      []
      (query_stream library env default_transport ctx (server protocol_tcp) (ok raw_reply) 1 []).1
      (reply 7 1 name)
query_stream-Exchanged_example =
    query_stream-Exchanged library env default_transport ctx (server protocol_tcp) (ok raw_reply) 1
      [] _ query_stream_run
