-- ===== src/TestServer/Tests.antt =====
-- The test server in the sample world.
use dnscore.Runtime.Runtimex.{try1, assert}
use dnscore.Prelude.{◌≡◌, ◌⊎◌, refl, Bytes, String, true, some, none, [], ◌∷◌}
use dnscore.Errors.{foreign}
use dnscore.Go.{Result, ok, panic}
use dnscore.Runtime.{Trace, Conn, Body, closed, body_read, body_written}
use dnscore.Runtime.Io.{pure, lift, ask, call, check, emit, defer, after, catch, handle, ◌>>=◌}
use dnscore.Transport.{write, read_full}
use dnscore.Frame.{frame, frame_length}
use dnscore.Transport.Closing.{ClosesLast}
use dnscore.TestServer.{
  Server, Stdlib, new_server, must, assert_appended, assert_not_started, start_https,
  new_example_com_handler, response_writer_stream, read_query, serve_conn, close,
}
use dnscore.TestServer.Serving.{Served, serve_conn_outcome}
use dnscore.TestServer.{Packets, serve_packet_conn, response_writer_udp}
use dnscore.TestServer.Lifecycle.{over_https, Listens, Published, start_by, start_by-close}
use dnscore.TestServer.Handling.{Answers}
use dnscore.TestServer.Http.{WriteBody, serve_http}
use dnscore.TestServer.Http.Replies.{written, before_write, serve_http_outcome}
use dnscore.Samples.{library}
use dnscore.Samples.World.{env, raw_reply}

serve_conn_run :
    serve_conn env (new_example_com_handler library (λ query. query)) 1 []
    ≡ (ok tt, (serve_conn env (new_example_com_handler library (λ query. query)) 1 []).1)
unfolding serve_conn read_query response_writer_stream new_example_com_handler try1 assert write
    read_full frame frame_length pure lift ask call check emit defer after catch handle ◌>>=◌
serve_conn_run = refl

serve_conn_outcome_example :
    ClosesLast 1 [] (serve_conn env (new_example_com_handler library (λ query. query)) 1 []).1
    × (((tr' : Trace) × (serve_conn env (new_example_com_handler library (λ query. query)) 1 []
            ≡ (ok tt, tr'))
          × Served library (λ query. query) env 1 [] tr')
        ⊎ ((serve_conn env (new_example_com_handler library (λ query. query)) 1 []).0 ≡ panic))
serve_conn_outcome_example = serve_conn_outcome library (λ query. query) env 1 []

abbrev listen : String → String → Result (Conn × String)
listen network address = ok (5, "127.0.0.1:5353")

abbrev running : Server
running = record new_server {
  addr = "127.0.0.1:5353";
  root_cas = some 9;
  url = "https://127.0.0.1:5353/dns-query";
  ioclosers = 5 ∷ [];
  started = true;
}

abbrev stdlib : Stdlib
stdlib = record {
  listen = listen;
  listen_packet = listen;
  listen_tls = λ network address cert. listen network address;
  x509_key_pair = ok 2;
  cert_pool = 9;
  append_certs_from_pem = true;
}

is_running : start_by over_https stdlib new_server ≡ ok running
unfolding start_https must assert_appended
is_running = refl

start_by-close_example :
    (listener : Conn) × Listens stdlib new_server over_https listener "127.0.0.1:5353"
    × Published stdlib new_server over_https "127.0.0.1:5353" running
    × (running.ioclosers ≡ listener ∷ [])
    × (assert_not_started running ≡ panic)
    × (close (λ c. some (foreign "closed")) running []
        ≡ (ok (some (foreign "closed")), closed listener ∷ []))
start_by-close_example =
    start_by-close stdlib over_https (λ c. some (foreign "closed")) new_server running [] refl
      is_running

abbrev packets : Packets
packets = record {
  read_from = λ tr pconn n. ok (raw_reply, "127.0.0.1:40000");
  write_to = λ tr pconn bytes addr. none;
}

serve_packet_conn_run :
    serve_packet_conn packets (new_example_com_handler library (λ query. query)) 6 []
    ≡ (ok tt, (serve_packet_conn packets (new_example_com_handler library (λ query. query)) 6 []).1)
unfolding serve_packet_conn response_writer_udp new_example_com_handler try1 pure lift ask call
    check emit catch handle ◌>>=◌
serve_packet_conn_run = refl

abbrev request : Body
request = record { handle = 3; content = raw_reply; failure = none }

abbrev broken : WriteBody
broken tr raw = some (foreign "write: broken pipe")

serve_http_outcome_example :
    ((raw_resp : Bytes) × (request.failure ≡ none)
      × Answers library (λ query. query) request.content raw_resp
      × (serve_http broken (new_example_com_handler library (λ query. query)) request [] ≡ (
        written (broken (before_write request []) raw_resp),
        body_written raw_resp ∷ before_write request [],
      )))
    ⊎ ((serve_http broken (new_example_com_handler library (λ query. query)) request []
          ≡ (panic, body_read request.handle ∷ []))
        × ((raw_resp : Bytes)
            → ¬ (
                (request.failure ≡ none)
                × Answers library (λ query. query) request.content raw_resp)))
serve_http_outcome_example = serve_http_outcome library (λ query. query) broken request []
