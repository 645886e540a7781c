-- ===== src/Session/Udp.antt =====
-- The client of doudp.go against the packet server of dnscoretest/doudp.go.
use dnscore.Prelude.{◌≡◌, sym, ap, ◌∙◌, ◌≤◌, ℕ, Bytes, String, none, List, [], ◌∷◌, length}
use dnscore.Go.{Result, ok}
use dnscore.Dns.{Msg, Question, Library}
use dnscore.ServerAddr.{ServerAddr}
use dnscore.Runtime.{Env, Trace, Context, Conn}
use dnscore.Transport.{Transport, hook_or}
use dnscore.Udp.{edns0_max_response_size, query_udp}
use dnscore.Udp.Answering.{sent_datagrams, query_udp-sends, query_udp-answers}
use dnscore.TestServer.{Packets, example_com_reply, new_example_com_handler, serve_packet_conn}
use dnscore.TestServer.Datagrams.{datagrams_to, serve_packet_conn-replies}
use dnscore.Session.Reply.{
  SetsReply, AsksExample, Accepted, RoundTrips, RoundTrips-Answers, example_com_reply-Accepted,
}

-- Where one datagram was sent, and it fits the buffer of this size, a reader gets it.
pub record Arrives {ℓ} {A : Type ℓ} (sent : List Bytes) (size : ℕ) (received_as : Bytes → A)
    (got : Result A) : Type ℓ where
  pub arrives : (raw : Bytes) → sent ≡ raw ∷ [] → length raw ≤ size → got ≡ ok (received_as raw)

-- The client dials a connection, on which nothing was sent and no writing fails.
pub record Dials (E : Env) (t : Transport) (ctx : Context) (addr : ServerAddr) (conn : Conn)
    (tr : Trace) : Type 0 where
  pub alive : E.ctx_err tr ctx ≡ none
  pub dials : hook_or t.dial_context E.default_dial tr ctx "udp" addr.address ≡ ok conn
  pub nothing_sent : sent_datagrams conn tr ≡ []
  pub writes : (at : Trace) (bytes : Bytes) → E.write at conn bytes ≡ none

-- The server has sent nothing to the client's address, and no sending fails.
pub record Listens (P : Packets) (pconn : Conn) (home : String) (tr : Trace) : Type 0 where
  pub nothing_sent : datagrams_to pconn home tr ≡ []
  pub writes : (at : Trace) (bytes : Bytes) → P.write_to at pconn bytes home ≡ none

-- Let a client dial the test server over UDP, let a datagram that either sends, and that fits the
-- other's buffer, arrive there, the server's once the client has sent its own, let the query ask for example.com, and let the query and the reply
-- survive packing and parsing and fit the buffers: 4096 bytes for the query, and for the reply the
-- size that the query accepts. Then the server serves the datagram without a panic, and the client
-- gets the reply, validates it, and decodes from it the address that the test server gives.
pub query_udp-Accepted :
    (L : Library) (client : Env) (server : Packets) (t : Transport) (ctx : Context)
    (addr : ServerAddr) (query : Msg) (q0 : Question) (set_reply : Msg → Msg) (conn pconn : Conn)
    (home : String) (tr tr' : Trace) (raw_query raw_resp : Bytes)
    → Dials client t ctx addr conn tr
    → Listens server pconn home tr'
    → Arrives
        (sent_datagrams conn (query_udp L client t ctx addr query tr).1)
        4096
        (λ raw. (raw, home))
        (server.read_from tr' pconn 4096)
    → ((at : Trace)
        → sent_datagrams conn at ≡ sent_datagrams conn (query_udp L client t ctx addr query tr).1
        → Arrives
            (datagrams_to pconn home
              (serve_packet_conn server (new_example_com_handler L set_reply) pconn tr').1)
            (edns0_max_response_size L query)
            (λ raw. raw)
            (client.read at conn (edns0_max_response_size L query)))
    → RoundTrips L query (example_com_reply (set_reply query)) raw_query raw_resp
    → length raw_query ≤ 4096
    → length raw_resp ≤ edns0_max_response_size L query
    → SetsReply set_reply
    → AsksExample query q0
    → (end end' : Trace) × (serve_packet_conn server (new_example_com_handler L set_reply) pconn tr'
        ≡ (ok tt, end'))
      × (query_udp L client t ctx addr query tr ≡ (ok (example_com_reply (set_reply query)), end))
      × Accepted L query (example_com_reply (set_reply query)) q0
query_udp-Accepted L client server t ctx addr query q0 set_reply conn pconn home tr tr' raw_query
      raw_resp near far to_server to_client trips fits short sets asks =
    let sends =
      query_udp-sends L client t ctx addr query tr conn raw_query near.alive near.dials
        trips.query_packs near.writes in
    let asked : sent_datagrams conn (query_udp L client t ctx addr query tr).1 ≡ raw_query ∷ [] =
      sends ∙ ap (λ l. raw_query ∷ l) near.nothing_sent in
    let (end', served, sent) =
      serve_packet_conn-replies L set_reply server pconn tr' home
        (to_server.arrives raw_query asked fits) far.writes
        (RoundTrips-Answers L set_reply trips) in
    let replied : datagrams_to pconn home
          (serve_packet_conn server (new_example_com_handler L set_reply) pconn tr').1
        ≡ raw_resp ∷ [] =
      ap (λ r. datagrams_to pconn home r.1) served
      ∙ sent
      ∙ ap (λ l. raw_resp ∷ l) far.nothing_sent in
    let (end, answered) =
      query_udp-answers L client t ctx addr query tr conn raw_query near.alive near.dials
        trips.query_packs near.writes
        (λ at after. (to_client at (after ∙ sym sends)).arrives raw_resp replied short)
        trips.reply_parses in
    (end, end', served, answered, example_com_reply-Accepted L set_reply query q0 sets asks)
