-- ===== src/Session/Stream.antt =====
-- The client of dotcp.go and dotls.go against the test server, which serves both alike.
use dnscore.Prelude.{◌≡◌, ap, ◌∙◌, ◌≤◌, Bytes, none, [], ◌++◌, length}
use mathlib.Core.Path.{subst}
use dnscore.Go.{ok}
use dnscore.Dns.{Msg, Question, Library}
use dnscore.ServerAddr.{ServerAddr}
use dnscore.Runtime.{Env, Trace, Context, Conn}
use dnscore.Transport.{Transport}
use dnscore.Transport.Pipe.{sent_bytes, received_count, ReadsFrom}
use dnscore.Frame.{max_uint16, frame}
use dnscore.Stream.{query_stream}
use dnscore.Stream.Answering.{query_stream-sends, query_stream-answers}
use dnscore.TestServer.{example_com_reply, new_example_com_handler, serve_conn}
use dnscore.TestServer.Answering.{serve_conn-works}
use dnscore.Session.Reply.{
  SetsReply, AsksExample, Accepted, RoundTrips, RoundTrips-Answers, example_com_reply-Accepted,
}

-- Nothing has passed over the connection, and no writing to it fails.
pub record IsFresh (E : Env) (conn : Conn) (tr : Trace) : Type 0 where
  pub nothing_sent : sent_bytes conn tr ≡ []
  pub nothing_received : received_count conn tr ≡ 0
  pub writes : (at : Trace) (bytes : Bytes) → E.write at conn bytes ≡ none

-- Let a client and the test server each have a fresh end of one connection, so that each reads what
-- the other has written in its whole run, let the query ask for example.com, and let the query and
-- the reply survive packing and parsing and fit their frames. Then the server serves the connection
-- without a panic, and the client gets the reply, validates it, and decodes from it the address
-- that the test server gives.
pub query_stream-Accepted :
    (L : Library) (client server : Env) (t : Transport) (ctx : Context) (addr : ServerAddr)
    (query : Msg) (q0 : Question) (set_reply : Msg → Msg) (conn conn' : Conn) (tr tr' : Trace)
    (raw_query raw_resp : Bytes)
    → IsFresh client conn tr
    → IsFresh server conn' tr'
    → ReadsFrom client conn
        (sent_bytes conn' (serve_conn server (new_example_com_handler L set_reply) conn' tr').1)
    → ReadsFrom server conn'
        (sent_bytes conn (query_stream L client t ctx addr (L.pack query) conn tr).1)
    → RoundTrips L query (example_com_reply (set_reply query)) raw_query raw_resp
    → length raw_query ≤ max_uint16
    → length raw_resp ≤ max_uint16
    → SetsReply set_reply
    → AsksExample query q0
    → (end end' : Trace) × (serve_conn server (new_example_com_handler L set_reply) conn' tr'
        ≡ (ok tt, end'))
      × (query_stream L client t ctx addr (L.pack query) conn tr
          ≡ (ok (example_com_reply (set_reply query)), end))
      × Accepted L query (example_com_reply (set_reply query)) q0
query_stream-Accepted L client server t ctx addr query q0 set_reply conn conn' tr tr' raw_query
      raw_resp near far to_client to_server trips fits short sets asks =
    let asked : sent_bytes conn (query_stream L client t ctx addr (L.pack query) conn tr).1
        ≡ frame raw_query =
      ap (λ p. sent_bytes conn (query_stream L client t ctx addr p conn tr).1) trips.query_packs
      ∙ query_stream-sends L client t ctx addr conn tr raw_query fits near.writes
      ∙ ap (λ b. b ++ frame raw_query) near.nothing_sent in
    let (end', served, sent) =
      serve_conn-works server conn' far.writes L set_reply tr' far.nothing_received
        (subst (ReadsFrom server conn') asked to_server) fits (RoundTrips-Answers L set_reply trips)
        short in
    let replied : sent_bytes conn'
          (serve_conn server (new_example_com_handler L set_reply) conn' tr').1
        ≡ frame raw_resp =
      ap (λ r. sent_bytes conn' r.1) served
      ∙ sent
      ∙ ap (λ b. b ++ frame raw_resp) far.nothing_sent in
    let (end, answered) =
      query_stream-answers L client t ctx addr conn tr raw_query fits near.writes
        near.nothing_received (subst (ReadsFrom client conn) replied to_client) short
        trips.reply_parses in
    (
      end,
      end',
      served,
      ap (λ p. query_stream L client t ctx addr p conn tr) trips.query_packs ∙ answered,
      example_com_reply-Accepted L set_reply query q0 sets asks,
    )
