-- ===== src/Session/Lookup.antt =====
-- `LookupHost` with one server, the test server over UDP.
use dnscore.Prelude.{
  ◌≡◌, refl, ◌∙◌, ◌≤◌, ℕ, suc, Bytes, String, false, none, [], ◌∷◌, length, str_eq, str_eq_iff,
  true,
}
use dnscore.Prelude.Int.{pos_part}
use dnscore.Go.{ok}
use dnscore.Dns.{Msg, Question, Library}
use dnscore.ServerAddr.{protocol_udp}
use dnscore.Runtime.{Env, Trace, Context, Conn}
use dnscore.Transport.{default_transport}
use dnscore.Query.{new_query_with_server_addr}
use dnscore.Udp.{edns0_max_response_size, query_udp}
use dnscore.Udp.Answering.{sent_datagrams}
use dnscore.Dispatch.{query}
use dnscore.Answer.{decode_lookup_a, decode_lookup_aaaa}
use dnscore.ResolverConfig.{ResolverConfigServer, servers}
use dnscore.Resolver.{Resolver, config, transport}
use dnscore.Lookup.{is_onion}
use dnscore.Lookup.Exchange.{IsLimited}
use dnscore.Lookup.Answering.{Answering, lookup-answers}
use dnscore.Host.{Order, lookup_host}
use dnscore.Host.Answering.{lookup_host-answers}
use dnscore.TestServer.{
  Packets, example_com_addr_a, example_com_rr, example_com_reply, new_example_com_handler,
  serve_packet_conn,
}
use dnscore.TestServer.Datagrams.{datagrams_to}
use dnscore.Session.Reply.{SetsReply, AsksExample, RoundTrips}
use dnscore.Session.Udp.{Arrives, Dials, Listens, query_udp-Accepted}

-- From this history on, the query that is built asks for example.com, and a run of the test server
-- is there for it: their datagrams arrive, and the messages survive packing and parsing and fit.
pub record Served (L : Library) (E : Env) (set_reply : Msg → Msg) (server : ResolverConfigServer)
    (name : Bytes) (qtype : ℕ) (limited : Context) (started : Trace) : Type 0 where
  pub query : Msg
  pub q0 : Question
  pub built : Trace
  pub made :
      new_query_with_server_addr L E server.address name qtype server.query_options started
      ≡ (ok query, built)
  pub asks : AsksExample query q0
  pub packets : Packets
  pub conn : Conn
  pub pconn : Conn
  pub home : String
  pub there : Trace
  pub raw_query : Bytes
  pub raw_resp : Bytes
  pub near : Dials E default_transport limited server.address conn built
  pub far : Listens packets pconn home there
  pub to_server :
      Arrives
        (sent_datagrams conn (query_udp L E default_transport limited server.address query built).1)
        4096
        (λ raw. (raw, home))
        (packets.read_from there pconn 4096)
  pub to_client :
      (at : Trace)
      → sent_datagrams conn at
        ≡ sent_datagrams conn (query_udp L E default_transport limited server.address query built).1
      → Arrives
          (datagrams_to pconn home
            (serve_packet_conn packets (new_example_com_handler L set_reply) pconn there).1)
          (edns0_max_response_size L query)
          (λ raw. raw)
          (E.read at conn (edns0_max_response_size L query))
  pub trips : RoundTrips L query (example_com_reply (set_reply query)) raw_query raw_resp
  pub fits : length raw_query ≤ 4096
  pub short : length raw_resp ≤ edns0_max_response_size L query

example_com_rr-decoded :
    (L : Library)
    → decode_lookup_a L (example_com_rr ∷ [])
      ≡ ok (record { addrs = L.ip_string example_com_addr_a ∷ []; cname = [] })
unfolding decode_lookup_a
example_com_rr-decoded L = refl

module _ (L : Library) (E : Env) (r : Resolver) (ctx : Context) (host : Bytes)
    (server : ResolverConfigServer) (set_reply : Msg → Msg) (sets : SetsReply set_reply)
    (default_hook : r.transport ≡ none) (over_udp : server.address.protocol ≡ protocol_udp) where
  transport_udp :
      (limited : Context) (q : Msg) (tr : Trace)
      → transport L E r limited server.address q tr
        ≡ query_udp L E default_transport limited server.address q tr
  unfolding query
  transport_udp limited q tr =
      let is_udp : str_eq server.address.protocol protocol_udp ≡ true =
        (str_eq_iff _ _).1 over_udp in
      rw default_hook (rw is_udp refl)

  Served-Answering :
      (qtype : ℕ) (limited : Context) (started : Trace)
      → Served L E set_reply server host qtype limited started
      → Answering L E r host qtype server limited started (example_com_rr ∷ [])
  Served-Answering qtype limited started s =
      let (end, there', served, ran, accepted) =
        query_udp-Accepted L E s.packets default_transport limited server.address s.query s.q0
          set_reply s.conn s.pconn s.home s.built s.there s.raw_query s.raw_resp s.near s.far
          s.to_server s.to_client s.trips s.fits s.short sets s.asks in
      record {
        query = s.query;
        q0 = s.q0;
        resp = example_com_reply (set_reply s.query);
        built = s.built;
        end = end;
        made = s.made;
        asks = (s.asks).one_question;
        answered = transport_udp limited s.query s.built ∙ ran;
        validated = accepted.validated;
        no_error = accepted.no_error;
        answers = accepted.answers;
      }

-- Let the resolver have one server, over UDP, and the default transport, and make an attempt at
-- least. Let the host be a name and no IP address, not one under onion, and let each query that is
-- built for it ask for example.com and be served by a run of the test server. Then `LookupHost`
-- returns the one address that the test server gives, in either order of the two lookups.
pub lookup_host-FindsExample :
    (L : Library) (E : Env) (r : Resolver) (ctx : Context) (host : Bytes)
    (server : ResolverConfigServer) (set_reply : Msg → Msg) (order : Order) (tr : Trace) (left : ℕ)
    → SetsReply set_reply
    → r.transport ≡ none
    → server.address.protocol ≡ protocol_udp
    → servers L (config r) ≡ server ∷ []
    → pos_part (config r).attempts ≡ suc left
    → L.parse_ip host ≡ none
    → is_onion L host ≡ false
    → ((qtype : ℕ) (before started : Trace) (limited : Context)
        → IsLimited E ctx server.timeout before limited started
        → Served L E set_reply server host qtype limited started)
    → (tr' : Trace) × (lookup_host L E r ctx host order tr
        ≡ (ok (L.ip_string example_com_addr_a ∷ []), tr'))
unfolding decode_lookup_aaaa
lookup_host-FindsExample L E r ctx host server set_reply order tr left sets default_hook over_udp
      one some_attempts not_ip not_onion served =
    lookup_host-answers L E r ctx host (example_com_rr ∷ []) not_ip
      (λ qtype at.
        lookup-answers L E r ctx host qtype server (example_com_rr ∷ []) not_onion
          (λ before started limited in_time.
            Served-Answering L E r ctx host server set_reply sets default_hook over_udp qtype
              limited started (served qtype before started limited in_time))
          left at one some_attempts)
      order tr (example_com_rr-decoded L) refl
