-- ===== src/Session/Tests/Lookups.antt =====
-- `LookupHost` of example.com in a world where every query reaches the test server.
use dnscore.Prelude.{
  ◌≡◌, refl, sym, ap, ◌∙◌, ◌≤◌, ◌+◌, ◌==◌, ==_iff, ℕ, zero, suc, Bytes, Bool, String, true, false,
  none, some, List, [], ◌∷◌, codes, arith, Bool-cases, inl, inr, bytes_eq,
}
use dnscore.Prelude.Int.{pos}
use dnscore.Errors.{foreign}
use dnscore.Go.{Result, ok, err}
use dnscore.Dns.{Library, Msg, Question, new_msg, class_inet}
use dnscore.ServerAddr.{protocol_udp}
use dnscore.Runtime.{Env, Trace, Conn, Context, wrote, id_drawn}
use dnscore.Runtime.Io.{pure, lift, ask, emit, ◌>>=◌}
use dnscore.Transport.{default_transport}
use dnscore.Query.{new_query_with_server_addr, apply_options}
use dnscore.Udp.{edns0_max_response_size, query_udp}
use dnscore.Udp.Answering.{sent_datagrams, query_udp-sends}
use dnscore.Response.{equal_ascii_name}
use dnscore.Response.Names.{equal_ascii_name_iff}
use dnscore.ResolverConfig.{ResolverConfigServer, servers}
use dnscore.Resolver.{Resolver, config}
use dnscore.Lookup.{is_onion}
use dnscore.Host.{a_first, lookup_host}
use dnscore.TestServer.{
  Packets, example_com_addr_a, example_com_reply, new_example_com_handler, serve_packet_conn,
}
use dnscore.TestServer.Datagrams.{datagrams_to, serve_packet_conn-replies}
use dnscore.Session.Reply.{AsksExample, RoundTrips, RoundTrips-Answers}
use dnscore.Session.Udp.{Arrives}
use dnscore.Session.Lookup.{Served, lookup_host-FindsExample}
use dnscore.Session.Tests.{set_reply, set_reply-SetsReply}
use dnscore.Samples.{library}
use dnscore.Samples.World.{env, ctx, server}

abbrev host : Bytes
host = codes "example.com"

abbrev question : ℕ → Question
question qtype = record { name = codes "example.com."; qtype = qtype; qclass = class_inet }

abbrev query : ℕ → Msg
query qtype = record new_msg { id = 7; recursion_desired = true; question = question qtype ∷ [] }

-- A message is whether it is a response, and the type of its question.
abbrev pack : Bool → List Question → Result Bytes
pack _ [] = err (foreign "no question")
pack true (q ∷ _) = ok (1 ∷ q.qtype ∷ [])
pack false (q ∷ _) = ok (0 ∷ q.qtype ∷ [])

abbrev unpack : Bytes → Result Msg
unpack (zero ∷ qtype ∷ []) = ok (query qtype)
unpack (suc zero ∷ qtype ∷ []) = ok (example_com_reply (set_reply (query qtype)))
unpack _ = err (foreign "short message")

abbrev typed : Library
typed = record library { pack = λ m. pack m.response m.question; unpack = unpack }

trips :
    (qtype : ℕ)
    → RoundTrips typed
        (query qtype)
        (example_com_reply (set_reply (query qtype)))
        (0 ∷ qtype ∷ [])
        (1 ∷ qtype ∷ [])
trips qtype = record {
  query_packs = refl;
  query_parses = refl;
  reply_packs = refl;
  reply_parses = refl;
}

-- A connection on which nothing was sent.
abbrev unused : Trace → Conn
unused [] = 0
unused (wrote c _ ∷ tr) = suc c + unused tr
unused (_ ∷ tr) = unused tr

nothing_sent : (conn : Conn) (tr : Trace) → unused tr ≤ conn → sent_datagrams conn tr ≡ []
nothing_sent conn [] h = refl
nothing_sent conn (wrote c _ ∷ tr) h = elim (Bool-cases (c == conn)) [
  | inl e ↦ absurd (omega (arith, (==_iff c conn).0 e, h))
  | inr e ↦ rw e (nothing_sent conn tr (omega (arith, h)))
]
nothing_sent conn (_ ∷ tr) h = nothing_sent conn tr h

-- The reply to the query that was sent.
abbrev reply_to : List Bytes → Result Bytes
reply_to ((zero ∷ qtype ∷ []) ∷ _) = ok (1 ∷ qtype ∷ [])
reply_to _ = err (foreign "i/o timeout")

abbrev world : Env
world = record env {
  ctx_err = λ tr ctx. none;
  default_dial = λ tr ctx network address. ok (unused tr);
  read = λ at conn n. reply_to (sent_datagrams conn at);
}

abbrev home : String
home = "127.0.0.1:40000"

abbrev packets : ℕ → Packets
packets qtype = record {
  read_from = λ at pconn n. ok (0 ∷ qtype ∷ [], home);
  write_to = λ at pconn bytes addr. none;
}

abbrev configured : ResolverConfigServer
configured = record { address = server protocol_udp; query_options = []; timeout = pos 50 }

abbrev resolver : Resolver
resolver = record {
  config = some (record { attempts = pos 2; list = configured ∷ [] });
  transport = none;
}

made :
    (qtype : ℕ) (started : Trace)
    → new_query_with_server_addr typed world (server protocol_udp) host qtype [] started
      ≡ (ok (query qtype), id_drawn 7 ∷ started)
unfolding new_query_with_server_addr apply_options pure lift ask emit ◌>>=◌
made qtype started = refl

asks : (qtype : ℕ) → AsksExample (query qtype) (question qtype)
unfolding equal_ascii_name
asks qtype = record {
  one_question = refl;
  for_example = (equal_ascii_name_iff (codes "example.com.") (codes "example.com.")).0 refl;
  of_class = refl;
}

short : (qtype : ℕ) → 2 ≤ edns0_max_response_size typed (query qtype)
unfolding edns0_max_response_size
short qtype = omega arith

module _ (qtype : ℕ) (limited : Context) (built : Trace) where
  abbrev run : Result Msg × Trace
  run = query_udp typed world default_transport limited (server protocol_udp) (query qtype) built

  sends :
      sent_datagrams (unused built) run.1 ≡ (0 ∷ qtype ∷ []) ∷ sent_datagrams (unused built) built
  sends =
      query_udp-sends typed world default_transport limited (server protocol_udp) (query qtype)
        built (unused built) (0 ∷ qtype ∷ []) refl refl refl (λ at bytes. refl)

  to_server :
      Arrives
        (sent_datagrams (unused built) run.1)
        4096
        (λ raw. (raw, home))
        ((packets qtype).read_from [] 6 4096)
  to_server = record {
    arrives = λ raw sent fits.
        let same : raw ≡ 0 ∷ qtype ∷ [] = cc (sent, sends) in ap (λ b. ok (b, home)) (sym same);
  }

  to_client :
      (at : Trace)
      → sent_datagrams (unused built) at ≡ sent_datagrams (unused built) run.1
      → Arrives
          (datagrams_to 6 home
            (serve_packet_conn (packets qtype) (new_example_com_handler typed set_reply) 6 []).1)
          (edns0_max_response_size typed (query qtype))
          (λ raw. raw)
          (reply_to (sent_datagrams (unused built) at))
  to_client at after = record {
    arrives = λ raw sent fits.
        let (end, served, replied) =
          serve_packet_conn-replies typed set_reply (packets qtype) 6 [] home refl
            (λ at bytes. refl) (RoundTrips-Answers typed set_reply (trips qtype)) in
        let same : raw ≡ 1 ∷ qtype ∷ [] =
          cc (sent, ap (λ r. datagrams_to 6 home r.1) served, replied) in
        ap reply_to (after ∙ sends) ∙ ap ok (sym same);
  }

served :
    (qtype : ℕ) (limited : Context) (started : Trace)
    → Served typed world set_reply configured host qtype limited started
served qtype limited started = record {
  query = query qtype;
  q0 = question qtype;
  built = id_drawn 7 ∷ started;
  made = made qtype started;
  asks = asks qtype;
  packets = packets qtype;
  conn = unused started;
  pconn = 6;
  home = home;
  there = [];
  raw_query = 0 ∷ qtype ∷ [];
  raw_resp = 1 ∷ qtype ∷ [];
  near = record {
    alive = refl;
    dials = refl;
    nothing_sent = nothing_sent (unused started) started (omega arith);
    writes = λ at bytes. refl;
  };
  far = record { nothing_sent = refl; writes = λ at bytes. refl };
  to_server = to_server qtype limited (id_drawn 7 ∷ started);
  to_client = to_client qtype limited (id_drawn 7 ∷ started);
  trips = trips qtype;
  fits = omega arith;
  short = short qtype;
}

one_server : servers typed (config resolver) ≡ configured ∷ []
unfolding servers
one_server = refl

not_onion : is_onion typed host ≡ false
unfolding is_onion bytes_eq
not_onion = refl

lookup_host-FindsExample_example :
    (tr' : Trace) × (lookup_host typed world resolver ctx host a_first []
      ≡ (ok (typed.ip_string example_com_addr_a ∷ []), tr'))
lookup_host-FindsExample_example =
    lookup_host-FindsExample typed world resolver ctx host configured set_reply a_first [] 1
      set_reply-SetsReply refl refl one_server refl refl not_onion
      (λ qtype before started limited in_time. served qtype limited started)
