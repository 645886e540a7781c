-- ===== src/Session/Tests/Datagrams.antt =====
-- A session over UDP.
use dnscore.Prelude.{◌≡◌, refl, sym, ap, String, none, [], ◌∷◌, arith}
use dnscore.Go.{ok}
use dnscore.ServerAddr.{protocol_udp}
use dnscore.Runtime.{Env, Trace}
use dnscore.Transport.{default_transport}
use dnscore.Udp.{edns0_max_response_size, query_udp}
use dnscore.Udp.Answering.{sent_datagrams, query_udp-sends}
use dnscore.TestServer.{Packets, example_com_reply, serve_packet_conn}
use dnscore.TestServer.Datagrams.{datagrams_to, serve_packet_conn-replies}
use dnscore.Session.Reply.{Accepted, RoundTrips-Answers}
use dnscore.Session.Udp.{Arrives, query_udp-Accepted}
use dnscore.Session.Tests.{
  q0, query, set_reply, set_reply-SetsReply, asks, tiny, trips, handler, small,
}
use dnscore.Samples.World.{env, ctx, server}

-- What the client sends arrives at the server, and back.
abbrev client : Env
client = record env { read = λ at conn n. ok (1 ∷ []) }

abbrev home : String
home = "127.0.0.1:40000"

abbrev packets : Packets
packets = record {
  read_from = λ at pconn n. ok (0 ∷ [], home);
  write_to = λ at pconn bytes addr. none;
}

to_server :
    Arrives
      (sent_datagrams 1
        (query_udp tiny client default_transport ctx (server protocol_udp) query []).1)
      4096
      (λ raw. (raw, home))
      (packets.read_from [] 6 4096)
to_server = record {
  arrives = λ raw sent fits.
      let same : raw ≡ 0 ∷ [] = cc (
        sent,
        query_udp-sends tiny client default_transport ctx (server protocol_udp) query [] 1 (0 ∷ [])
            refl refl refl (λ at bytes. refl),
      ) in
      ap (λ b. ok (b, home)) (sym same);
}

to_client :
    (at : Trace)
    → sent_datagrams 1 at
      ≡ sent_datagrams 1
          (query_udp tiny client default_transport ctx (server protocol_udp) query []).1
    → Arrives
        (datagrams_to 6 home (serve_packet_conn packets handler 6 []).1)
        (edns0_max_response_size tiny query)
        (λ raw. raw)
        (client.read at 1 (edns0_max_response_size tiny query))
to_client at after = record {
  arrives = λ raw sent fits.
      let (end, served, replied) =
        serve_packet_conn-replies tiny set_reply packets 6 [] home refl (λ at bytes. refl)
          (RoundTrips-Answers tiny set_reply trips) in
      let same : raw ≡ 1 ∷ [] = cc (sent, ap (λ r. datagrams_to 6 home r.1) served, replied) in
      ap ok (sym same);
}

query_udp-Accepted_example :
    (end end' : Trace) × (serve_packet_conn packets handler 6 [] ≡ (ok tt, end'))
    × (query_udp tiny client default_transport ctx (server protocol_udp) query []
        ≡ (ok (example_com_reply (set_reply query)), end))
    × Accepted tiny query (example_com_reply (set_reply query)) q0
query_udp-Accepted_example =
    query_udp-Accepted tiny client packets default_transport ctx (server protocol_udp) query q0
      set_reply 1 6 home [] [] (0 ∷ []) (1 ∷ [])
      (record { alive = refl; dials = refl; nothing_sent = refl; writes = λ at bytes. refl })
      (record { nothing_sent = refl; writes = λ at bytes. refl }) to_server to_client trips
      (omega arith) small set_reply-SetsReply asks
