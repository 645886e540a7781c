-- ===== src/TestServer/Datagrams.antt =====
-- What the test server does with datagrams.
use dnscore.Runtime.Runtimex.{try1-works}
use dnscore.TestServer.Handling.{Answers, handler-writes}
use dnscore.Prelude.{
  ◌≡◌, refl, ap, none, List, [], str_eq, str_eq_iff, ==_iff, ◌==◌, if◌then◌else◌, ◌∙◌, Bytes,
  String, ◌∷◌, arith,
}
use dnscore.Go.{ok}
use dnscore.Dns.{Msg, Library}
use dnscore.Runtime.{Trace, Conn, received_from, wrote_to}
use dnscore.Runtime.Io.{call, ask, check, emit, ◌>>=◌}
use dnscore.Runtime.Invert.{>>=-eq-ok, >>=-ok, call_ok}
use dnscore.TestServer.{
  Packets, example_com_reply, new_example_com_handler, response_writer_udp, serve_packet_conn,
}
use dnscore.TestServer.Serving.{handler_ok}

-- A datagram was received, and the reply to the query in it was sent to where it came from.
pub record Replied (L : Library) (set_reply : Msg → Msg) (P : Packets) (pconn : Conn)
    (before after : Trace) : Type 0 where
  pub raw_query : Bytes
  pub addr : String
  pub query : Msg
  pub raw_resp : Bytes
  pub read : P.read_from before pconn 4096 ≡ ok (raw_query, addr)
  pub parsed : L.unpack raw_query ≡ ok query
  pub replied : L.pack (example_com_reply (set_reply query)) ≡ ok raw_resp
  pub history :
      after ≡ wrote_to pconn addr raw_resp ∷ received_from pconn (ok (raw_query, addr)) ∷ before

response_writer_udp_ok :
    (P : Packets) (pconn : Conn) (addr : String) (raw : Bytes) (tr : Trace) {u : Unit {0}}
    {mid : Trace}
    → response_writer_udp P pconn addr raw tr ≡ (ok u, mid)
    → mid ≡ wrote_to pconn addr raw ∷ tr
unfolding response_writer_udp ask emit check ◌>>=◌
response_writer_udp_ok P pconn addr raw tr h = ground arith

response_writer_udp-works :
    (P : Packets) (pconn : Conn) (addr : String) (raw : Bytes) (tr : Trace)
    → P.write_to tr pconn raw addr ≡ none
    → response_writer_udp P pconn addr raw tr ≡ (ok tt, wrote_to pconn addr raw ∷ tr)
unfolding response_writer_udp ask emit check ◌>>=◌
response_writer_udp-works P pconn addr raw tr h = ground arith

-- When the test server has served a datagram with the handler for example.com without an error or
-- a panic, it read one datagram into a buffer of 4096 bytes and sent the packed reply to the query
-- in it, with the address of example.com, to the address that the datagram came from, and nothing
-- else.
pub serve_packet_conn-Replied :
    (L : Library) (set_reply : Msg → Msg) (P : Packets) (pconn : Conn) (tr tr' : Trace)
    {u : Unit {0}}
    → serve_packet_conn P (new_example_com_handler L set_reply) pconn tr ≡ (ok u, tr')
    → Replied L set_reply P pconn tr tr'
unfolding serve_packet_conn
serve_packet_conn-Replied L set_reply P pconn tr tr' h =
    let a = >>=-eq-ok _ _ tr h in
    let got = call_ok _ (received_from pconn) a.first in
    let (query, raw_resp, parsed, replied, wrote_it) =
      handler_ok L set_reply (response_writer_udp P pconn a.value.1) a.value.0 a.middle a.rest in
    record {
      raw_query = a.value.0;
      addr = a.value.1;
      query = query;
      raw_resp = raw_resp;
      read = got.0;
      parsed = parsed;
      replied = replied;
      history =
          response_writer_udp_ok P pconn a.value.1 raw_resp a.middle wrote_it
          ∙ ap (λ m. wrote_to pconn a.value.1 raw_resp ∷ m) got.1;
    }

-- The datagrams that were sent to an address, the latest first.
abbrev pub datagrams_to : Conn → String → Trace → List Bytes
datagrams_to pconn addr [] = []
datagrams_to pconn addr (wrote_to c a bytes ∷ tr) =
    let earlier = datagrams_to pconn addr tr in
    if c == pconn then (if str_eq a addr then bytes ∷ earlier else earlier) else earlier
datagrams_to pconn addr (_ ∷ tr) = datagrams_to pconn addr tr

-- The server answers the datagram that it receives with one datagram.
pub serve_packet_conn-replies :
    (L : Library) (set_reply : Msg → Msg) (P : Packets) (pconn : Conn) (tr : Trace) (addr : String)
    {raw_query raw_resp : Bytes}
    → P.read_from tr pconn 4096 ≡ ok (raw_query, addr)
    → ((at : Trace) (bytes : Bytes) → P.write_to at pconn bytes addr ≡ none)
    → Answers L set_reply raw_query raw_resp
    → (tr' : Trace) × (serve_packet_conn P (new_example_com_handler L set_reply) pconn tr
        ≡ (ok tt, tr'))
      × (datagrams_to pconn addr tr' ≡ raw_resp ∷ datagrams_to pconn addr tr)
unfolding serve_packet_conn call
serve_packet_conn-replies L set_reply P pconn tr addr {raw_query} {raw_resp} reads writes answers =
    let got = received_from pconn (ok (raw_query, addr)) ∷ tr in
    (
      wrote_to pconn addr raw_resp ∷ got,
      >>=-ok _ _ (λ i. (reads i, received_from pconn (reads i) ∷ tr))
          ∙ handler-writes L set_reply (response_writer_udp P pconn addr) raw_query got answers
          ∙ try1-works _
              (response_writer_udp-works P pconn addr raw_resp got (writes got raw_resp)),
      rw ((==_iff pconn pconn).1 refl) (rw ((str_eq_iff addr addr).1 refl) refl),
    )
