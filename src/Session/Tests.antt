-- ===== src/Session/Tests.antt =====
-- A session over HTTPS and one over a stream, with a library that packs a message into one byte.
mod Datagrams
mod Lookups
use dnscore.Prelude.{
  ◌≡◌, refl, sym, ◌∙◌, ap, ◌≤◌, ℕ, zero, suc, Bytes, true, none, [], ◌∷◌, ◌++◌, length, take, codes,
  arith, if◌then◌else◌,
}
use mathlib.Core.Path.{subst}
use dnscore.Errors.{foreign}
use dnscore.Go.{Result, ok, err}
use dnscore.Dns.{Library, Msg, Question, new_msg, class_inet}
use dnscore.ServerAddr.{protocol_doh, protocol_tcp}
use dnscore.Runtime.{Env, Trace, Conn}
use dnscore.Transport.{default_transport}
use dnscore.Transport.Pipe.{sent_bytes, received_count, ReadsFrom}
use dnscore.Udp.{edns0_max_response_size}
use dnscore.Https.{query_https}
use dnscore.Stream.{query_stream}
use dnscore.Stream.Answering.{query_stream-sends}
use dnscore.TestServer.Answering.{serve_conn-works}
use dnscore.Response.{equal_ascii_name}
use dnscore.Response.Names.{equal_ascii_name_iff}
use dnscore.Frame.{frame}
use dnscore.TestServer.{Handler, example_com_reply, new_example_com_handler, serve_conn}
use dnscore.TestServer.Http.{serve_http}
use dnscore.Session.Reply.{SetsReply, AsksExample, Accepted, RoundTrips, RoundTrips-Answers}
use dnscore.Session.Https.{response_of, Hop, query_https-Accepted}
use dnscore.Session.Stream.{IsFresh, query_stream-Accepted}
use dnscore.Samples.{library}
use dnscore.Samples.World.{env, ctx, server, addr_port}

abbrev pub q0 : Question
q0 = record { name = codes "Example.COM."; qtype = 1; qclass = class_inet }

abbrev pub query : Msg
query = record new_msg { id = 5; recursion_desired = true; question = q0 ∷ [] }

abbrev pub set_reply : Msg → Msg
set_reply m = record new_msg { id = m.id; response = true; question = m.question }

abbrev pub set_reply-SetsReply : SetsReply set_reply
set_reply-SetsReply = record {
  flagged = λ m. refl;
  same_id = λ m. refl;
  same_question = λ m q h. h;
  succeeded = λ m. refl;
  no_answer = λ m. refl;
}

pub asks : AsksExample query q0
unfolding equal_ascii_name
asks = record {
  one_question = refl;
  for_example = (equal_ascii_name_iff q0.name (codes "example.com.")).0 refl;
  of_class = refl;
}

abbrev unpack_byte : Bytes → Result Msg
unpack_byte (zero ∷ []) = ok query
unpack_byte (suc zero ∷ []) = ok (example_com_reply (set_reply query))
unpack_byte _ = err (foreign "short message")

abbrev pub tiny : Library
tiny = record library {
  pack = λ m. if m.response then ok (1 ∷ []) else ok (0 ∷ []);
  unpack = unpack_byte;
}

pub trips : RoundTrips tiny query (example_com_reply (set_reply query)) (0 ∷ []) (1 ∷ [])
trips = record { query_packs = refl; query_parses = refl; reply_packs = refl; reply_parses = refl }

abbrev pub handler : Handler
handler = new_example_com_handler tiny set_reply

-- HTTP carries the request to the handler and its answer back.
abbrev http_world : Env
http_world = record env {
  conn_trace_do = λ tr client req. record {
    result = response_of 4 (
        serve_http (λ at raw. none) handler
          (record { handle = 3; content = req.content; failure = none }) []);
    local_addr = addr_port;
    remote_addr = addr_port;
  };
}

hop : Hop tiny http_world default_transport ctx (server protocol_doh) (0 ∷ []) handler
hop = record {
  req = record { method = "POST"; url = "192.0.2.53:53"; content_type = none; content = 0 ∷ [] };
  request_handle = 3;
  response_handle = 4;
  write_body = λ at raw. none;
  writes = λ at raw. refl;
  made = refl;
  carries = refl;
  delivers = λ at sent. refl;
}

pub small : 1 ≤ edns0_max_response_size tiny query
unfolding edns0_max_response_size
small = omega arith

query_https-Accepted_example :
    (tr' : Trace) × (query_https tiny http_world default_transport ctx
        (server protocol_doh)
        query
        []
      ≡ (ok (example_com_reply (set_reply query)), tr'))
    × Accepted tiny query (example_com_reply (set_reply query)) q0
query_https-Accepted_example =
    query_https-Accepted tiny http_world default_transport ctx (server protocol_doh) query q0
      set_reply [] (0 ∷ []) (1 ∷ []) refl refl hop trips small set_reply-SetsReply asks

abbrev drop : ℕ → Bytes → Bytes
drop zero bs = bs
drop (suc n) [] = []
drop (suc n) (b ∷ bs) = drop n bs

-- A world in which a connection yields the next bytes of a stream.
abbrev stream_world : Bytes → Env
stream_world stream = record env {
  read_full = λ tr conn n. ok (take n (drop (received_count conn tr) stream));
}

take-drop :
    (before part rest : Bytes)
    → take (length part) (drop (length before) (before ++ part ++ rest)) ≡ part
take-drop [] [] rest = refl
take-drop [] (b ∷ part) rest = ap (λ l. b ∷ l) (take-drop [] part rest)
take-drop (b ∷ before) part rest = take-drop before part rest

stream_world-ReadsFrom :
    (stream : Bytes) (conn : Conn) → ReadsFrom (stream_world stream) conn stream
stream_world-ReadsFrom stream conn = record {
  reads = λ tr before part rest whole at. rw (at, whole) (ap ok (take-drop before part rest));
}

abbrev fresh : (stream : Bytes) (conn : Conn) → IsFresh (stream_world stream) conn []
fresh stream conn = record {
  nothing_sent = refl;
  nothing_received = refl;
  writes = λ at bytes. refl;
}

abbrev client : Env
client = stream_world (0 ∷ 1 ∷ 1 ∷ [])

abbrev far : Env
far = stream_world (0 ∷ 1 ∷ 0 ∷ [])

to_client : ReadsFrom client 1 (sent_bytes 2 (serve_conn far handler 2 []).1)
unfolding frame
to_client =
    let (end, ran, sent) =
      serve_conn-works far 2 (λ at bytes. refl) tiny set_reply [] refl
        (stream_world-ReadsFrom (0 ∷ 1 ∷ 0 ∷ []) 2) (omega arith)
        (RoundTrips-Answers tiny set_reply trips) (omega arith) in
    subst (ReadsFrom client 1) (sym (ap (λ r. sent_bytes 2 r.1) ran ∙ sent))
      (stream_world-ReadsFrom (0 ∷ 1 ∷ 1 ∷ []) 1)

to_server : ReadsFrom far 2 (
    sent_bytes 1
      (query_stream tiny client default_transport ctx (server protocol_tcp) (ok (0 ∷ [])) 1 []).1)
unfolding frame
to_server =
    subst (ReadsFrom far 2)
      (sym (
        query_stream-sends tiny client default_transport ctx (server protocol_tcp) 1 [] (0 ∷ [])
          (omega arith) (λ at bytes. refl)))
      (stream_world-ReadsFrom (0 ∷ 1 ∷ 0 ∷ []) 2)

query_stream-Accepted_example :
    (end end' : Trace) × (serve_conn far handler 2 [] ≡ (ok tt, end'))
    × (query_stream tiny client default_transport ctx (server protocol_tcp) (tiny.pack query) 1 []
        ≡ (ok (example_com_reply (set_reply query)), end))
    × Accepted tiny query (example_com_reply (set_reply query)) q0
query_stream-Accepted_example =
    query_stream-Accepted tiny client far default_transport ctx (server protocol_tcp) query q0
      set_reply 1 2 [] [] (0 ∷ []) (1 ∷ []) (fresh _ _) (fresh _ _) to_client to_server trips
      (omega arith) (omega arith) set_reply-SetsReply asks
