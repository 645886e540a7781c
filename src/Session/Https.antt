-- ===== src/Session/Https.antt =====
-- The client of dohttps.go against the HTTP handler of dnscoretest/dohttps.go.
use dnscore.Prelude.{
  ◌≡◌, refl, ap, ◌∙◌, ◌≤◌, ℕ, Bytes, String, Option, none, some, [], ◌∷◌, ◌++◌, length, str_eq,
  if◌then◌else◌,
}
use dnscore.Errors.{foreign}
use dnscore.Go.{Result, ok, err}
use dnscore.Dns.{Msg, Question, Library}
use dnscore.ServerAddr.{ServerAddr}
use dnscore.Runtime.{Env, Trace, Context, HttpRequest, HttpResponse, header_added, body_written}
use dnscore.Transport.{Transport, hook_or}
use dnscore.Udp.{edns0_max_response_size}
use dnscore.Https.{dns_message, query_https}
use dnscore.Https.Answering.{reply_response, query_https-answers}
use dnscore.TestServer.{Handler, example_com_reply, new_example_com_handler}
use dnscore.Session.Reply.{
  SetsReply, AsksExample, Accepted, RoundTrips, RoundTrips-Answers, example_com_reply-Accepted,
}
use dnscore.TestServer.Handling.{Answers}
use dnscore.TestServer.Http.{WriteBody, serve_http}
use dnscore.TestServer.Http.Replies.{written, before_write, serve_http-replies}

-- The first value that a handler has given to a header, and the body that it has written.
abbrev pub header_value : String → Trace → Option String
header_value key [] = none
header_value key (header_added k v ∷ tr) = elim (header_value key tr) [
  | some w ↦ some w
  | none ↦ if str_eq k key then some v else none
]
header_value key (_ ∷ tr) = header_value key tr

abbrev pub written_body : Trace → Bytes
written_body [] = []
written_body (body_written b ∷ tr) = written_body tr ++ b
written_body (_ ∷ tr) = written_body tr

abbrev text_of : Option String → String
text_of none = ""
text_of (some v) = v

-- What package net/http makes of a handler's run: a response with status 200, the header and the
-- body, or a broken connection where the handler panicked.
abbrev pub response_of : ℕ → Result (Unit {0}) × Trace → Result HttpResponse
response_of handle (ok _, tr) = ok (record {
  status_code = 200;
  content_type = text_of (header_value "Content-Type" tr);
  body = record { handle = handle; content = written_body tr; failure = none };
})
response_of handle (_, tr) = err (foreign "EOF")

-- How the client's HTTP library reaches the handler: it makes a request with the packed query as its
-- body, the handler serves that body, and the client gets what the handler writes.
pub record Hop (L : Library) (E : Env) (t : Transport) (ctx : Context) (addr : ServerAddr)
    (raw_query : Bytes) (handler : Handler) : Type 0 where
  pub req : HttpRequest
  pub request_handle : ℕ
  pub response_handle : ℕ
  pub write_body : WriteBody
  pub writes : (tr : Trace) (raw : Bytes) → write_body tr raw ≡ none
  pub made :
      hook_or t.new_http_request_with_context E.new_request ctx "POST" addr.address raw_query
      ≡ ok req
  pub carries : req.content ≡ raw_query
  pub delivers :
      (tr : Trace) (sent : HttpRequest)
      → (hook_or t.http_client_do (λ at. E.conn_trace_do at t.http_client) tr sent).result
        ≡ response_of response_handle (
            serve_http write_body handler
              (record { handle = request_handle; content = sent.content; failure = none })
              [])

response_of-served :
    (L : Library) (set_reply : Msg → Msg) (write_body : WriteBody) (handle sent_handle : ℕ)
    {raw_query raw_resp : Bytes}
    → ((tr : Trace) (raw : Bytes) → write_body tr raw ≡ none)
    → Answers L set_reply raw_query raw_resp
    → response_of handle (
        serve_http write_body
          (new_example_com_handler L set_reply)
          (record { handle = sent_handle; content = raw_query; failure = none })
          [])
      ≡ ok (reply_response handle raw_resp)
response_of-served L set_reply write_body handle sent_handle {raw_query} {raw_resp} writes a =
    ap (response_of handle) (
      serve_http-replies L set_reply write_body
        (record { handle = sent_handle; content = raw_query; failure = none }) [] refl a
      ∙ ap
          (λ o. (
            written o,
            body_written raw_resp
                ∷ before_write
                    (record { handle = sent_handle; content = raw_query; failure = none }) [],
          ))
          (writes _ raw_resp))

-- Let a query ask for example.com over HTTPS, let the request reach the handler of the test server
-- and its answer come back, let the query and the reply survive packing and parsing, and let the
-- reply be no longer than the client reads. Then the client gets the reply, validates it, and
-- decodes from it the address that the test server gives.
pub query_https-Accepted :
    (L : Library) (E : Env) (t : Transport) (ctx : Context) (addr : ServerAddr) (query : Msg)
    (q0 : Question) (set_reply : Msg → Msg) (tr : Trace) (raw_query raw_resp : Bytes)
    → t.read_all_context ≡ none
    → E.ctx_err tr ctx ≡ none
    → Hop L E t ctx addr raw_query (new_example_com_handler L set_reply)
    → RoundTrips L query (example_com_reply (set_reply query)) raw_query raw_resp
    → length raw_resp ≤ edns0_max_response_size L query
    → SetsReply set_reply
    → AsksExample query q0
    → (tr' : Trace) × (query_https L E t ctx addr query tr
        ≡ (ok (example_com_reply (set_reply query)), tr'))
      × Accepted L query (example_com_reply (set_reply query)) q0
query_https-Accepted L E t ctx addr query q0 set_reply tr raw_query raw_resp default_read alive hop
      trips fits sets asks =
    let (tr', ran) =
      query_https-answers L E t ctx addr query tr {handle = hop.response_handle} default_read alive
        trips.query_packs hop.made fits trips.reply_parses
        (λ at.
          hop.delivers at (record hop.req { content_type = some dns_message })
          ∙ rw hop.carries (
              response_of-served L set_reply hop.write_body hop.response_handle hop.request_handle
                hop.writes (RoundTrips-Answers L set_reply trips))) in
    (tr', ran, example_com_reply-Accepted L set_reply query q0 sets asks)
