-- ===== src/Https/Exchange.antt =====
-- What `queryHTTPS` sends and accepts, and that it closes every body that it gets.
use dnscore.Prelude.{
  ◌≡◌, refl, ◌∙◌, ap, Bytes, Bool, true, false, some, not, ◌∷◌, filter, arith, str_eq_iff, ==_iff,
}
use dnscore.Go.{ok}
use dnscore.Dns.{Msg, Library}
use dnscore.ServerAddr.{ServerAddr}
use dnscore.Runtime.{
  Env, Event, Trace, Time, Context, AddrPort, HttpRequest, HttpResponse, HttpAnswer, LogRecord,
  http_sent, body_read, body_closed,
}
use dnscore.Runtime.Io.{pure, ask, emit, ◌>>=◌}
use dnscore.Runtime.Only.{Only, only_rules, filter-Only}
use dnscore.Runtime.Invert.{>>=-eq-ok, lift_ok, pure_ok, call_ok, defer_ok, guard_ok}
use dnscore.Transport.{Transport, hook_or}
use dnscore.Transport.Steps.{check_ctx-Only}
use dnscore.Transport.Logs.{
  LogsPass, time_now-Only, maybe_log_query-Only, maybe_log_response_addr_port-Only,
}
use dnscore.Udp.{edns0_max_response_size}
use dnscore.Https.{
  dns_message, read_limited, new_http_request_with_context, http_client_do, read_all_context,
  read_response, maybe_log_round_trip, send_request, query_https,
}

-- What is sent over HTTP, and what is done with the body of the response.
abbrev pub is_http : Event → Bool
is_http (http_sent _ _) = true
is_http (body_read _) = true
is_http (body_closed _) = true
is_http _ = false

abbrev pub http : Trace → Trace
http = filter is_http

logs_off_http : LogsPass (λ e. not (is_http e))
logs_off_http = record { at_clock = λ now. refl; at_log = λ r. refl }

-- The packed query was posted as a DNS message; the response has status 200 and the content type
-- of a DNS message; its body was read up to the accepted size, parses to the answer, and is closed.
pub record Exchanged (L : Library) (E : Env) (t : Transport) (ctx : Context) (addr : ServerAddr)
    (query : Msg) (before after : Trace) (resp : Msg) : Type 0 where
  pub raw_query : Bytes
  pub new_req : HttpRequest
  pub answer : HttpAnswer
  pub http_resp : HttpResponse
  pub raw_resp : Bytes
  pub packed_query : L.pack query ≡ ok raw_query
  pub requested :
      hook_or t.new_http_request_with_context E.new_request ctx "POST" addr.address raw_query
      ≡ ok new_req
  pub answered : answer.result ≡ ok http_resp
  pub status : http_resp.status_code ≡ 200
  pub content_type : http_resp.content_type ≡ dns_message
  pub read_up_to :
      (at : Trace) × (hook_or t.read_all_context
          (λ _ _. read_limited)
          at
          ctx
          http_resp.body
          (edns0_max_response_size L query)
        ≡ ok raw_resp)
  pub parsed : L.unpack raw_resp ≡ ok resp
  pub on_http :
      http after
      ≡ body_closed http_resp.body.handle
        ∷ body_read http_resp.body.handle
        ∷ http_sent (record new_req { content_type = some dns_message }) answer
        ∷ http before

module _ (L : Library) (E : Env) (t : Transport) {p : Event → Bool} (h : LogsPass p) where
  open h use {at_log}

  pub maybe_log_round_trip-Only : (r : LogRecord) → Only p (maybe_log_round_trip L E t r)
  unfolding maybe_log_round_trip
  maybe_log_round_trip-Only r = search (only_rules, at_log)

module _ (L : Library) (E : Env) (t : Transport) (ctx : Context) (addr : ServerAddr) where
  http_client_do_ok :
      (req : HttpRequest) (tr : Trace) {answer : HttpAnswer} {mid : Trace}
      → http_client_do L E t req tr ≡ (ok answer, mid)
      → mid ≡ http_sent req answer ∷ tr
  unfolding http_client_do ask emit pure ◌>>=◌
  http_client_do_ok req tr h = ground arith

  send_request_ok :
      (t0 : Time) (raw_query : Bytes) (tr : Trace) {answer : HttpAnswer} {mid : Trace}
      → send_request L E t ctx addr t0 raw_query tr ≡ (ok answer, mid)
      → (new_req : HttpRequest) × (hook_or t.new_http_request_with_context E.new_request ctx "POST"
            addr.address raw_query
          ≡ ok new_req)
        × (http mid
            ≡ http_sent (record new_req { content_type = some dns_message }) answer ∷ http tr)
  unfolding send_request new_http_request_with_context
  send_request_ok t0 raw_query tr h =
      let a = >>=-eq-ok _ _ tr h in
      let b = >>=-eq-ok _ _ a.middle a.rest in
      let c = >>=-eq-ok _ _ b.middle b.rest in
      let d = >>=-eq-ok _ _ c.middle c.rest in
      let e = >>=-eq-ok _ _ d.middle d.rest in
      let made = lift_ok _ a.first in
      let done = pure_ok _ e.rest in
      let req = record a.value { content_type = some dns_message } in
      (
        a.value,
        made.0,
        ap http done.1
            ∙ filter-Only is_http _ (maybe_log_round_trip-Only L E t logs_off_http _) e.first
            ∙ filter-Only is_http _ (time_now-Only E t logs_off_http) d.first
            ∙ ap http (http_client_do_ok _ b.middle c.first)
            ∙ ap (λ w. http_sent req c.value ∷ w)
                (filter-Only is_http _ (maybe_log_round_trip-Only L E t logs_off_http _) b.first
                  ∙ ap http made.1)
            ∙ ap (λ x. http_sent req x ∷ http tr) done.0,
      )

  module _ (query : Msg) (t0 : Time) (raw_query : Bytes) (http_resp : HttpResponse)
      (laddr raddr : AddrPort) where
    read_response_ok :
        (tr : Trace) {resp : Msg} {mid : Trace}
        → read_response L E t ctx addr query t0 raw_query http_resp laddr raddr tr ≡ (ok resp, mid)
        → (http_resp.status_code ≡ 200)
          × (http_resp.content_type ≡ dns_message)
          × (raw_resp : Bytes) × (hook_or t.read_all_context
                (λ _ _. read_limited)
                tr
                ctx
                http_resp.body
                (edns0_max_response_size L query)
              ≡ ok raw_resp)
          × (L.unpack raw_resp ≡ ok resp)
          × (http mid ≡ body_read http_resp.body.handle ∷ http tr)
    unfolding read_response read_all_context
    read_response_ok tr h =
        let ok_status = guard_ok _ _ _ h in
        let ok_type = guard_ok _ _ _ ok_status.1 in
        let a = >>=-eq-ok _ _ tr ok_type.1 in
        let b = >>=-eq-ok _ _ a.middle a.rest in
        let c = >>=-eq-ok _ _ b.middle b.rest in
        let got = call_ok _ _ a.first in
        let parsed = lift_ok _ b.first in
        let done = pure_ok _ c.rest in
        (
          (==_iff _ _).0 ok_status.0,
          (str_eq_iff _ _).0 ok_type.0,
          a.value,
          got.0,
          parsed.0 ∙ ap ok done.0,
          cc (
            ap http done.1,
            filter-Only is_http _
                (maybe_log_response_addr_port-Only E t logs_off_http addr t0 raw_query a.value laddr
                  raddr)
                c.first,
            ap http parsed.1,
            ap http got.1,
          ),
        )

-- When `queryHTTPS` returns a response, it posted the packed query in the request that was made for
-- the address, labelled as a DNS message, and nothing else; the HTTP response had status 200 and
-- that content type; its body was read up to the accepted size, parses to the response, and was
-- closed.
pub query_https-Exchanged :
    (L : Library) (E : Env) (t : Transport) (ctx : Context) (addr : ServerAddr) (query : Msg)
    (tr tr' : Trace) {resp : Msg}
    → query_https L E t ctx addr query tr ≡ (ok resp, tr')
    → Exchanged L E t ctx addr query tr tr' resp
unfolding query_https emit
query_https-Exchanged L E t ctx addr query tr tr' h =
    let a = >>=-eq-ok _ _ tr h in
    let b = >>=-eq-ok _ _ a.middle a.rest in
    let c = >>=-eq-ok _ _ b.middle b.rest in
    let d = >>=-eq-ok _ _ c.middle c.rest in
    let e = >>=-eq-ok _ _ d.middle d.rest in
    let packed = lift_ok _ b.first in
    let (new_req, requested, sent) =
      send_request_ok L E t ctx addr c.value b.value c.middle d.first in
    let answered = lift_ok _ e.first in
    let closing = defer_ok _ _ e.rest in
    let before : http d.middle
        ≡ http_sent (record new_req { content_type = some dns_message }) d.value ∷ http tr =
      sent
      ∙ ap (λ w. http_sent (record new_req { content_type = some dns_message }) d.value ∷ w)
          (filter-Only is_http _ (maybe_log_query-Only E t logs_off_http addr b.value) c.first
            ∙ ap http packed.1
            ∙ filter-Only is_http _ (check_ctx-Only E ctx) a.first) in
    let (status, kind, raw_resp, read, parsed, got) =
      read_response_ok L E t ctx addr query c.value b.value e.value _ _ e.middle closing.0 in
    record {
      raw_query = b.value;
      new_req = new_req;
      answer = d.value;
      http_resp = e.value;
      raw_resp = raw_resp;
      packed_query = packed.0;
      requested = requested;
      answered = answered.0;
      status = status;
      content_type = kind;
      read_up_to = (e.middle, read);
      parsed = parsed;
      on_http =
          ap http closing.1
          ∙ ap (λ w. body_closed e.value.body.handle ∷ w)
              (got ∙ ap (λ w. body_read e.value.body.handle ∷ w) (ap http answered.1 ∙ before));
    }
