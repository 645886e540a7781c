-- ===== src/Https/Answering.antt =====
-- A run of DNS over HTTPS in which every step succeeds.
use dnscore.Prelude.{
  ◌≡◌, refl, ap, ◌∙◌, ◌≤◌, ℕ, zero, suc, Bytes, some, none, [], ◌∷◌, length, take, leb, arith,
  Bool-cases, inl, inr,
}
use dnscore.Go.{Result, ok}
use dnscore.Dns.{Msg, Library}
use dnscore.ServerAddr.{ServerAddr}
use dnscore.Runtime.{
  Env, Trace, Time, Context, AddrPort, Body, HttpRequest, HttpResponse, HttpAnswer, body_read,
  body_closed, http_sent, LogRecord, round_trip_start, round_trip_done, logged,
}
use dnscore.Runtime.Io.{pure, lift, ask, call, emit, defer, after, ◌>>=◌}
use dnscore.Runtime.Invert.{>>=-ok}
use dnscore.Transport.{Transport, hook_or}
use dnscore.Transport.Steps.{
  check_ctx_alive, maybe_log_query_total, time_now_total, maybe_log_response_addr_port_total,
}
use dnscore.Udp.{edns0_max_response_size}
use dnscore.Https.{
  dns_message, body_end, read_limited, new_http_request_with_context, http_client_do,
  read_all_context, maybe_log_round_trip, send_request, read_response, query_https,
}

take-all : (n : ℕ) (xs : Bytes) → length xs ≤ n → take n xs ≡ xs
take-all zero [] h = refl
take-all zero (x ∷ xs) h = absurd (omega (arith, h))
take-all (suc n) [] h = refl
take-all (suc n) (x ∷ xs) h = ap (λ l. x ∷ l) (take-all n xs (omega (arith, h)))

-- A whole body within the limit is read as it is.
read_limited-whole :
    (handle n : ℕ) (content : Bytes)
    → length content ≤ n
    → read_limited (record { handle = handle; content = content; failure = none }) n ≡ ok content
unfolding read_limited body_end
read_limited-whole handle n content fits = elim (Bool-cases (leb n (length content))) [
  | inl full ↦ rw full (ap ok (take-all n content fits))
  | inr short ↦ rw short
]

abbrev ReadAll : Type 0
ReadAll = Trace → Context → Body → ℕ → Result Bytes

-- A response that is accepted, whose body is these bytes.
abbrev pub reply_response : ℕ → Bytes → HttpResponse
reply_response handle raw_resp = record {
  status_code = 200;
  content_type = dns_message;
  body = record { handle = handle; content = raw_resp; failure = none };
}

module _ (L : Library) (E : Env) (t : Transport) (ctx : Context) (addr : ServerAddr) (query : Msg)
    (tr : Trace) {raw_query raw_resp : Bytes} {resp : Msg} {req : HttpRequest} {handle : ℕ}
    (default_read : t.read_all_context ≡ none) (alive : E.ctx_err tr ctx ≡ none)
    (packed : L.pack query ≡ ok raw_query)
    (made : hook_or t.new_http_request_with_context E.new_request ctx "POST" addr.address raw_query
      ≡ ok req)
    (fits : length raw_resp ≤ edns0_max_response_size L query)
    (parsed : L.unpack raw_resp ≡ ok resp)
    (answered : (at : Trace)
      → (hook_or t.http_client_do
          (λ tr. E.conn_trace_do tr t.http_client)
          at
          (record req { content_type = some dns_message })).result
        ≡ ok (reply_response handle raw_resp)) where
  http_client_do-answers :
      (sent : HttpRequest) (mid : Trace)
      → (answer : HttpAnswer) × (http_client_do L E t sent mid
          ≡ (ok answer, http_sent sent answer ∷ mid))
        × (answer ≡ hook_or t.http_client_do (λ tr. E.conn_trace_do tr t.http_client) mid sent)
  unfolding http_client_do ask emit pure ◌>>=◌
  http_client_do-answers sent mid = (_, refl, refl)

  maybe_log_round_trip_total :
      (r : LogRecord) (mid : Trace)
      → (end : Trace) × (maybe_log_round_trip L E t r mid ≡ (ok tt, end))
  unfolding maybe_log_round_trip emit pure
  maybe_log_round_trip_total r mid = elim (Bool-cases t.logger) [
    | inl on ↦ (logged r ∷ mid, rw on refl)
    | inr off ↦ (mid, rw off refl)
  ]

  send_request-answers :
      (t0 : Time) (mid : Trace)
      → (answer : HttpAnswer) × (end : Trace) × (send_request L E t ctx addr t0 raw_query mid
          ≡ (ok answer, end))
        × (answer.result ≡ ok (reply_response handle raw_resp))
  unfolding send_request new_http_request_with_context lift emit pure
  send_request-answers t0 mid =
      let sent = record req { content_type = some dns_message } in
      let (before, started) = maybe_log_round_trip_total (round_trip_start sent t0) mid in
      let (answer, reached, same) = http_client_do-answers sent before in
      let (now, later, clock) = time_now_total E t (http_sent sent answer ∷ before) in
      let (end, finished) = maybe_log_round_trip_total (round_trip_done sent answer t0 now) later in
      (
        answer,
        end,
        >>=-ok _ _ (λ i. (made i, mid))
            ∙ >>=-ok _ _ started
            ∙ >>=-ok _ _ reached
            ∙ >>=-ok _ _ clock
            ∙ >>=-ok _ _ finished,
        ap (λ a. a.result) same ∙ answered _,
      )

  read_response-answers :
      (t0 : Time) (laddr raddr : AddrPort) (mid : Trace)
      → (end : Trace) × (read_response L E t ctx addr query t0 raw_query
            (reply_response handle raw_resp)
            laddr
            raddr
            mid
          ≡ (ok resp, end))
  unfolding read_response read_all_context pure lift call
  read_response-answers t0 laddr raddr mid =
      let body = (reply_response handle raw_resp).body in
      let n = edns0_max_response_size L query in
      let read : hook_or {A = ReadAll} t.read_all_context (λ _ _. read_limited) mid ctx body n
          ≡ ok raw_resp =
        ap (λ o. hook_or {A = ReadAll} o (λ _ _. read_limited) mid ctx body n) default_read
        ∙ read_limited-whole handle n raw_resp fits in
      let (end, wrote) =
        maybe_log_response_addr_port_total E t addr t0 raw_query raw_resp laddr raddr
          (body_read handle ∷ mid) in
      (
        end,
        >>=-ok _ _ (λ i. (read i, body_read handle ∷ mid))
            ∙ >>=-ok _ _ (λ i. (parsed i, body_read handle ∷ mid))
            ∙ >>=-ok _ _ wrote,
      )

  pub query_https-answers : (end : Trace) × (query_https L E t ctx addr query tr ≡ (ok resp, end))
  unfolding query_https lift defer after emit
  query_https-answers =
      let (t0, mid, wrote) = maybe_log_query_total E t addr raw_query tr in
      let (answer, sent, request, response) = send_request-answers t0 mid in
      let (end, read) = read_response-answers t0 answer.local_addr answer.remote_addr sent in
      (
        body_closed handle ∷ end,
        >>=-ok _ _ (check_ctx_alive E ctx tr alive)
            ∙ >>=-ok _ _ (λ i. (packed i, tr))
            ∙ >>=-ok _ _ wrote
            ∙ >>=-ok _ _ request
            ∙ >>=-ok _ _ (λ i. (response i, sent))
            ∙ ap (after (emit (body_closed handle))) read,
      )
