-- ===== src/Https/Closing.antt =====
-- `queryHTTPS` closes the body of every response that it gets, whatever happens then.
use dnscore.Prelude.{
  ◌≡◌, ◌≢◌, refl, sym, ap, ◌∙◌, ◌⊎◌, inl, inr, Bytes, Bool, true, false, not, ◌∷◌, filter,
  Bool-cases,
}
use dnscore.Go.{Result, ok, err, panic}
use dnscore.Dns.{Msg, Library}
use dnscore.ServerAddr.{ServerAddr}
use dnscore.Runtime.{
  Env, Event, Trace, Time, Context, AddrPort, HttpRequest, HttpResponse, HttpAnswer, http_sent,
  body_closed,
}
use dnscore.Runtime.Io.{Io, pure, lift, ask, emit, defer, after, continue, ◌>>=◌}
use dnscore.Runtime.Only.{Only, only_rules, filter-Only}
use dnscore.Runtime.Invert.{>>=-cases}
use dnscore.Transport.{Transport, hook_or, check_ctx, time_now, maybe_log_query}
use dnscore.Transport.Steps.{check_ctx-Only}
use dnscore.Transport.Logs.{LogsPass, maybe_log_query-Only, maybe_log_response_addr_port-Only}
use dnscore.Https.{
  read_response, maybe_log_round_trip, send_request, read_all_context,
  new_http_request_with_context, http_client_do, query_https,
}

-- What opens and closes the bodies of responses.
abbrev pub is_body : Event → Bool
is_body (http_sent _ _) = true
is_body (body_closed _) = true
is_body _ = false

abbrev pub bodies : Trace → Trace
bodies = filter is_body

logs_off_bodies : LogsPass (λ e. not (is_body e))
logs_off_bodies = record { at_clock = λ now. refl; at_log = λ r. refl }

-- No request was sent; or one was sent and there was no response; or its response's body was closed.
abbrev pub AllClosed : Trace → Trace → Type 0
AllClosed before after =
    (after ≡ before)
    ⊎ ((req : HttpRequest) × (answer : HttpAnswer) × ((resp : HttpResponse)
          → answer.result ≢ ok resp)
        × (after ≡ http_sent req answer ∷ before))
    ⊎ ((req : HttpRequest) × (answer : HttpAnswer) × (resp : HttpResponse) × (answer.result
          ≡ ok resp)
        × (after ≡ body_closed resp.body.handle ∷ http_sent req answer ∷ before))

-- A step that neither sends nor closes, before the rest.
step :
    {A : Type 0} (m : Io A) (f : A → Io Msg) (tr before : Trace)
    → Only (λ e. not (is_body e)) m
    → bodies tr ≡ before
    → ((a : A) (mid : Trace) → bodies mid ≡ before → AllClosed before (bodies (f a mid).1))
    → AllClosed before (bodies ((m >>= f) tr).1)
step m f tr before quiet e rest = elim (>>=-cases m f tr) [
  | inl ran ↦
      rw (sym ran.rest) (rest ran.value ran.middle (filter-Only is_body m quiet ran.first ∙ e))
  | inr (fails, same) ↦ inl (ap bodies same ∙ filter-Only is_body m quiet refl ∙ e)
]

module _ (L : Library) (E : Env) (t : Transport) (ctx : Context) (addr : ServerAddr) where
  read_response-quiet :
      (query : Msg) (t0 : Time) (raw_query : Bytes) (http_resp : HttpResponse)
      (laddr raddr : AddrPort)
      → Only
          (λ e. not (is_body e))
          (read_response L E t ctx addr query t0 raw_query http_resp laddr raddr)
  unfolding read_response read_all_context
  read_response-quiet query t0 raw_query http_resp laddr raddr =
      search (only_rules, maybe_log_response_addr_port-Only E t logs_off_bodies) depth 25

  -- Once the request is made, it is sent and answered.
  Sends : (t0 : Time) (raw_query : Bytes) (tr : Trace) → Result HttpRequest → Type 0
  Sends t0 raw_query tr (ok made) =
      (req : HttpRequest) × (answer : HttpAnswer) × ((send_request L E t ctx addr t0 raw_query tr).0
        ≡ ok answer)
      × (bodies (send_request L E t ctx addr t0 raw_query tr).1 ≡ http_sent req answer ∷ bodies tr)
  Sends t0 raw_query tr _ =
      ((answer : HttpAnswer) → (send_request L E t ctx addr t0 raw_query tr).0 ≢ ok answer)
      × (bodies (send_request L E t ctx addr t0 raw_query tr).1 ≡ bodies tr)

  send_request-Sends :
      (t0 : Time) (raw_query : Bytes) (tr : Trace) (r : Result HttpRequest)
      → hook_or t.new_http_request_with_context E.new_request ctx "POST" addr.address raw_query ≡ r
      → Sends t0 raw_query tr r
  unfolding Sends send_request maybe_log_round_trip new_http_request_with_context http_client_do
      time_now lift ask emit pure continue ◌>>=◌
  send_request-Sends t0 raw_query tr (ok made) h = elim (Bool-cases t.logger) [
    | inl on ↦ rw (h, on) (_, _, refl, refl)
    | inr off ↦ rw (h, off) (_, _, refl, refl)
  ]
  send_request-Sends t0 raw_query tr (err e) h = rw h (λ a q. cc q, refl)
  send_request-Sends t0 raw_query tr panic h = rw h (λ a q. cc q, refl)

  Sends-cases :
      (t0 : Time) (raw_query : Bytes) (tr : Trace) (r : Result HttpRequest)
      → Sends t0 raw_query tr r
      → (((answer : HttpAnswer) → (send_request L E t ctx addr t0 raw_query tr).0 ≢ ok answer)
          × (bodies (send_request L E t ctx addr t0 raw_query tr).1 ≡ bodies tr))
        ⊎ ((req : HttpRequest) × (answer : HttpAnswer) × ((send_request L E t ctx addr t0 raw_query
                tr).0
              ≡ ok answer)
            × (bodies (send_request L E t ctx addr t0 raw_query tr).1
                ≡ http_sent req answer ∷ bodies tr))
  unfolding Sends
  Sends-cases t0 raw_query tr (ok made) s = inr s
  Sends-cases t0 raw_query tr (err e) s = inl s
  Sends-cases t0 raw_query tr panic s = inl s

  -- What follows the answer, with its result as a variable.
  abbrev respond : Msg → Time → Bytes → HttpAnswer → Result HttpResponse → Io Msg
  respond query t0 raw_query answer r = lift r >>= λ http_resp.
      defer (emit (body_closed http_resp.body.handle)) (
        read_response L E t ctx addr query t0 raw_query http_resp answer.local_addr
          answer.remote_addr)

  respond-closes :
      (query : Msg) (t0 : Time) (raw_query : Bytes) (req : HttpRequest) (answer : HttpAnswer)
      (r : Result HttpResponse) (mid before : Trace)
      → answer.result ≡ r
      → bodies mid ≡ http_sent req answer ∷ before
      → AllClosed before (bodies (respond query t0 raw_query answer r mid).1)
  unfolding lift defer after emit continue ◌>>=◌
  respond-closes query t0 raw_query req answer (ok resp) mid before p e =
      let quiet =
        read_response-quiet query t0 raw_query resp answer.local_addr answer.remote_addr in
      inr (
        inr (
          req,
          answer,
          resp,
          p,
          ap (λ w. body_closed resp.body.handle ∷ w) (filter-Only is_body _ quiet refl ∙ e),
        ))
  respond-closes query t0 raw_query req answer (err x) mid before p e =
      inr (inl (req, answer, (λ resp q. cc (p, q)), e))
  respond-closes query t0 raw_query req answer panic mid before p e =
      inr (inl (req, answer, (λ resp q. cc (p, q)), e))

  exchange-closes :
      (query : Msg) (t0 : Time) (raw_query : Bytes) (tr before : Trace)
      → bodies tr ≡ before
      → AllClosed before (
          bodies
            ((send_request L E t ctx addr t0 raw_query >>= λ answer.
                respond query t0 raw_query answer answer.result)
              tr).1)
  exchange-closes query t0 raw_query tr before e =
      let sends = Sends-cases t0 raw_query tr _ (send_request-Sends t0 raw_query tr _ refl) in
      elim (>>=-cases (send_request L E t ctx addr t0 raw_query)
        (λ answer. respond query t0 raw_query answer answer.result) tr) [
          | inr (fails, same) ↦ elim sends [
            | inl (never, quiet) ↦ inl (ap bodies same ∙ quiet ∙ e)
            | inr (req, answer, success, sent) ↦ absurd (fails answer success)
          ]
          | inl ran ↦ elim sends [
            | inl (never, quiet) ↦ absurd (never ran.value (ap (λ x. x.0) ran.first))
            | inr (req, answer, success, sent) ↦
                let same : ran.value ≡ answer = cc (ap (λ x. x.0) ran.first, success) in
                let held : bodies ran.middle ≡ http_sent req ran.value ∷ before =
                  ap bodies (sym (ap (λ x. x.1) ran.first)) ∙ sent ∙ λ i.
                  http_sent req (sym same i) ∷ e i in
                rw (sym ran.rest) (
                  respond-closes query t0 raw_query req ran.value ran.value.result ran.middle before
                    refl held)
          ]
        ]

-- Whatever `queryHTTPS` returns, an error or a panic while it reads or parses included: it sends at
-- most one request, and closes the body of the response to it, if there is one, once.
pub query_https-AllClosed :
    (L : Library) (E : Env) (t : Transport) (ctx : Context) (addr : ServerAddr) (query : Msg)
    (tr : Trace)
    → AllClosed (bodies tr) (bodies (query_https L E t ctx addr query tr).1)
unfolding query_https
query_https-AllClosed L E t ctx addr query tr =
    step (check_ctx E ctx) _ tr (bodies tr) (check_ctx-Only E ctx) refl (λ _ mid e.
      step (lift (L.pack query)) _ mid (bodies tr) (search only_rules) e (λ raw_query mid e.
        step (maybe_log_query E t addr raw_query) _ mid (bodies tr)
          (maybe_log_query-Only E t logs_off_bodies addr raw_query) e
          (λ t0 mid e. exchange-closes L E t ctx addr query t0 raw_query mid (bodies tr) e)))
