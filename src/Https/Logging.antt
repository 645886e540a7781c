-- ===== src/Https/Logging.antt =====
-- What DNS over HTTPS leaves in the structured log.
use dnscore.Prelude.{◌≡◌, refl, ap, ◌∙◌, ◌∷◌, some, Bytes, not, ◌==◌, str_eq, arith, if◌then◌else◌}
use mathlib.Core.Path.{subst}
use dnscore.Errors.{sentinel, server_misbehaving}
use dnscore.Go.{ok}
use dnscore.Dns.{Msg, Library}
use dnscore.ServerAddr.{ServerAddr}
use dnscore.Runtime.{
  Env, Trace, Time, Context, AddrPort, HttpRequest, HttpResponse, HttpAnswer, LogRecord,
  round_trip_start, round_trip_done, logged,
}
use dnscore.Runtime.Io.{pure, emit}
use dnscore.Runtime.Only.{Only, Only-bind, Only-emit, Only-ask, Only-pure, Only-call, filter-Only}
use dnscore.Runtime.Invert.{>>=-eq-ok, lift_ok, pure_ok, defer_ok, guard_ok}
use dnscore.Transport.{Transport, time_now}
use dnscore.Transport.Logging.{
  is_log, logs, Logs, Logged, over_http, Logs-two, Logs-four, Logs-around, Logged-around,
  response_record, maybe_log_query-Logs, maybe_log_response_addr_port-Logs,
}
use dnscore.Transport.Steps.{check_ctx-Only}
use dnscore.Https.{
  dns_message, new_http_request_with_context, http_client_do, read_all_context,
  maybe_log_round_trip, send_request, read_response, query_https,
}

module _ (L : Library) (E : Env) (t : Transport) (ctx : Context) (addr : ServerAddr) where
  time_now-quiet : Only (λ e. not (is_log e)) (time_now E t)
  unfolding time_now
  time_now-quiet =
      Only-bind _ _ (Only-ask _) (λ now. Only-bind _ _ (Only-emit _ refl) (λ _. Only-pure now))

  http_client_do-quiet : (req : HttpRequest) → Only (λ e. not (is_log e)) (http_client_do L E t req)
  unfolding http_client_do
  http_client_do-quiet req =
      Only-bind _ _ (Only-ask _)
        (λ answer. Only-bind _ _ (Only-emit _ refl) (λ _. Only-pure answer))

  maybe_log_round_trip-Logs :
      (r : LogRecord) (tr : Trace) {u : Unit {0}} {mid : Trace}
      → maybe_log_round_trip L E t r tr ≡ (ok u, mid)
      → Logs t r tr mid
  unfolding maybe_log_round_trip emit pure
  maybe_log_round_trip-Logs r tr h = ground arith

  -- The two records of the round trip.
  send_request-Logs :
      (t0 : Time) (raw_query : Bytes) (tr : Trace) {answer : HttpAnswer} {mid : Trace}
      → send_request L E t ctx addr t0 raw_query tr ≡ (ok answer, mid)
      → (req : HttpRequest) × (t1 : Time) × (logs mid ≡ (
          if t.logger
          then logged (round_trip_done req answer t0 t1)
            ∷ logged (round_trip_start req t0)
            ∷ logs tr
          else logs tr))
  unfolding send_request new_http_request_with_context
  send_request-Logs t0 raw_query tr {answer} {mid} h =
      let a = >>=-eq-ok _ _ tr h in
      let b = >>=-eq-ok _ _ a.middle a.rest in
      let c = >>=-eq-ok _ _ b.middle b.rest in
      let d = >>=-eq-ok _ _ c.middle c.rest in
      let e = >>=-eq-ok _ _ d.middle d.rest in
      let req = record a.value { content_type = some dns_message } in
      let made = lift_ok _ a.first in
      let done = pure_ok _ e.rest in
      let first = maybe_log_round_trip-Logs (round_trip_start req t0) a.middle b.first in
      let second =
        maybe_log_round_trip-Logs (round_trip_done req c.value t0 d.value) d.middle e.first in
      let quiet =
        filter-Only is_log _ time_now-quiet d.first
        ∙ filter-Only is_log _ (http_client_do-quiet req) c.first in
      subst
        (λ (x : HttpAnswer).
          (req : HttpRequest) × (t1 : Time) × (logs mid ≡ (
            if t.logger
            then logged (round_trip_done req x t0 t1) ∷ logged (round_trip_start req t0) ∷ logs tr
            else logs tr)))
        done.0
        (
          req,
          d.value,
          Logs-two t _ _ tr b.middle mid
              (Logs-around t _ tr a.middle b.middle b.middle (ap logs made.1) first refl)
              (Logs-around t _ b.middle d.middle e.middle mid quiet second (ap logs done.1)),
        )

  read_response-Logs :
      (query : Msg) (t0 : Time) (raw_query : Bytes) (http_resp : HttpResponse)
      (laddr raddr : AddrPort) (tr : Trace) {resp : Msg} {mid : Trace}
      → read_response L E t ctx addr query t0 raw_query http_resp laddr raddr tr ≡ (ok resp, mid)
      → (raw_resp : Bytes) × (t1 : Time) × (L.unpack raw_resp ≡ ok resp)
        × Logs t (response_record addr raw_query raw_resp laddr raddr t0 t1) tr mid
  unfolding read_response read_all_context
  read_response-Logs query t0 raw_query http_resp laddr raddr tr {mid = mid} h =
      let status = guard_ok (http_resp.status_code == 200) (sentinel server_misbehaving) _ h in
      let checked =
        guard_ok (str_eq http_resp.content_type dns_message) (sentinel server_misbehaving) _
          status.1 in
      let a = >>=-eq-ok _ _ tr checked.1 in
      let b = >>=-eq-ok _ _ a.middle a.rest in
      let c = >>=-eq-ok _ _ b.middle b.rest in
      let parsed = lift_ok _ b.first in
      let done = pure_ok _ c.rest in
      let read = filter-Only is_log _ (Only-call _ _ (λ _. refl)) a.first in
      let (t1, wrote) =
        maybe_log_response_addr_port-Logs E t addr t0 raw_query a.value laddr raddr b.middle
          c.first in
      (
        a.value,
        t1,
        parsed.0 ∙ ap ok done.0,
        Logs-around t _ tr b.middle c.middle mid (ap logs parsed.1 ∙ read) wrote (ap logs done.1),
      )

  pub query_https-Logged :
      (query : Msg) (tr tr' : Trace) {resp : Msg}
      → query_https L E t ctx addr query tr ≡ (ok resp, tr')
      → Logged L E t addr query tr tr' resp
  unfolding query_https emit
  query_https-Logged query tr tr' h =
      let a = >>=-eq-ok _ _ tr h in
      let b = >>=-eq-ok _ _ a.middle a.rest in
      let c = >>=-eq-ok _ _ b.middle b.rest in
      let d = >>=-eq-ok _ _ c.middle c.rest in
      let e = >>=-eq-ok _ _ d.middle d.rest in
      let packed = lift_ok _ b.first in
      let answered = lift_ok _ e.first in
      let ran = defer_ok _ _ e.rest in
      let end =
        (read_response L E t ctx addr query c.value b.value e.value d.value.local_addr
          d.value.remote_addr e.middle).1 in
      let (raw_resp, t1, parsed, second) =
        read_response-Logs query c.value b.value e.value d.value.local_addr d.value.remote_addr
          e.middle ran.0 in
      let (req, t2, between) = send_request-Logs c.value b.value c.middle d.first in
      Logged-around tr b.middle end tr'
        (ap logs packed.1 ∙ filter-Only is_log _ (check_ctx-Only E ctx) a.first)
        (record {
          raw_query = b.value;
          raw_resp = raw_resp;
          laddr = d.value.local_addr;
          raddr = d.value.remote_addr;
          t0 = c.value;
          t1 = t1;
          between = _;
          route = over_http req d.value t2;
          packed = packed.0;
          parsed = parsed;
          recorded =
              Logs-four t _ _ _ _ b.middle c.middle d.middle end
                (maybe_log_query-Logs E t addr b.value b.middle c.first) between
                (Logs-around t _ d.middle e.middle end end (ap logs answered.1) second refl);
        })
        (ap logs ran.1)
