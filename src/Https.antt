-- ===== src/Https.antt =====
-- dohttps.go: DNS over HTTPS. A body that fails just as the limit is reached counts as read.
pub mod Exchange
pub mod Closing
pub mod Balance
pub mod Answering
pub mod Logging
mod Tests
use dnscore.Prelude.{
  ℕ, Bytes, Bool, true, false, String, Option, none, some, not, length, take, leb, ◌==◌, str_eq,
  if◌then◌else◌,
}
use dnscore.Errors
use dnscore.Errors.{Error, sentinel}
use dnscore.Go.{Result, ok, err}
use dnscore.Dns.{Msg, Library}
use dnscore.ServerAddr.{ServerAddr}
use dnscore.Runtime.{
  Env, Trace, Time, Context, AddrPort, HttpRequest, HttpResponse, HttpAnswer, Body, http_sent,
  body_read, body_closed, LogRecord, round_trip_start, round_trip_done, logged,
}
use dnscore.Runtime.Io.{Io, pure, fail, lift, ask, call, emit, defer, ◌>>=◌, ◌>>◌}
use dnscore.Transport.{
  Transport, hook_or, check_ctx, time_now, maybe_log_query, maybe_log_response_addr_port,
}
use dnscore.Udp.{edns0_max_response_size}

-- `io.ReadAll(body)`, by how the body ends.
unfoldable pub body_end : Body → Option Error → Result Bytes
body_end body none = ok body.content
body_end body (some e) = err e

-- `io.ReadAll(io.LimitReader(body, n))`
unfoldable pub read_limited : Body → ℕ → Result Bytes
unfolding body_end
read_limited body n =
    if leb n (length body.content) then ok (take n body.content) else body_end body body.failure

abbrev pub dns_message : String
dns_message = "application/dns-message"

module _ (L : Library) (E : Env) (t : Transport) where
  pub new_http_request_with_context : Context → String → String → Bytes → Io HttpRequest
  new_http_request_with_context ctx method url body =
      lift (hook_or t.new_http_request_with_context E.new_request ctx method url body)

  -- `HTTPClientDo`, or `httpconntrace.Do` with the client.
  pub http_client_do : HttpRequest → Io HttpAnswer
  http_client_do req = do
    answer ← ask (λ tr. hook_or t.http_client_do (λ tr. E.conn_trace_do tr t.http_client) tr req)
    emit (http_sent req answer)
    pure answer

  pub read_all_context : Context → Body → ℕ → Io Bytes
  read_all_context ctx body n =
      call (λ tr. hook_or t.read_all_context (λ _ _. read_limited) tr ctx body n)
        (λ _. body_read body.handle)

  -- Steps 6 and 7 once the body will be closed.
  pub read_response :
      Context → ServerAddr → Msg → Time → Bytes → HttpResponse → AddrPort → AddrPort → Io Msg
  read_response ctx addr query t0 raw_query http_resp laddr raddr =
      if not (http_resp.status_code == 200)
      then fail (sentinel Errors.server_misbehaving)
      else if not (str_eq http_resp.content_type dns_message)
      then fail (sentinel Errors.server_misbehaving)
      else do
        raw_resp ← read_all_context ctx http_resp.body (edns0_max_response_size L query)
        resp ← lift (L.unpack raw_resp)
        maybe_log_response_addr_port E t addr t0 raw_query raw_resp laddr raddr
        pure resp

  -- `MaybeLogRoundTripStart` and `MaybeLogRoundTripDone` of package httpslog
  unfoldable pub maybe_log_round_trip : LogRecord → Io (Unit {0})
  maybe_log_round_trip r = if t.logger then emit (logged r) else pure tt

  -- Steps 2 to 5: the request with its header, between the two calls of the HTTP logger.
  pub send_request : Context → ServerAddr → Time → Bytes → Io HttpAnswer
  send_request ctx addr t0 raw_query = do
    new_req ← new_http_request_with_context ctx "POST" addr.address raw_query
    let req = record new_req { content_type = some dns_message }
    maybe_log_round_trip (round_trip_start req t0)
    answer ← http_client_do req
    now ← time_now E t
    maybe_log_round_trip (round_trip_done req answer t0 now)
    pure answer

  unfoldable pub query_https : Context → ServerAddr → Msg → Io Msg
  query_https ctx addr query = do
    check_ctx E ctx
    raw_query ← lift (L.pack query)
    t0 ← maybe_log_query E t addr raw_query
    answer ← send_request ctx addr t0 raw_query
    http_resp ← lift answer.result
    defer (emit (body_closed http_resp.body.handle))
        (read_response ctx addr query t0 raw_query http_resp answer.local_addr answer.remote_addr)
