-- ===== src/Https/Balance.antt =====
-- DNS over HTTPS neither dials nor closes connections itself.
use dnscore.Prelude.{refl, Bytes}
use dnscore.Dns.{Msg, Library}
use dnscore.ServerAddr.{ServerAddr}
use dnscore.Runtime.{Env, Time, Context, AddrPort, HttpRequest, HttpResponse}
use dnscore.Runtime.Only.{
  Only, Only-bind, Only-lift, Only-emit, Only-ask, Only-pure, Only-defer, only_rules,
}
use dnscore.Transport.{Transport}
use dnscore.Transport.Steps.{check_ctx-Only}
use dnscore.Transport.Logs.{time_now-Only, maybe_log_query-Only, maybe_log_response_addr_port-Only}
use dnscore.Transport.Balance.{keeps_conns, logs_keep_conns, Balanced, Balanced-Only}
use dnscore.Https.Exchange.{maybe_log_round_trip-Only}
use dnscore.Https.{
  new_http_request_with_context, http_client_do, read_all_context, read_response, send_request,
  query_https,
}

module _ (L : Library) (E : Env) (t : Transport) (ctx : Context) (addr : ServerAddr) where
  read_response-Only :
      (query : Msg) (t0 : Time) (raw_query : Bytes) (http_resp : HttpResponse)
      (laddr raddr : AddrPort)
      → Only keeps_conns (read_response L E t ctx addr query t0 raw_query http_resp laddr raddr)
  unfolding read_response read_all_context
  read_response-Only query t0 raw_query http_resp laddr raddr =
      search (only_rules, maybe_log_response_addr_port-Only E t logs_keep_conns) depth 25

  http_client_do-Only : (req : HttpRequest) → Only keeps_conns (http_client_do L E t req)
  unfolding http_client_do
  http_client_do-Only req =
      Only-bind _ _ (Only-ask _)
        (λ answer. Only-bind _ _ (Only-emit _ refl) (λ _. Only-pure answer))

  send_request-Only :
      (t0 : Time) (raw_query : Bytes) → Only keeps_conns (send_request L E t ctx addr t0 raw_query)
  unfolding send_request new_http_request_with_context
  send_request-Only t0 raw_query = Only-bind _ _ (Only-lift _) (λ req.
      Only-bind _ _ (maybe_log_round_trip-Only L E t logs_keep_conns _) (λ _.
        Only-bind _ _ (http_client_do-Only _) (λ answer.
          Only-bind _ _ (time_now-Only E t logs_keep_conns) (λ now.
            Only-bind _ _ (maybe_log_round_trip-Only L E t logs_keep_conns _)
              (λ _. Only-pure answer)))))

  pub query_https-Only : (query : Msg) → Only keeps_conns (query_https L E t ctx addr query)
  unfolding query_https
  query_https-Only query =
      search
        (
          only_rules,
          Only-defer,
          check_ctx-Only E ctx,
          maybe_log_query-Only E t logs_keep_conns,
          send_request-Only,
          read_response-Only,
        )
        depth 25

  pub query_https-Balanced : (query : Msg) → Balanced (query_https L E t ctx addr query)
  query_https-Balanced query = Balanced-Only _ (query_https-Only query)
