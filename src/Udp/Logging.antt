-- ===== src/Udp/Logging.antt =====
-- What DNS over UDP leaves in the structured log.
use mathlib.Core.Path.{subst}
use dnscore.Prelude.{◌≡◌, [], refl, ap, ◌∙◌, Bytes}
use dnscore.Go.{ok}
use dnscore.Dns.{Msg, Library}
use dnscore.ServerAddr.{ServerAddr}
use dnscore.Runtime.{Env, Trace, Time, Context, Conn}
use dnscore.Runtime.Io.{emit}
use dnscore.Runtime.Only.{filter-Only}
use dnscore.Runtime.Invert.{>>=-eq-ok, lift_ok, pure_ok, defer_ok}
use dnscore.Transport.{Transport}
use dnscore.Transport.Logging.{
  is_log, logs, Logs, Logged, over_conn, Logs-two, Logs-around, Logged-around, query_record,
  response_record, maybe_log_query-Logs, maybe_log_response_conn-Logs,
}
use dnscore.Transport.Steps.{
  check_ctx-Only, dial_context-Only, set_deadline-Only, write-Only, read-Only,
}
use dnscore.Udp.{
  SentQuery, edns0_max_response_size, send_on, send_query_udp, recv_response_udp, query_udp,
}

module _ (L : Library) (E : Env) (t : Transport) (ctx : Context) (addr : ServerAddr)
    (query : Msg) where
  send_on-Logs :
      (conn : Conn) (tr : Trace) {sent : SentQuery} {mid : Trace}
      → send_on L E t ctx addr query conn tr ≡ (ok sent, mid)
      → (L.pack query ≡ ok sent.raw_query)
        × Logs t (query_record addr sent.raw_query sent.t0) tr mid
  unfolding send_on
  send_on-Logs conn tr {mid = mid} h =
      let a = >>=-eq-ok _ _ tr h in
      let b = >>=-eq-ok _ _ a.middle a.rest in
      let c = >>=-eq-ok _ _ b.middle b.rest in
      let d = >>=-eq-ok _ _ c.middle c.rest in
      let packed = lift_ok _ b.first in
      let done = pure_ok _ d.rest in
      let timed = filter-Only is_log _ (set_deadline-Only conn (λ _. refl) ctx) a.first in
      let written = filter-Only is_log _ (write-Only E conn b.value refl) d.first in
      subst
        (λ (s : SentQuery).
          (L.pack query ≡ ok s.raw_query) × Logs t (query_record addr s.raw_query s.t0) tr mid)
        done.0
        (
          packed.0,
          Logs-around t _ tr b.middle c.middle mid (ap logs packed.1 ∙ timed)
              (maybe_log_query-Logs E t addr b.value b.middle c.first) (ap logs done.1 ∙ written),
        )

  recv_response_udp-Logs :
      (conn : Conn) (t0 : Time) (raw_query : Bytes) (tr : Trace) {resp : Msg} {mid : Trace}
      → recv_response_udp L E t addr conn t0 query raw_query tr ≡ (ok resp, mid)
      → (raw_resp : Bytes) × (t1 : Time) × (L.unpack raw_resp ≡ ok resp)
        × Logs t
            (response_record addr raw_query raw_resp
              (E.local_addr_port conn)
              (E.remote_addr_port conn)
              t0
              t1)
            tr
            mid
  unfolding recv_response_udp
  recv_response_udp-Logs conn t0 raw_query tr {mid = mid} h =
      let a = >>=-eq-ok _ _ tr h in
      let b = >>=-eq-ok _ _ a.middle a.rest in
      let c = >>=-eq-ok _ _ b.middle b.rest in
      let parsed = lift_ok _ b.first in
      let done = pure_ok _ c.rest in
      let read =
        filter-Only is_log _ (read-Only E conn (edns0_max_response_size L query) (λ _. refl))
          a.first in
      let (t1, logged) =
        maybe_log_response_conn-Logs E t addr t0 raw_query a.value conn b.middle c.first in
      (
        a.value,
        t1,
        parsed.0 ∙ ap ok done.0,
        Logs-around t _ tr b.middle c.middle mid (ap logs parsed.1 ∙ read) logged (ap logs done.1),
      )

  pub query_udp-Logged :
      (tr tr' : Trace) {resp : Msg}
      → query_udp L E t ctx addr query tr ≡ (ok resp, tr')
      → Logged L E t addr query tr tr' resp
  unfolding query_udp send_query_udp emit
  query_udp-Logged tr tr' {resp} h =
      let a = >>=-eq-ok _ _ tr h in
      let b = >>=-eq-ok _ _ a.middle a.rest in
      let dial = >>=-eq-ok _ _ a.middle b.first in
      let sent = b.value in
      let ran = defer_ok _ _ b.rest in
      let end = (recv_response_udp L E t addr sent.conn sent.t0 query sent.raw_query b.middle).1 in
      let first = send_on-Logs dial.value dial.middle dial.rest in
      let (raw_resp, t1, parsed, second) =
        recv_response_udp-Logs sent.conn sent.t0 sent.raw_query b.middle ran.0 in
      Logged-around tr dial.middle end tr'
        (filter-Only is_log _ (dial_context-Only E t ctx "udp" addr.address (λ _. refl)) dial.first
          ∙ filter-Only is_log _ (check_ctx-Only E ctx) a.first)
        (record {
          raw_query = sent.raw_query;
          raw_resp = raw_resp;
          laddr = E.local_addr_port sent.conn;
          raddr = E.remote_addr_port sent.conn;
          t0 = sent.t0;
          t1 = t1;
          between = [];
          route = over_conn sent.conn;
          packed = first.0;
          parsed = parsed;
          recorded = Logs-two t _ _ dial.middle b.middle end first.1 second;
        })
        (ap logs ran.1)
