-- ===== src/Stream/Logging.antt =====
-- What DNS over TCP and over TLS leave in the structured log.
use dnscore.Prelude.{◌≡◌, [], Option, none, some, String, refl, ap, ◌∙◌, Bytes, not}
use mathlib.Core.Path.{subst}
use dnscore.Go.{Result, ok}
use dnscore.Dns.{Msg, Library}
use dnscore.ServerAddr.{ServerAddr}
use dnscore.Runtime.{Env, Trace, Time, Context, Conn}
use dnscore.Runtime.Io.{emit}
use dnscore.Runtime.Only.{Only, Only-call, Only-bind, Only-lift, filter-Only, only_rules}
use dnscore.Runtime.Invert.{>>=-eq-ok, lift_ok, pure_ok, defer_ok}
use dnscore.Transport.{Transport, Dialer}
use dnscore.Transport.Logging.{
  is_log, logs, Logs, Logged, over_conn, Logs-two, Logs-around, Logged-around, query_record,
  maybe_log_query-Logs, maybe_log_response_conn-Logs,
}
use dnscore.Transport.Steps.{
  check_ctx-Only, dial_context-Only, set_deadline-Only, write-Only, read_full-Only,
}
use dnscore.Stream.{
  send_frame, receive_frame, exchange_frames, query_stream, query_tcp, query_tls, default_dial_tls,
  dial_tls_with, dial_tls_context,
}

module _ (L : Library) (E : Env) (t : Transport) (ctx : Context) (addr : ServerAddr) where
  send_frame-Logs :
      (packed : Result Bytes) (conn : Conn) (tr : Trace) {raw : Bytes} {t0 : Time} {mid : Trace}
      → send_frame L E t ctx addr packed conn tr ≡ (ok (raw, t0), mid)
      → (packed ≡ ok raw) × Logs t (query_record addr raw t0) tr mid
  unfolding send_frame
  send_frame-Logs packed conn tr {mid = mid} h =
      let a = >>=-eq-ok _ _ tr h in
      let b = >>=-eq-ok _ _ a.middle a.rest in
      let c = >>=-eq-ok _ _ b.middle b.rest in
      let d = >>=-eq-ok _ _ c.middle c.rest in
      let e = >>=-eq-ok _ _ d.middle d.rest in
      let packed_ok = lift_ok packed b.first in
      let done = pure_ok _ e.rest in
      let logged = maybe_log_query-Logs E t addr b.value b.middle c.first in
      let timed = filter-Only is_log _ (set_deadline-Only conn (λ _. refl) ctx) a.first in
      let framed = filter-Only is_log _ (Only-lift _) d.first in
      let written = filter-Only is_log _ (write-Only E conn d.value refl) e.first in
      subst (λ (x : Bytes × Time). (packed ≡ ok x.0) × Logs t (query_record addr x.0 x.1) tr mid)
        done.0
        (
          packed_ok.0,
          Logs-around t _ tr b.middle c.middle mid (ap logs packed_ok.1 ∙ timed) logged
              (ap logs done.1 ∙ written ∙ framed),
        )

  receive_frame-Only : (conn : Conn) → Only (λ e. not (is_log e)) (receive_frame L E t conn)
  unfolding receive_frame
  receive_frame-Only conn = search (only_rules, read_full-Only E conn) depth 9

  exchange_frames-Logged :
      (query : Msg) (conn : Conn) (tr : Trace) {resp : Msg} {mid : Trace}
      → exchange_frames L E t ctx addr (L.pack query) conn tr ≡ (ok resp, mid)
      → Logged L E t addr query tr mid resp
  unfolding exchange_frames
  exchange_frames-Logged query conn tr {mid = mid} h =
      let a = >>=-eq-ok _ _ tr h in
      let b = >>=-eq-ok _ _ a.middle a.rest in
      let c = >>=-eq-ok _ _ b.middle b.rest in
      let d = >>=-eq-ok _ _ c.middle c.rest in
      let sent = send_frame-Logs (L.pack query) conn tr a.first in
      let read = filter-Only is_log _ (receive_frame-Only conn) b.first in
      let parsed = lift_ok _ c.first in
      let done = pure_ok _ d.rest in
      let (t1, answered) =
        maybe_log_response_conn-Logs E t addr a.value.1 a.value.0 b.value conn c.middle d.first in
      record {
        raw_query = a.value.0;
        raw_resp = b.value;
        laddr = E.local_addr_port conn;
        raddr = E.remote_addr_port conn;
        t0 = a.value.1;
        t1 = t1;
        between = [];
        route = over_conn conn;
        packed = sent.0;
        parsed = parsed.0 ∙ ap ok done.0;
        recorded = Logs-two t _ _ tr a.middle mid sent.1 (
            Logs-around t _ a.middle c.middle d.middle mid (ap logs parsed.1 ∙ read) answered
              (ap logs done.1));
      }

  query_stream-Logged :
      (query : Msg) (conn : Conn) (tr tr' : Trace) {resp : Msg}
      → query_stream L E t ctx addr (L.pack query) conn tr ≡ (ok resp, tr')
      → Logged L E t addr query tr tr' resp
  unfolding query_stream emit
  query_stream-Logged query conn tr tr' h =
      let ran = defer_ok _ _ h in
      Logged-around tr tr (exchange_frames L E t ctx addr (L.pack query) conn tr).1 tr' refl
        (exchange_frames-Logged query conn tr ran.0) (ap logs ran.1)

  pub query_tcp-Logged :
      (query : Msg) (tr tr' : Trace) {resp : Msg}
      → query_tcp L E t ctx addr query tr ≡ (ok resp, tr')
      → Logged L E t addr query tr tr' resp
  unfolding query_tcp
  query_tcp-Logged query tr tr' h =
      let a = >>=-eq-ok _ _ tr h in
      let b = >>=-eq-ok _ _ a.middle a.rest in
      Logged-around tr b.middle tr' tr'
        (filter-Only is_log _ (dial_context-Only E t ctx "tcp" addr.address (λ _. refl)) b.first
          ∙ filter-Only is_log _ (check_ctx-Only E ctx) a.first)
        (query_stream-Logged query b.value b.middle tr' b.rest) refl

  dial_tls_with-Only :
      (dial : Option Dialer) (network address : String)
      → Only (λ e. not (is_log e)) (dial_tls_with L E t dial ctx network address)
  unfolding dial_tls_with default_dial_tls
  dial_tls_with-Only none network address =
      Only-bind _ _ (Only-lift _) (λ hostname. Only-call _ _ (λ _. refl))
  dial_tls_with-Only (some dial) network address = Only-call _ _ (λ _. refl)

  pub query_tls-Logged :
      (query : Msg) (tr tr' : Trace) {resp : Msg}
      → query_tls L E t ctx addr query tr ≡ (ok resp, tr')
      → Logged L E t addr query tr tr' resp
  unfolding query_tls dial_tls_context
  query_tls-Logged query tr tr' h =
      let a = >>=-eq-ok _ _ tr h in
      let b = >>=-eq-ok _ _ a.middle a.rest in
      Logged-around tr b.middle tr' tr'
        (filter-Only is_log _ (dial_tls_with-Only t.dial_tls_context "tcp" addr.address) b.first
          ∙ filter-Only is_log _ (check_ctx-Only E ctx) a.first)
        (query_stream-Logged query b.value b.middle tr' b.rest) refl
