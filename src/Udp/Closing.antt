-- ===== src/Udp/Closing.antt =====
-- What a successful exchange over UDP sends and receives, and the connections that are not closed.
use dnscore.Prelude.{◌≡◌, refl, sym, ◌∙◌, ap, Bytes, ◌∷◌}
use dnscore.Go.{ok}
use dnscore.Dns.{Msg, Library}
use dnscore.ServerAddr.{ServerAddr}
use dnscore.Runtime.{Env, Trace, Context, Conn, Time, closed, wrote, received, dialed}
use dnscore.Runtime.Io.{emit, defer}
use dnscore.Runtime.Only.{filter-Only}
use dnscore.Runtime.Invert.{>>=-eq-ok, lift_ok, pure_ok, call_ok}
use dnscore.Transport.{Transport, read, dial_context}
use dnscore.Transport.Wire.{is_wire, wire, logs_off_wire}
use dnscore.Transport.Steps.{check_ctx-Only, set_deadline-Only, write_ok, read_ok}
use dnscore.Transport.Logs.{maybe_log_query-Only, maybe_log_response_conn-Only}
use dnscore.Udp.{
  SentQuery, edns0_max_response_size, send_on, send_query_udp, recv_response_udp, query_udp,
}

-- The query was packed and sent as one datagram on a new connection, one datagram was read into a
-- buffer of the accepted size, it parses to the response, and the connection was closed.
pub record Exchanged (L : Library) (E : Env) (addr : ServerAddr) (query : Msg)
    (before after : Trace) (resp : Msg) : Type 0 where
  pub conn : Conn
  pub raw_query : Bytes
  pub raw_resp : Bytes
  pub packed_query : L.pack query ≡ ok raw_query
  pub read_into_buffer :
      (at : Trace) × (E.read at conn (edns0_max_response_size L query) ≡ ok raw_resp)
  pub parsed : L.unpack raw_resp ≡ ok resp
  pub on_wire :
      wire after
      ≡ closed conn
        ∷ received conn (ok raw_resp)
        ∷ wrote conn raw_query
        ∷ dialed "udp" addr.address (ok conn)
        ∷ wire before

module _ (L : Library) (E : Env) (t : Transport) (ctx : Context) (addr : ServerAddr)
    (query : Msg) where
  send_on_ok :
      (conn : Conn) (tr : Trace) {sent : SentQuery} {mid : Trace}
      → send_on L E t ctx addr query conn tr ≡ (ok sent, mid)
      → (L.pack query ≡ ok sent.raw_query)
        × (sent.conn ≡ conn)
        × (wire mid ≡ wrote conn sent.raw_query ∷ wire tr)
  unfolding send_on
  send_on_ok conn tr {sent} h =
      let a = >>=-eq-ok _ _ tr h in
      let b = >>=-eq-ok _ _ a.middle a.rest in
      let c = >>=-eq-ok _ _ b.middle b.rest in
      let d = >>=-eq-ok _ _ c.middle c.rest in
      let packed = lift_ok _ b.first in
      let done = pure_ok _ d.rest in
      let same : b.value ≡ sent.raw_query = ap (λ x. x.raw_query) done.0 in
      (
        packed.0 ∙ ap ok same,
        sym (ap (λ x. x.conn) done.0),
        cc (
          ap wire (write_ok E conn b.value c.middle d.first),
          filter-Only is_wire _ (maybe_log_query-Only E t logs_off_wire addr b.value) c.first,
          filter-Only is_wire _ (set_deadline-Only conn (λ _. refl) ctx) a.first,
        ),
      )

  pub send_query_udp_ok :
      (tr : Trace) {sent : SentQuery} {mid : Trace}
      → send_query_udp L E t ctx addr query tr ≡ (ok sent, mid)
      → (L.pack query ≡ ok sent.raw_query)
        × (wire mid
            ≡ wrote sent.conn sent.raw_query ∷ dialed "udp" addr.address (ok sent.conn) ∷ wire tr)
  unfolding send_query_udp dial_context
  send_query_udp_ok tr h =
      let a = >>=-eq-ok _ _ tr h in
      let dial = call_ok _ (dialed "udp" addr.address) a.first in
      let s = send_on_ok a.value a.middle a.rest in (s.0, cc (s.1, s.2, ap wire dial.1))

  recv_response_udp_ok :
      (conn : Conn) (t0 : Time) (raw_query : Bytes) (tr : Trace) {resp : Msg} {mid : Trace}
      → recv_response_udp L E t addr conn t0 query raw_query tr ≡ (ok resp, mid)
      → (raw_resp : Bytes) × (E.read tr conn (edns0_max_response_size L query) ≡ ok raw_resp)
        × (L.unpack raw_resp ≡ ok resp)
        × (wire mid ≡ received conn (ok raw_resp) ∷ wire tr)
  unfolding recv_response_udp
  recv_response_udp_ok conn t0 raw_query tr h =
      let a = >>=-eq-ok _ _ tr h in
      let b = >>=-eq-ok _ _ a.middle a.rest in
      let c = >>=-eq-ok _ _ b.middle b.rest in
      let r = read_ok E conn _ tr a.first in
      let parsed = lift_ok _ b.first in
      let done = pure_ok _ c.rest in
      (
        a.value,
        r.0,
        parsed.0 ∙ ap ok done.0,
        cc (
          ap wire r.1,
          filter-Only is_wire _
              (maybe_log_response_conn-Only E t logs_off_wire addr t0 raw_query a.value conn)
              c.first,
        ),
      )

-- When `queryUDP` returns a response, it dialled one connection, sent the packed query as one
-- datagram, read one datagram into a buffer of the size that the query accepts, and closed the
-- connection; the response is what the datagram parses to.
pub query_udp-Exchanged :
    (L : Library) (E : Env) (t : Transport) (ctx : Context) (addr : ServerAddr) (query : Msg)
    (tr tr' : Trace) {resp : Msg}
    → query_udp L E t ctx addr query tr ≡ (ok resp, tr')
    → Exchanged L E addr query tr tr' resp
unfolding query_udp defer emit
query_udp-Exchanged L E t ctx addr query tr tr' {resp} h =
    let a = >>=-eq-ok _ _ tr h in
    let b = >>=-eq-ok _ _ a.middle a.rest in
    let sent = b.value in
    let s = send_query_udp_ok L E t ctx addr query a.middle b.first in
    let (raw_resp, read, parsed, got) =
      recv_response_udp_ok L E t ctx addr query sent.conn sent.t0 sent.raw_query b.middle (λ i. (
        (b.rest i).0,
        (recv_response_udp L E t addr sent.conn sent.t0 query sent.raw_query b.middle).1,
      )) in
    record {
      conn = sent.conn;
      raw_query = sent.raw_query;
      raw_resp = raw_resp;
      packed_query = s.0;
      read_into_buffer = (b.middle, read);
      parsed = parsed;
      on_wire =
          ap wire (sym (ap (λ x. x.1) b.rest))
          ∙ ap (λ w. closed sent.conn ∷ w)
              (cc (got, s.1, filter-Only is_wire _ (check_ctx-Only E ctx) a.first));
    }
