-- ===== src/Udp/Answering.antt =====
-- A round trip over UDP in which every step succeeds, and the datagrams that it sends in any case.
use dnscore.Prelude.{
  ◌≡◌, refl, sym, ap, ◌∙◌, ==_iff, String, Bytes, none, true, List, [], ◌∷◌, ◌++◌, All, ◌==◌,
  if◌then◌else◌,
}
use dnscore.Go.{ok}
use dnscore.Dns.{Msg, Library}
use dnscore.ServerAddr.{ServerAddr}
use dnscore.Runtime.{Env, Trace, Time, Context, Conn, closed, wrote, received, dialed}
use dnscore.Runtime.Io.{pure, lift, call, emit, defer, after}
use dnscore.Runtime.Only.{Only, only_rules}
use dnscore.Runtime.Invert.{>>=-ok}
use dnscore.Transport.{Transport, hook_or, dial_context}
use dnscore.Transport.Wire.{wire}
use dnscore.Transport.Pipe.{writes_nothing, logs_write_nothing}
use dnscore.Transport.Steps.{
  check_ctx_alive, set_deadline_total, maybe_log_query_total, maybe_log_response_conn_total,
  write_works, read_works, read-Only,
}
use dnscore.Transport.Logs.{maybe_log_response_conn-Only}
use dnscore.Udp.{edns0_max_response_size, send_on, send_query_udp, recv_response_udp, query_udp}
use dnscore.Udp.Closing.{send_query_udp_ok}

-- The datagrams that were sent on a connection, the latest first.
abbrev pub sent_datagrams : Conn → Trace → List Bytes
sent_datagrams conn [] = []
sent_datagrams conn (wrote c bytes ∷ tr) =
    let earlier = sent_datagrams conn tr in if c == conn then bytes ∷ earlier else earlier
sent_datagrams conn (_ ∷ tr) = sent_datagrams conn tr

module _ (conn : Conn) where
  sent_datagrams-wire : (tr : Trace) → sent_datagrams conn (wire tr) ≡ sent_datagrams conn tr
  sent_datagrams-wire [] = refl
  sent_datagrams-wire (wrote c bytes ∷ tr) =
      ap (λ l. if c == conn then bytes ∷ l else l) (sent_datagrams-wire tr)
  sent_datagrams-wire (_ ∷ tr) = sent_datagrams-wire tr

  sent_datagrams-keeps :
      (es tr : Trace)
      → All (λ e. writes_nothing e ≡ true) es
      → sent_datagrams conn (es ++ tr) ≡ sent_datagrams conn tr
  sent_datagrams-keeps [] tr h = refl
  sent_datagrams-keeps (wrote _ _ ∷ es) tr h = absurd (cc h.0)
  sent_datagrams-keeps (_ ∷ es) tr h = sent_datagrams-keeps es tr h.1

  sent_datagrams-wrote :
      (network address : String) (raw : Bytes) (tr mid : Trace)
      → wire mid ≡ wrote conn raw ∷ dialed network address (ok conn) ∷ wire tr
      → sent_datagrams conn mid ≡ raw ∷ sent_datagrams conn tr
  sent_datagrams-wrote network address raw tr mid h =
      sym (sent_datagrams-wire mid)
      ∙ ap (sent_datagrams conn) h
      ∙ rw ((==_iff conn conn).1 refl) (ap (λ l. raw ∷ l) (sent_datagrams-wire tr))

module _ (L : Library) (E : Env) (t : Transport) (ctx : Context) (addr : ServerAddr) (query : Msg)
    (tr : Trace) (conn : Conn) (raw_query : Bytes) (alive : E.ctx_err tr ctx ≡ none)
    (dials : hook_or t.dial_context E.default_dial tr ctx "udp" addr.address ≡ ok conn)
    (packs : L.pack query ≡ ok raw_query)
    (writes : (at : Trace) (bytes : Bytes) → E.write at conn bytes ≡ none) where
  send_query_udp-works :
      (t0 : Time) × (mid : Trace) × (send_query_udp L E t ctx addr query tr
        ≡ (ok (record { conn = conn; t0 = t0; raw_query = raw_query }), mid))
  unfolding send_query_udp send_on dial_context call lift pure
  send_query_udp-works =
      let connected : Trace = dialed "udp" addr.address (ok conn) ∷ tr in
      let (timed, deadline) = set_deadline_total ctx conn connected in
      let (t0, mid, logged) = maybe_log_query_total E t addr raw_query timed in
      (
        t0,
        wrote conn raw_query ∷ mid,
        >>=-ok _ _ (λ i. (dials i, dialed "udp" addr.address (dials i) ∷ tr))
            ∙ >>=-ok _ _ deadline
            ∙ >>=-ok _ _ (λ i. (packs i, timed))
            ∙ >>=-ok _ _ logged
            ∙ >>=-ok _ _ (write_works E conn raw_query mid (writes mid _)),
      )

  send_query_udp-counts :
      (t0 : Time) (mid : Trace)
      → send_query_udp L E t ctx addr query tr
        ≡ (ok (record { conn = conn; t0 = t0; raw_query = raw_query }), mid)
      → sent_datagrams conn mid ≡ raw_query ∷ sent_datagrams conn tr
  send_query_udp-counts t0 mid sent =
      sent_datagrams-wrote conn "udp" addr.address raw_query tr mid
        (send_query_udp_ok L E t ctx addr query tr sent).1

  recv_response_udp-Only :
      (t0 : Time) → Only writes_nothing (recv_response_udp L E t addr conn t0 query raw_query)
  unfolding recv_response_udp
  recv_response_udp-Only t0 =
      search (only_rules, read-Only E conn, maybe_log_response_conn-Only E t logs_write_nothing)
        depth 25

  -- Whatever it reads afterwards, the round trip sends one datagram on its connection.
  pub query_udp-sends :
      sent_datagrams conn (query_udp L E t ctx addr query tr).1 ≡ raw_query ∷ sent_datagrams conn tr
  unfolding query_udp defer after emit
  query_udp-sends =
      let (t0, mid, sent) = send_query_udp-works in
      let x = (recv_response_udp-Only t0).at mid in
      ap (λ r. sent_datagrams conn r.1)
        (>>=-ok _ _ (check_ctx_alive E ctx tr alive) ∙ >>=-ok _ _ sent)
      ∙ ap (sent_datagrams conn) x.extends
      ∙ sent_datagrams-keeps conn x.added mid x.pass
      ∙ send_query_udp-counts t0 mid sent

  pub query_udp-answers :
      {raw_resp : Bytes} {resp : Msg}
      → ((at : Trace)
          → sent_datagrams conn at ≡ raw_query ∷ sent_datagrams conn tr
          → E.read at conn (edns0_max_response_size L query) ≡ ok raw_resp)
      → L.unpack raw_resp ≡ ok resp
      → (tr' : Trace) × (query_udp L E t ctx addr query tr ≡ (ok resp, tr'))
  unfolding query_udp recv_response_udp defer after emit lift pure
  query_udp-answers {raw_resp} {resp} reads parsed =
      let (t0, mid, sent) = send_query_udp-works in
      let read = received conn (ok raw_resp) ∷ mid in
      let (end, logged) = maybe_log_response_conn_total E t addr t0 raw_query raw_resp conn read in
      (
        closed conn ∷ end,
        >>=-ok _ _ (check_ctx_alive E ctx tr alive)
            ∙ >>=-ok _ _ sent
            ∙ ap (after (emit (closed conn))) (
                >>=-ok _ _ (read_works E conn _ mid (reads mid (send_query_udp-counts t0 mid sent)))
                ∙ >>=-ok _ _ (λ i. (parsed i, read))
                ∙ >>=-ok _ _ logged),
      )
