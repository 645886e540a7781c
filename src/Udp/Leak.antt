-- ===== src/Udp/Leak.antt =====
-- The connections that `queryUDP` leaves open.
use dnscore.Prelude.{◌≡◌, refl, ◌⊎◌, inl, inr, some, ◌∙◌, ap, ◌+◌, Bytes, none, ◌∷◌}
use dnscore.Errors.{Error}
use dnscore.Go.{ok, err}
use dnscore.Dns.{Msg, Library}
use dnscore.ServerAddr.{ServerAddr}
use dnscore.Runtime.{Env, Trace, Context, Conn, dialed}
use dnscore.Runtime.Io.{lift, call}
use dnscore.Runtime.Only.{Only, Extends, only_rules}
use dnscore.Runtime.Invert.{>>=-ok, >>=-err}
use dnscore.Transport.{
  Transport, hook_or, check_ctx, write, set_deadline, dial_context, maybe_log_query,
}
use dnscore.Transport.Wire.{opened, closings}
use dnscore.Transport.Steps.{
  set_deadline-Only, write-Only, set_deadline_total, maybe_log_query_total, write_fails,
  check_ctx_alive,
}
use dnscore.Transport.Logs.{maybe_log_query-Only}
use dnscore.Udp.{send_on, send_query_udp, query_udp}
use dnscore.Transport.Balance.{keeps_conns, opened-keeps, logs_keep_conns}

pub send_on-keeps :
    (L : Library) (E : Env) (t : Transport) (ctx : Context) (addr : ServerAddr) (query : Msg)
    (conn : Conn)
    → Only keeps_conns (send_on L E t ctx addr query conn)
unfolding send_on
send_on-keeps L E t ctx addr query conn =
    search
      (
        only_rules,
        write-Only E conn,
        set_deadline-Only {p = keeps_conns} conn (λ d. refl),
        maybe_log_query-Only E t logs_keep_conns,
      )
      depth 20

-- The query cannot be packed, or the connection refuses to send it.
abbrev pub CannotSend : Library → Env → Msg → Conn → Error → Type 0
CannotSend L E query conn e =
    (L.pack query ≡ err e)
    ⊎ ((raw : Bytes) × (L.pack query ≡ ok raw) × ((at : Trace) → E.write at conn raw ≡ some e))

module _ (L : Library) (E : Env) (t : Transport) (ctx : Context) (addr : ServerAddr) (query : Msg)
    (conn : Conn) {e : Error} where
  send_on_fails :
      (tr : Trace) → CannotSend L E query conn e → (send_on L E t ctx addr query conn tr).0 ≡ err e
  unfolding send_on lift
  send_on_fails tr (inl p) =
      let (mid, d) = set_deadline_total ctx conn tr in
      ap (λ x. x.0)
        (>>=-ok (set_deadline ctx conn) _ d ∙ >>=-err (lift (L.pack query)) _ (λ i. (p i, mid)))
  send_on_fails tr (inr (raw, p, w)) =
      let (mid, d) = set_deadline_total ctx conn tr in
      let (t0, mid', l) = maybe_log_query_total E t addr raw mid in
      ap (λ x. x.0)
        (>>=-ok (set_deadline ctx conn) _ d
          ∙ >>=-ok (lift (L.pack query)) _ (λ i. (p i, mid))
          ∙ >>=-ok (maybe_log_query E t addr raw) _ l
          ∙ >>=-err (write E conn raw) _ (write_fails E conn raw mid' (w mid')))

  send_query_udp_fails :
      (tr : Trace)
      → hook_or t.dial_context E.default_dial tr ctx "udp" addr.address ≡ ok conn
      → CannotSend L E query conn e
      → send_query_udp L E t ctx addr query tr
        ≡ (err e, (send_on L E t ctx addr query conn (dialed "udp" addr.address (ok conn) ∷ tr)).1)
  unfolding send_query_udp dial_context call
  send_query_udp_fails tr dial f =
      let tr1 = dialed "udp" addr.address (ok conn) ∷ tr in
      >>=-ok (dial_context E t ctx "udp" addr.address) _
        (λ i. (dial i, dialed "udp" addr.address (dial i) ∷ tr))
      ∙ λ i. (send_on_fails tr1 f i, (send_on L E t ctx addr query conn tr1).1)

-- If the context is not done and the connection is dialled, and then the query cannot be packed or
-- cannot be sent, `queryUDP` returns that error with the connection opened and nothing closed.
pub query_udp-leak :
    (L : Library) (E : Env) (t : Transport) (ctx : Context) (addr : ServerAddr) (query : Msg)
    (conn : Conn) (tr : Trace) {e : Error}
    → E.ctx_err tr ctx ≡ none
    → hook_or t.dial_context E.default_dial tr ctx "udp" addr.address ≡ ok conn
    → CannotSend L E query conn e
    → ((query_udp L E t ctx addr query tr).0 ≡ err e)
      × (opened (query_udp L E t ctx addr query tr).1 ≡ opened tr + 1)
      × (closings (query_udp L E t ctx addr query tr).1 ≡ closings tr)
unfolding query_udp
query_udp-leak L E t ctx addr query conn tr {e} alive dial f = rw run (
  refl,
  rw within.extends (opened-keeps within.added tr1 within.pass).0,
  rw within.extends (opened-keeps within.added tr1 within.pass).1,
)
  where
    tr1 : Trace
    tr1 = dialed "udp" addr.address (ok conn) ∷ tr

    run : query_udp L E t ctx addr query tr ≡ (err e, (send_on L E t ctx addr query conn tr1).1)
    run =
        >>=-ok (check_ctx E ctx) _ (check_ctx_alive E ctx tr alive)
        ∙ >>=-err (send_query_udp L E t ctx addr query) _
            (send_query_udp_fails L E t ctx addr query conn tr dial f)

    within : Extends keeps_conns tr1 (send_on L E t ctx addr query conn tr1).1
    within = (send_on-keeps L E t ctx addr query conn).at tr1
