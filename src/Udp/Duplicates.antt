-- ===== src/Udp/Duplicates.antt =====
-- `queryUDPWithDuplicates`: what the channel gives until it is closed, and when that is.
use dnscore.Prelude.{◌≡◌, some, ◌∷◌, not}
use dnscore.Errors.{Error}
use dnscore.Dns.{Msg, Library}
use dnscore.ServerAddr.{ServerAddr}
use dnscore.Runtime.{Env, Event, Trace, Context, Conn, emitted}
use dnscore.Runtime.Only.{Only, only_rules}
use dnscore.Transport.{Transport}
use dnscore.Transport.Steps.{dial_context-Only, write-Only, set_deadline-Only}
use dnscore.Transport.Logs.{maybe_log_query-Only}
use dnscore.Udp.{send_query_udp, send_on}
use dnscore.Udp.Flow.{is_flow, logs_off_flow, IsEmission, only_err, Ended}

-- Sending adds nothing to the flow.
pub send_query_udp-off_flow :
    (L : Library) (E : Env) (t : Transport) (ctx : Context) (addr : ServerAddr) (query : Msg)
    → Only (λ e. not (is_flow e)) (send_query_udp L E t ctx addr query)
unfolding send_query_udp send_on
send_query_udp-off_flow L E t ctx addr query =
    search
      (
        only_rules,
        dial_context-Only E t,
        write-Only E,
        set_deadline-Only {p = λ e. not (is_flow e)},
        maybe_log_query-Only E t logs_off_flow,
      )
      depth 20

-- What the channel gives: the error of a done context, sent in any case, or of sending, and nothing
-- else; or the messages of the datagrams that parse, one for each, in order, then one error.
pub data Delivered (L : Library) (E : Env) (ctx : Context) (before : Trace) : Trace → Type 0 where
  expired :
      (e : Error) (at : Trace)
      → E.ctx_err at ctx ≡ some e
      → Delivered L E ctx before (emitted (only_err e) ∷ before)
  refused :
      (e : Error) (ev : Event)
      → IsEmission E ctx (only_err e) before ev
      → Delivered L E ctx before (ev ∷ before)
  collected :
      {after : Trace} (conn : Conn)
      → Ended L E ctx conn before after
      → Delivered L E ctx before after
