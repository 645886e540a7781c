-- ===== src/Transport/Steps.antt =====
-- The events that a step on a connection can add: its own, and no other.
use dnscore.Prelude.{◌≡◌, refl, ◌≢◌, ℕ, Bytes, String, Bool, true, Option, none, some, ◌∷◌, arith}
use dnscore.Go.{Result, ok, err}
use dnscore.Errors.{Error}
use dnscore.ServerAddr.{ServerAddr}
use dnscore.Runtime.Io.{pure, call, ask, emit, check, ◌>>=◌}
use dnscore.Runtime.Invert.{call_ok}
use dnscore.Runtime.{
  AddrPort, Env, Event, Trace, Time, Conn, Context, dialed, wrote, received, deadline_set,
}
use dnscore.Runtime.Only.{Only, only_rules}
use dnscore.Transport.{
  Transport, check_ctx, write, read_full, read, deadline_events, set_deadline, dial_context,
  hook_or, time_now, maybe_log_query, maybe_log_response_addr_port, maybe_log_response_conn,
}

module _ {p : Event → Bool} (E : Env) where
  pub check_ctx-Only : (ctx : Context) → Only p (check_ctx E ctx)
  unfolding check_ctx
  check_ctx-Only ctx = search only_rules

  pub write-Only :
      (conn : Conn) (bytes : Bytes) → p (wrote conn bytes) ≡ true → Only p (write E conn bytes)
  unfolding write
  write-Only conn bytes h = search only_rules

  pub read_full-Only :
      (conn : Conn) (n : ℕ)
      → ((r : Result Bytes) → p (received conn r) ≡ true)
      → Only p (read_full E conn n)
  unfolding read_full
  read_full-Only conn n h = search only_rules

  pub read-Only :
      (conn : Conn) (n : ℕ)
      → ((r : Result Bytes) → p (received conn r) ≡ true)
      → Only p (read E conn n)
  unfolding read
  read-Only conn n h = search only_rules

  pub dial_context-Only :
      (t : Transport) (ctx : Context) (network address : String)
      → ((r : Result Conn) → p (dialed network address r) ≡ true)
      → Only p (dial_context E t ctx network address)
  unfolding dial_context
  dial_context-Only t ctx network address h = search only_rules

module _ {p : Event → Bool} (conn : Conn) (h : (d : Time) → p (deadline_set conn d) ≡ true) where
  deadline_events-Only : (o : Option Time) → Only p (deadline_events conn o)
  unfolding deadline_events
  deadline_events-Only none = search only_rules
  deadline_events-Only (some d) = search (only_rules, h)

  pub set_deadline-Only : (ctx : Context) → Only p (set_deadline ctx conn)
  unfolding set_deadline
  set_deadline-Only ctx = deadline_events-Only ctx.deadline

module _ (E : Env) (conn : Conn) where
  -- `conn.Write` that returns no error.
  pub write_ok :
      (bytes : Bytes) (tr : Trace) {u : Unit {0}} {mid : Trace}
      → write E conn bytes tr ≡ (ok u, mid)
      → mid ≡ wrote conn bytes ∷ tr
  unfolding write ask emit check ◌>>=◌
  write_ok bytes tr h = ground arith

  pub read_full_ok :
      (n : ℕ) (tr : Trace) {bytes : Bytes} {mid : Trace}
      → read_full E conn n tr ≡ (ok bytes, mid)
      → (E.read_full tr conn n ≡ ok bytes) × (mid ≡ received conn (ok bytes) ∷ tr)
  unfolding read_full
  read_full_ok n tr h = call_ok _ (received conn) h

  pub read_ok :
      (n : ℕ) (tr : Trace) {bytes : Bytes} {mid : Trace}
      → read E conn n tr ≡ (ok bytes, mid)
      → (E.read tr conn n ≡ ok bytes) × (mid ≡ received conn (ok bytes) ∷ tr)
  unfolding read
  read_ok n tr h = call_ok _ (received conn) h

-- Setting the deadline and logging do not fail.
pub set_deadline_total :
    (ctx : Context) (conn : Conn) (tr : Trace)
    → (mid : Trace) × (set_deadline ctx conn tr ≡ (ok tt, mid))
unfolding set_deadline pure emit
set_deadline_total ctx conn tr = ((set_deadline ctx conn tr).1, ground arith)

pub time_now_total :
    (E : Env) (t : Transport) (tr : Trace)
    → (now : Time) × (mid : Trace) × (time_now E t tr ≡ (ok now, mid))
unfolding time_now pure emit ask ◌>>=◌
time_now_total E t tr = (_, _, refl)

pub maybe_log_query_total :
    (E : Env) (t : Transport) (addr : ServerAddr) (raw_query : Bytes) (tr : Trace)
    → (t0 : Time) × (mid : Trace) × (maybe_log_query E t addr raw_query tr ≡ (ok t0, mid))
unfolding maybe_log_query pure emit ask ◌>>=◌
maybe_log_query_total E t addr raw_query tr =
    (hook_or t.time_now E.now tr, (maybe_log_query E t addr raw_query tr).1, ground arith)

pub maybe_log_response_addr_port_total :
    (E : Env) (t : Transport) (addr : ServerAddr) (t0 : Time) (raw_query raw_resp : Bytes)
    (laddr raddr : AddrPort) (tr : Trace)
    → (mid : Trace) × (maybe_log_response_addr_port E t addr t0 raw_query raw_resp laddr raddr tr
        ≡ (ok tt, mid))
unfolding maybe_log_response_addr_port pure emit ask ◌>>=◌
maybe_log_response_addr_port_total E t addr t0 raw_query raw_resp laddr raddr tr =
    ((maybe_log_response_addr_port E t addr t0 raw_query raw_resp laddr raddr tr).1, ground arith)

pub maybe_log_response_conn_total :
    (E : Env) (t : Transport) (addr : ServerAddr) (t0 : Time) (raw_query raw_resp : Bytes)
    (conn : Conn) (tr : Trace)
    → (mid : Trace) × (maybe_log_response_conn E t addr t0 raw_query raw_resp conn tr
        ≡ (ok tt, mid))
unfolding maybe_log_response_conn pure emit ask ◌>>=◌
maybe_log_response_conn_total E t addr t0 raw_query raw_resp conn tr =
    ((maybe_log_response_conn E t addr t0 raw_query raw_resp conn tr).1, ground arith)

pub write_fails :
    (E : Env) (conn : Conn) (bytes : Bytes) (tr : Trace) {e : Error}
    → E.write tr conn bytes ≡ some e
    → write E conn bytes tr ≡ (err e, wrote conn bytes ∷ tr)
unfolding write ask emit check ◌>>=◌
write_fails E conn bytes tr h = ground arith

pub write_works :
    (E : Env) (conn : Conn) (bytes : Bytes) (tr : Trace)
    → E.write tr conn bytes ≡ none
    → write E conn bytes tr ≡ (ok tt, wrote conn bytes ∷ tr)
unfolding write ask emit check ◌>>=◌
write_works E conn bytes tr h = ground arith

pub read_full_works :
    (E : Env) (conn : Conn) (n : ℕ) (tr : Trace) {bytes : Bytes}
    → E.read_full tr conn n ≡ ok bytes
    → read_full E conn n tr ≡ (ok bytes, received conn (ok bytes) ∷ tr)
unfolding read_full call
read_full_works E conn n tr h i = (h i, received conn (h i) ∷ tr)

pub read_works :
    (E : Env) (conn : Conn) (n : ℕ) (tr : Trace) {bytes : Bytes}
    → E.read tr conn n ≡ ok bytes
    → read E conn n tr ≡ (ok bytes, received conn (ok bytes) ∷ tr)
unfolding read call
read_works E conn n tr h i = (h i, received conn (h i) ∷ tr)

pub check_ctx_alive :
    (E : Env) (ctx : Context) (tr : Trace)
    → E.ctx_err tr ctx ≡ none
    → check_ctx E ctx tr ≡ (ok tt, tr)
unfolding check_ctx ask check ◌>>=◌
check_ctx_alive E ctx tr h = ground arith

pub check_ctx_err :
    (E : Env) (ctx : Context) (tr : Trace) {e : Error} {mid : Trace}
    → check_ctx E ctx tr ≡ (err e, mid)
    → E.ctx_err tr ctx ≡ some e
unfolding check_ctx ask check ◌>>=◌
check_ctx_err E ctx tr h = ground arith

pub check_ctx_done :
    (E : Env) (ctx : Context) (tr : Trace) {e : Error}
    → E.ctx_err tr ctx ≡ some e
    → check_ctx E ctx tr ≡ (err e, tr)
unfolding check_ctx ask check ◌>>=◌
check_ctx_done E ctx tr h = ground arith

pub maybe_log_response_conn-ne-err :
    (E : Env) (t : Transport) (addr : ServerAddr) (t0 : Time) (raw_query raw_resp : Bytes)
    (conn : Conn) (tr : Trace) {e : Error}
    → (maybe_log_response_conn E t addr t0 raw_query raw_resp conn tr).0 ≢ err e
unfolding maybe_log_response_conn pure ask emit ◌>>=◌
maybe_log_response_conn-ne-err E t addr t0 raw_query raw_resp conn tr h = ground arith
