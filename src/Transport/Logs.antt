-- ===== src/Transport/Logs.antt =====
-- The events that the logging helpers can add: readings of the clock and log records.
use dnscore.Prelude.{◌≡◌, Bytes, Bool}
use dnscore.ServerAddr.{ServerAddr}
use dnscore.Runtime.{Env, Event, Time, Conn, LogRecord, AddrPort, clock_read, logged}
use dnscore.Runtime.Only.{Only, only_rules}
use dnscore.Transport.{
  Transport, time_now, maybe_log_query, maybe_log_response_addr_port, maybe_log_response_conn,
}

-- A property of events that these helpers keep.
pub record LogsPass (p : Event → Bool) : Type 0 where
  pub at_clock : (now : Time) → p (clock_read now) ≡ Bool.true
  pub at_log : (r : LogRecord) → p (logged r) ≡ Bool.true

module _ (E : Env) (t : Transport) {p : Event → Bool} (h : LogsPass p) where
  open h use {at_clock, at_log}

  pub time_now-Only : Only p (time_now E t)
  unfolding time_now
  time_now-Only = search (only_rules, at_clock)

  pub maybe_log_query-Only :
      (addr : ServerAddr) (raw_query : Bytes) → Only p (maybe_log_query E t addr raw_query)
  unfolding maybe_log_query
  maybe_log_query-Only addr raw_query = search (only_rules, at_clock, at_log)

  pub maybe_log_response_addr_port-Only :
      (addr : ServerAddr) (t0 : Time) (raw_query raw_resp : Bytes) (laddr raddr : AddrPort)
      → Only p (maybe_log_response_addr_port E t addr t0 raw_query raw_resp laddr raddr)
  unfolding maybe_log_response_addr_port
  maybe_log_response_addr_port-Only addr t0 raw_query raw_resp laddr raddr =
      search (only_rules, at_clock, at_log) depth 9

  pub maybe_log_response_conn-Only :
      (addr : ServerAddr) (t0 : Time) (raw_query raw_resp : Bytes) (conn : Conn)
      → Only p (maybe_log_response_conn E t addr t0 raw_query raw_resp conn)
  unfolding maybe_log_response_conn
  maybe_log_response_conn-Only addr t0 raw_query raw_resp conn =
      search (only_rules, at_clock, at_log) depth 9
