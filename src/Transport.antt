-- ===== src/Transport.antt =====
-- transport.go and slog.go: the transport with its optional hooks, and its structured log. A hook is
-- a function that answers in place of the world; the helpers of doudp.go that call one or the
-- default stand here too, since every protocol uses them.
pub mod Logs
pub mod Steps
pub mod Wire
pub mod Balance
pub mod Opens
pub mod Closing
pub mod Pipe
pub mod Logging
use dnscore.Prelude.{Bytes, Bool, true, false, String, Option, none, some, ℕ, str_eq, if◌then◌else◌}
use dnscore.Go.{Result}
use dnscore.ServerAddr.{Protocol, ServerAddr}
use dnscore.ServerAddr.{protocol_udp, protocol_tcp, protocol_dot, protocol_doh}
use dnscore.Runtime.{
  Env, Trace, Time, Conn, Context, AddrPort, Body, HttpRequest, HttpAnswer, LogRecord, dns_query,
  dns_response, clock_read, dialed, logged, wrote, received, deadline_set,
}
use dnscore.Runtime.Io.{Io, pure, ask, call, check, emit, ◌>>=◌, ◌>>◌}

abbrev pub Dialer : Type 0
Dialer = Trace → Context → String → String → Result Conn

pub record Transport : Type 0 where
  pub dial_context : Option Dialer
  pub dial_tls_context : Option Dialer
  pub http_client : Option ℕ
  pub http_client_do : Option (Trace → HttpRequest → HttpAnswer)
  pub logger : Bool
  pub new_http_request_with_context :
      Option (Context → String → String → Bytes → Result HttpRequest)
  pub read_all_context : Option (Trace → Context → Body → ℕ → Result Bytes)
  pub root_cas : Option ℕ
  pub time_now : Option (Trace → Time)

-- `&Transport{}`
abbrev pub default_transport : Transport
default_transport = record {
  dial_context = none;
  dial_tls_context = none;
  http_client = none;
  http_client_do = none;
  logger = false;
  new_http_request_with_context = none;
  read_all_context = none;
  root_cas = none;
  time_now = none;
}

-- The hook, or the default where it is nil.
abbrev pub hook_or {ℓ} : {A : Type ℓ} → Option A → A → A
hook_or none d = d
hook_or (some f) d = f

-- A key that is not in the map gives the empty string.
unfoldable pub protocol_map : Protocol → String
protocol_map protocol =
    if str_eq protocol protocol_doh
    then "tcp"
    else if str_eq protocol protocol_tcp
    then "tcp"
    else if str_eq protocol protocol_dot
    then "tcp"
    else if str_eq protocol protocol_udp
    then "udp"
    else ""

-- The address that stands for an invalid one.
abbrev pub unspecified : AddrPort
unspecified = record { is_valid = true; text = "[::]:0" }

abbrev pub or_unspecified : AddrPort → AddrPort
or_unspecified addr = if addr.is_valid then addr else unspecified

module _ (E : Env) where
  -- `if ctx.Err() != nil { return nil, ctx.Err() }`
  unfoldable pub check_ctx : Context → Io (Unit {0})
  check_ctx ctx = do e ← ask (λ tr. E.ctx_err tr ctx); check e

  -- `conn.Write`, of which only the error is used.
  unfoldable pub write : Conn → Bytes → Io (Unit {0})
  write conn bytes = do e ← ask (λ tr. E.write tr conn bytes); emit (wrote conn bytes); check e

  -- `io.ReadFull` of that many bytes.
  unfoldable pub read_full : Conn → ℕ → Io Bytes
  read_full conn n = call (λ tr. E.read_full tr conn n) (received conn)

  -- `conn.Read` into a buffer of that size.
  unfoldable pub read : Conn → ℕ → Io Bytes
  read conn n = call (λ tr. E.read tr conn n) (received conn)

deadline_events : Conn → Option Time → Io (Unit {0})
deadline_events conn none = pure tt
deadline_events conn (some deadline) = emit (deadline_set conn deadline)

-- `if deadline, ok := ctx.Deadline(); ok { _ = conn.SetDeadline(deadline) }`
unfoldable pub set_deadline : Context → Conn → Io (Unit {0})
unfolding deadline_events
set_deadline ctx conn = deadline_events conn ctx.deadline

module _ (E : Env) (t : Transport) where
  unfoldable pub dial_context : Context → String → String → Io Conn
  dial_context ctx network address =
      call (λ tr. hook_or t.dial_context E.default_dial tr ctx network address)
        (dialed network address)

  unfoldable pub time_now : Io Time
  time_now = do now ← ask (hook_or t.time_now E.now); emit (clock_read now); pure now

  log_query : ServerAddr → Bytes → Time → Io (Unit {0})
  log_query addr raw_query t0 =
      if t.logger
      then emit
          (logged (dns_query raw_query addr.address addr.protocol t0 (protocol_map addr.protocol)))
      else pure tt

  unfoldable pub maybe_log_query : ServerAddr → Bytes → Io Time
  unfolding time_now log_query protocol_map
  maybe_log_query addr raw_query = do t0 ← time_now; log_query addr raw_query t0; pure t0

  unfoldable pub maybe_log_response_addr_port :
      ServerAddr → Time → Bytes → Bytes → AddrPort → AddrPort → Io (Unit {0})
  unfolding time_now protocol_map
  maybe_log_response_addr_port addr t0 raw_query raw_resp laddr raddr =
      if t.logger
      then (do
        now ← time_now
        emit (
            logged (
              dns_response (or_unspecified laddr).text raw_query raw_resp
                (or_unspecified raddr).text addr.address addr.protocol t0 now
                (protocol_map addr.protocol))))
      else pure tt

  unfoldable pub maybe_log_response_conn : ServerAddr → Time → Bytes → Bytes → Conn → Io (Unit {0})
  unfolding maybe_log_response_addr_port
  maybe_log_response_conn addr t0 raw_query raw_resp conn =
      if t.logger
      then maybe_log_response_addr_port addr t0 raw_query raw_resp (E.local_addr_port conn)
          (E.remote_addr_port conn)
      else pure tt
