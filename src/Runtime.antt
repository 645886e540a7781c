-- ===== src/Runtime.antt =====
-- What the program asks of the world around it: the clock, the random IDs, connections, HTTP and
-- the logger. The history of a run is a list of events, the latest first. An `Env` says what the
-- world answers, given the history so far, so that it may answer otherwise each time.
pub mod Io
pub mod Invert
pub mod Only
pub mod Runtimex
use dnscore.Prelude.{ℕ, ◌+◌, Bytes, Bool, true, false, String, Option, none, some, List, min}
use dnscore.Errors.{Error}
use dnscore.Go.{Result}
use dnscore.Dns.{Msg}

abbrev pub Conn : Type 0
Conn = ℕ

abbrev pub Time : Type 0
Time = ℕ

-- `context.Context`: which one it is, and its deadline. Whether it is done by now the world says.
pub record Context : Type 0 where
  pub key : ℕ
  pub deadline : Option Time

-- `netip.AddrPort`: whether it is valid, and its text.
pub record AddrPort : Type 0 where
  pub is_valid : Bool
  pub text : String

-- `http.Request`, as far as the program sets it.
pub record HttpRequest : Type 0 where
  pub method : String
  pub url : String
  pub content_type : Option String
  pub content : Bytes

-- `io.ReadCloser`: the bytes that a response body yields, and how it ends: by EOF or an error.
pub record Body : Type 0 where
  pub handle : ℕ
  pub content : Bytes
  pub failure : Option Error

pub record HttpResponse : Type 0 where
  pub status_code : ℕ
  pub content_type : String
  pub body : Body

-- What `httpClientDo` returns; the addresses come also with an error.
pub record HttpAnswer : Type 0 where
  pub result : Result HttpResponse
  pub local_addr : AddrPort
  pub remote_addr : AddrPort

-- The configuration of the TLS dialer that `dialTLSContext` makes.
pub record TlsConfig : Type 0 where
  pub insecure_skip_verify : Bool
  pub next_protos : List String
  pub root_cas : Option ℕ
  pub server_name : String

-- The records that the logger writes: those of dnscore for a query and its response, and those of
-- package httpslog for an HTTP request with its time, and for what came of it with both times.
pub data LogRecord : Type 0 where
  dns_query :
      (raw_query : Bytes) (server_addr server_protocol : String) (t : Time) (protocol : String)
      → LogRecord
  dns_response :
      (local_addr : String) (raw_query raw_response : Bytes)
      (remote_addr server_addr server_protocol : String) (t0 t : Time) (protocol : String)
      → LogRecord
  round_trip_start : (req : HttpRequest) (t0 : Time) → LogRecord
  round_trip_done : (req : HttpRequest) (answer : HttpAnswer) (t0 t : Time) → LogRecord

-- `MessageOrError` of transport.go
pub record MessageOrError : Type 0 where
  pub err : Option Error
  pub msg : Option Msg

pub data Event : Type 0 where
  id_drawn : ℕ → Event
  clock_read : Time → Event
  dialed : (network address : String) → Result Conn → Event
  tls_dialed : (network address : String) → Result Conn → Event
  deadline_set : Conn → Time → Event
  wrote : Conn → Bytes → Event
  received : Conn → Result Bytes → Event
  closed : Conn → Event
  received_from : Conn → Result (Bytes × String) → Event
  wrote_to : Conn → String → Bytes → Event
  http_sent : HttpRequest → HttpAnswer → Event
  body_read : ℕ → Event
  body_closed : ℕ → Event
  logged : LogRecord → Event
  emitted : MessageOrError → Event
  dropped : MessageOrError → Event
  channel_closed : Event
  header_added : (key value : String) → Event
  body_written : Bytes → Event
  printed : Bytes → Event

abbrev pub Trace : Type 0
Trace = List Event

-- The answers of the world. `read` is `conn.Read` into a buffer of that size, `read_full` is
-- `io.ReadFull` on the buffered connection, `default_dial` and `default_tls_dial` are the dialers
-- of package net and crypto/tls, `split_host` is the host of `net.SplitHostPort`, `addr_port` is
-- `netipx.AddrToAddrPort`, `conn_trace_do` is `httpconntrace.Do` with a client (`none` is the
-- default client), and `can_emit` says that `select` takes the sending branch.
pub record Env : Type 0 where
  pub new_id : Trace → ℕ
  pub now : Trace → Time
  pub ctx_err : Trace → Context → Option Error
  pub default_dial : Trace → Context → String → String → Result Conn
  pub default_tls_dial : Trace → Context → TlsConfig → String → String → Result Conn
  pub split_host : String → Result String
  pub write : Trace → Conn → Bytes → Option Error
  pub read : Trace → Conn → ℕ → Result Bytes
  pub read_full : Trace → Conn → ℕ → Result Bytes
  pub local_addr_port : Conn → AddrPort
  pub remote_addr_port : Conn → AddrPort
  pub new_request : Context → String → String → Bytes → Result HttpRequest
  pub conn_trace_do : Trace → Option ℕ → HttpRequest → HttpAnswer
  pub can_emit : Trace → Context → Bool

-- `context.WithTimeout`: the earlier of the two deadlines.
abbrev pub with_deadline : Context → Time → Context
with_deadline ctx t = record ctx { deadline = earlier ctx.deadline }
  where
    earlier : Option Time → Option Time
    earlier none = some t
    earlier (some d) = some (min d t)
