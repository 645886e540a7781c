-- ===== src/Transport/Logging.antt =====
-- slog.go: the records that an exchange leaves in the structured log.
use dnscore.Prelude.{
  ◌≡◌, ap, ◌∙◌, Bytes, Bool, true, false, List, [], ◌∷◌, ◌++◌, map, filter, Bool-cases, inl, inr,
  if◌then◌else◌, arith,
}
use dnscore.Go.{ok}
use dnscore.Dns.{Msg, Library}
use dnscore.ServerAddr.{ServerAddr}
use dnscore.Runtime.{
  Env, Event, Trace, Time, Conn, AddrPort, HttpRequest, HttpAnswer, LogRecord, dns_query,
  dns_response, round_trip_start, round_trip_done, logged,
}
use dnscore.Runtime.Io.{pure, ask, emit, ◌>>=◌}
use dnscore.Transport.{
  Transport, hook_or, protocol_map, or_unspecified, maybe_log_query, maybe_log_response_addr_port,
  maybe_log_response_conn,
}

abbrev pub is_log : Event → Bool
is_log (logged _) = true
is_log _ = false

abbrev pub logs : Trace → Trace
logs = filter is_log

-- One more record where there is a logger.
abbrev pub Logs : Transport → LogRecord → Trace → Trace → Type 0
Logs t r before after = logs after ≡ (if t.logger then logged r ∷ logs before else logs before)

abbrev pub query_record : ServerAddr → Bytes → Time → LogRecord
query_record addr raw_query t0 =
    dns_query raw_query addr.address addr.protocol t0 (protocol_map addr.protocol)

abbrev pub response_record :
    ServerAddr → Bytes → Bytes → AddrPort → AddrPort → Time → Time → LogRecord
response_record addr raw_query raw_resp laddr raddr t0 t1 =
    dns_response (or_unspecified laddr).text raw_query raw_resp (or_unspecified raddr).text
      addr.address addr.protocol t0 t1 (protocol_map addr.protocol)

module _ (E : Env) (t : Transport) (addr : ServerAddr) where
  pub maybe_log_query-Logs :
      (raw_query : Bytes) (tr : Trace) {t0 : Time} {mid : Trace}
      → maybe_log_query E t addr raw_query tr ≡ (ok t0, mid)
      → Logs t (query_record addr raw_query t0) tr mid
  unfolding maybe_log_query pure ask emit ◌>>=◌
  maybe_log_query-Logs raw_query tr h = ground arith

  pub maybe_log_response_addr_port-Logs :
      (t0 : Time) (raw_query raw_resp : Bytes) (laddr raddr : AddrPort) (tr : Trace) {u : Unit {0}}
      {mid : Trace}
      → maybe_log_response_addr_port E t addr t0 raw_query raw_resp laddr raddr tr ≡ (ok u, mid)
      → (t1 : Time) × Logs t (response_record addr raw_query raw_resp laddr raddr t0 t1) tr mid
  unfolding maybe_log_response_addr_port pure ask emit ◌>>=◌
  maybe_log_response_addr_port-Logs t0 raw_query raw_resp laddr raddr tr h =
      (hook_or t.time_now E.now tr, ground arith)

  pub maybe_log_response_conn-Logs :
      (t0 : Time) (raw_query raw_resp : Bytes) (conn : Conn) (tr : Trace) {u : Unit {0}}
      {mid : Trace}
      → maybe_log_response_conn E t addr t0 raw_query raw_resp conn tr ≡ (ok u, mid)
      → (t1 : Time) × Logs t
          (response_record addr raw_query raw_resp
            (E.local_addr_port conn)
            (E.remote_addr_port conn)
            t0
            t1)
          tr
          mid
  unfolding maybe_log_response_conn pure ask emit ◌>>=◌
  maybe_log_response_conn-Logs t0 raw_query raw_resp conn tr h =
      (hook_or t.time_now E.now tr, ground arith)

-- The records that an exchange leaves between those of its query and of its response, and the
-- addresses that it logs: over a connection no record and the addresses of the connection, and over
-- HTTP the two records of the round trip and the addresses that came with its answer.
pub data Route (E : Env) (t0 : Time) : List LogRecord → AddrPort → AddrPort → Type 0 where
  over_conn : (conn : Conn) → Route E t0 [] (E.local_addr_port conn) (E.remote_addr_port conn)
  over_http :
      (req : HttpRequest) (answer : HttpAnswer) (t1 : Time)
      → Route E t0
          (round_trip_done req answer t0 t1 ∷ round_trip_start req t0 ∷ [])
          answer.local_addr
          answer.remote_addr

-- What an exchange left where there is a logger: first a record with the packed query, then those
-- of the route, then one with the packed response; and nothing where there is no logger.
pub record Logged (L : Library) (E : Env) (t : Transport) (addr : ServerAddr) (query : Msg)
    (before after : Trace) (resp : Msg) : Type 0 where
  pub raw_query : Bytes
  pub raw_resp : Bytes
  pub laddr : AddrPort
  pub raddr : AddrPort
  pub t0 : Time
  pub t1 : Time
  pub between : List LogRecord
  pub route : Route E t0 between laddr raddr
  pub packed : L.pack query ≡ ok raw_query
  pub parsed : L.unpack raw_resp ≡ ok resp
  pub recorded : logs after ≡ (
      if t.logger
      then logged (response_record addr raw_query raw_resp laddr raddr t0 t1) ∷ map logged between
        ++ logged (query_record addr raw_query t0) ∷ logs before
      else logs before)

-- One record after the other.
pub Logs-two :
    (t : Transport) (r s : LogRecord) (before mid after : Trace)
    → Logs t r before mid
    → Logs t s mid after
    → logs after ≡ (if t.logger then logged s ∷ logged r ∷ logs before else logs before)
Logs-two t r s before mid after first second = elim (Bool-cases t.logger) [
  | inl on ↦ ground (arith, first, second)
  | inr off ↦ ground (arith, first, second)
]

-- Two records between two others.
pub Logs-four :
    (t : Transport) (r s u v : LogRecord) (before mid late after : Trace)
    → Logs t r before mid
    → logs late ≡ (if t.logger then logged u ∷ logged s ∷ logs mid else logs mid)
    → Logs t v late after
    → logs after
      ≡ (if t.logger then logged v ∷ logged u ∷ logged s ∷ logged r ∷ logs before else logs before)
Logs-four t r s u v before mid late after first between last = elim (Bool-cases t.logger) [
  | inl on ↦ ground (arith, first, between, last)
  | inr off ↦ ground (arith, first, between, last)
]

-- Steps around it that leave the log as it is.
pub Logs-around :
    (t : Transport) (r : LogRecord) (before b a after : Trace)
    → logs b ≡ logs before
    → Logs t r b a
    → logs after ≡ logs a
    → Logs t r before after
Logs-around t r before b a after same_before h same_after =
    same_after ∙ h ∙ ap (λ l. if t.logger then logged r ∷ l else l) same_before

-- The same of an exchange.
pub Logged-around :
    {L : Library} {E : Env} {t : Transport} {addr : ServerAddr} {query : Msg} {resp : Msg}
    (before b a after : Trace)
    → logs b ≡ logs before
    → Logged L E t addr query b a resp
    → logs after ≡ logs a
    → Logged L E t addr query before after resp
Logged-around {t = t} {addr = addr} before b a after same_before h same_after = record {
  raw_query = h.raw_query;
  raw_resp = h.raw_resp;
  laddr = h.laddr;
  raddr = h.raddr;
  t0 = h.t0;
  t1 = h.t1;
  between = h.between;
  route = h.route;
  packed = h.packed;
  parsed = h.parsed;
  recorded =
      same_after
      ∙ h.recorded
      ∙ ap
          (λ l.
            if t.logger
            then logged (response_record addr h.raw_query h.raw_resp h.laddr h.raddr h.t0 h.t1)
                ∷ map logged h.between
              ++ logged (query_record addr h.raw_query h.t0) ∷ l
            else l)
          same_before;
}
