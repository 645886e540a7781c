-- ===== src/TestServer.antt =====
-- dnscoretest: the fake DNS server with its handler, its response writers and its listeners. The
-- goroutine of a listener accepts and serves one connection after the other.
pub mod Serving
pub mod Lifecycle
pub mod Datagrams
pub mod Handling
pub mod Answering
pub mod Http
mod Tests
use dnscore.Runtime.Runtimex.{try1, assert}
use dnscore.Prelude.{
  ℕ, zero, suc, Bytes, Bool, true, false, not, String, Option, none, some, List, [], ◌∷◌, ◌++◌,
  length, leb, codes, ◌<>◌, if◌then◌else◌,
}
use dnscore.Errors.{Error}
use dnscore.Go.{Result, ok, err, panic}
use dnscore.Dns.{Msg, Rr, a_rr, Library, class_inet, type_a}
use dnscore.Runtime.{Env, Trace, Conn, closed, received_from, wrote_to}
use dnscore.Runtime.Io.{Io, pure, lift, ask, call, check, emit, defer, catch, ◌>>=◌, ◌>>◌}
use dnscore.Transport.{hook_or, write, read_full}
use dnscore.Frame.{max_uint16, frame, frame_length}

-- `io.Writer`, of which only the error is used.
abbrev pub ResponseWriter : Type 0
ResponseWriter = Bytes → Io (Unit {0})

abbrev pub Handler : Type 0
Handler = ResponseWriter → Bytes → Io (Unit {0})

-- `net.IPv4(93, 184, 215, 14)`
abbrev pub example_com_addr_a : Bytes
example_com_addr_a = 0 ∷ 0 ∷ 0 ∷ 0 ∷ 0 ∷ 0 ∷ 0 ∷ 0 ∷ 0 ∷ 0 ∷ 255 ∷ 255 ∷ 93 ∷ 184 ∷ 215 ∷ 14 ∷ []

abbrev pub example_com_rr : Rr
example_com_rr =
    a_rr (record { name = codes "example.com."; rrtype = type_a; class = class_inet; ttl = 3600 })
      example_com_addr_a

-- The reply of the handler, at what `resp.SetReply(query)` makes of an empty message.
abbrev pub example_com_reply : Msg → Msg
example_com_reply resp = record resp { answer = resp.answer ++ example_com_rr ∷ [] }

module _ (L : Library) (set_reply : Msg → Msg) where
  pub new_example_com_handler : Handler
  unfolding try1
  new_example_com_handler rw raw_query = do
    query ← try1 (lift (L.unpack raw_query))
    raw_resp ← try1 (lift (L.pack (example_com_reply (set_reply query))))
    try1 (rw raw_resp)

module _ (E : Env) where
  -- `responseWriterStream`
  pub response_writer_stream : Conn → ResponseWriter
  unfolding assert
  response_writer_stream conn raw_msg = do
    assert (leb (length raw_msg) max_uint16)
    write E conn (frame raw_msg)

  read_query : Conn → Io Bytes
  unfolding try1
  read_query conn = do
    header ← try1 (read_full E conn 2)
    length ← lift (frame_length header)
    try1 (read_full E conn length)

  pub serve_conn : Handler → Conn → Io (Unit {0})
  unfolding read_query response_writer_stream
  serve_conn handle conn =
      defer (emit (closed conn))
        (do raw_query ← read_query conn; handle (response_writer_stream conn) raw_query)

  -- The loop over the connections that come before `Accept` fails.
  pub serve_conns : Handler → List Conn → Io (Unit {0})
  unfolding serve_conn
  serve_conns handle [] = pure tt
  serve_conns handle (conn ∷ conns) = do serve_conn handle conn; serve_conns handle conns

-- `ReadFrom` into a buffer of that size, and `WriteTo`, of a packet connection.
pub record Packets : Type 0 where
  pub read_from : Trace → Conn → ℕ → Result (Bytes × String)
  pub write_to : Trace → Conn → Bytes → String → Option Error

module _ (P : Packets) where
  -- `responseWriterUDP`
  pub response_writer_udp : Conn → String → ResponseWriter
  response_writer_udp pconn addr raw_msg = do
    e ← ask (λ tr. P.write_to tr pconn raw_msg addr)
    emit (wrote_to pconn addr raw_msg)
    check e

  -- An error of `ReadFrom` is returned, and ends the loop of `StartUDP`.
  pub serve_packet_conn : Handler → Conn → Io (Unit {0})
  unfolding response_writer_udp
  serve_packet_conn handle pconn = do
    packet ← call (λ tr. P.read_from tr pconn 4096) (received_from pconn)
    handle (response_writer_udp pconn packet.1) packet.0

  -- With fuel: `false` means that the loop goes on.
  pub serve_packets : ℕ → Handler → Conn → Io Bool
  unfolding serve_packet_conn
  serve_packets zero handle pconn = pure false
  serve_packets (suc fuel) handle pconn =
      catch (serve_packet_conn handle pconn) (λ e. pure true) (λ _. serve_packets fuel handle pconn)

-- `net.Listen` and its likes: the listener and the text of its address.
abbrev pub Listener : Type 0
Listener = String → String → Result (Conn × String)

-- `tls.Listen` and its like, which takes the configuration with the certificate also.
abbrev pub TlsListener : Type 0
TlsListener = String → String → ℕ → Result (Conn × String)

-- What the server calls of packages net, crypto/tls and crypto/x509, for its embedded key pair:
-- `X509KeyPair` gives the certificate, `NewCertPool` a pool, and `AppendCertsFromPEM` adds the
-- certificate to that pool and says whether it did.
pub record Stdlib : Type 0 where
  pub listen : Listener
  pub listen_packet : Listener
  pub listen_tls : TlsListener
  pub x509_key_pair : Result ℕ
  pub cert_pool : ℕ
  pub append_certs_from_pem : Bool

pub record Server : Type 0 where
  pub addr : String
  pub listen : Option Listener
  pub listen_packet : Option Listener
  pub listen_tls : Option TlsListener
  pub root_cas : Option ℕ
  pub url : String
  pub ioclosers : List Conn
  pub started : Bool

-- The zero value.
abbrev pub new_server : Server
new_server = record {
  addr = "";
  listen = none;
  listen_packet = none;
  listen_tls = none;
  root_cas = none;
  url = "";
  ioclosers = [];
  started = false;
}

-- A Start method is called in two parts. The caller asserts that the server is not started, and
-- makes a goroutine; the assertion is not made again there.
unfoldable pub assert_not_started : Server → Result (Unit {0})
assert_not_started s = if not s.started then ok tt else panic

-- The goroutine until it closes the channel `ready`; a panic in it ends the program. `must` is
-- `runtimex.Try1` before the rest of it.
must : {A : Type 0} → Result A → (A → Result Server) → Result Server
must (ok a) rest = rest a
must (err e) rest = panic
must panic rest = panic

-- The listener is one to close, and the server has started.
abbrev listening : Conn → Server → Server
listening listener s = record s { ioclosers = s.ioclosers ++ listener ∷ []; started = true }

-- The assertion that the certificate was added to the pool, before the server that follows it.
assert_appended : Bool → Server → Result Server
assert_appended appended s = if appended then ok s else panic

module _ (S : Stdlib) where
  pub start_tcp : Server → Result Server
  unfolding must
  start_tcp s =
      must (hook_or s.listen S.listen "tcp" "127.0.0.1:0")
        (λ l. ok (listening l.0 (record s { addr = l.1 })))

  pub start_udp : Server → Result Server
  unfolding must
  start_udp s =
      must (hook_or s.listen_packet S.listen_packet "udp" "127.0.0.1:0")
        (λ l. ok (listening l.0 (record s { addr = l.1 })))

  pub start_tls : Server → Result Server
  unfolding must assert_appended
  start_tls s = must S.x509_key_pair (λ cert.
      must (hook_or s.listen_tls S.listen_tls "tcp" "127.0.0.1:0" cert) (λ l.
        assert_appended S.append_certs_from_pem
          (listening l.0 (record s { addr = l.1; root_cas = some S.cert_pool }))))

  pub start_https : Server → Result Server
  unfolding must assert_appended
  start_https s = must S.x509_key_pair (λ cert.
      must (hook_or s.listen_tls S.listen_tls "tcp" "127.0.0.1:0" cert) (λ l.
        assert_appended S.append_certs_from_pem (
          listening l.0 (record s {
            addr = l.1;
            root_cas = some S.cert_pool;
            url = "https://" <> l.1 <> "/dns-query";
          }))))

-- `cerr := c.Close()`: the error of the last one that fails.
close_all : (Conn → Option Error) → Option Error → List Conn → Io (Option Error)
close_all close_error e [] = pure e
close_all close_error e (c ∷ cs) = do
  emit (closed c)
  close_all close_error (later (close_error c)) cs
  where
    later : Option Error → Option Error
    later none = e
    later (some cerr) = some cerr

pub close : (Conn → Option Error) → Server → Io (Option Error)
unfolding close_all
close close_error s = close_all close_error none s.ioclosers
