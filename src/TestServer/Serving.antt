-- ===== src/TestServer/Serving.antt =====
-- What the test server reads from a connection and writes to it, and that it closes it.
use dnscore.Errors.{Error}
use dnscore.Runtime.Runtimex.{
  assert, try1_ok, assert_ok, try1-Only, NeverErrs, NeverErrs-bind, NeverErrs-try1, NeverErrs-lift,
  NeverErrs-defer, NeverErrs-cases,
}
use dnscore.Prelude.{
  ◌≡◌, refl, sym, ap, ◌∙◌, ◌≤◌, ℕ, Bytes, true, ◌∷◌, length, leb, arith, ◌⊎◌, ◌≢◌, inl, inr,
}
use dnscore.Go.{ok, panic, err}
use dnscore.Dns.{Msg, Library}
use dnscore.Runtime.{Env, Trace, Conn, closed, wrote, received}
use dnscore.Runtime.Io.{emit, defer, ◌>>=◌}
use dnscore.Runtime.Invert.{>>=-eq-ok, lift_ok, defer_ok}
use dnscore.Runtime.Only.{Only, only_rules}
use dnscore.Transport.Steps.{write_ok, read_full_ok, write-Only, read_full-Only}
use dnscore.Transport.Wire.{wire}
use dnscore.Frame.{max_uint16, frame, frame_length}
use dnscore.Transport.Closing.{closes_nothing, ClosesLast}
use dnscore.TestServer.{
  ResponseWriter, example_com_reply, new_example_com_handler, response_writer_stream, read_query,
  serve_conn,
}

-- A query was read as one frame, and the reply to it was written as one frame before the connection
-- was closed.
pub record Served (L : Library) (set_reply : Msg → Msg) (E : Env) (conn : Conn)
    (before after : Trace) : Type 0 where
  pub header : Bytes
  pub raw_query : Bytes
  pub query : Msg
  pub raw_resp : Bytes
  pub size : ℕ
  pub header_read : E.read_full before conn 2 ≡ ok header
  pub announced : frame_length header ≡ ok size
  pub read_as_announced : (at : Trace) × (E.read_full at conn size ≡ ok raw_query)
  pub parsed : L.unpack raw_query ≡ ok query
  pub replied : L.pack (example_com_reply (set_reply query)) ≡ ok raw_resp
  pub fits : length raw_resp ≤ max_uint16
  pub on_wire :
      wire after
      ≡ closed conn
        ∷ wrote conn (frame raw_resp)
        ∷ received conn (ok raw_query)
        ∷ received conn (ok header)
        ∷ wire before

module _ (E : Env) (conn : Conn) where
  read_query_ok :
      (tr : Trace) {raw : Bytes} {mid : Trace}
      → read_query E conn tr ≡ (ok raw, mid)
      → (header : Bytes) × (size : ℕ) × (E.read_full tr conn 2 ≡ ok header)
        × (frame_length header ≡ ok size)
        × ((at : Trace) × (E.read_full at conn size ≡ ok raw))
        × (mid ≡ received conn (ok raw) ∷ received conn (ok header) ∷ tr)
  unfolding read_query
  read_query_ok tr {raw} h =
      let a = >>=-eq-ok _ _ tr h in
      let b = >>=-eq-ok _ _ a.middle a.rest in
      let announced = lift_ok _ b.first in
      let x = read_full_ok E conn 2 tr (try1_ok _ tr a.first) in
      let y = read_full_ok E conn b.value b.middle (try1_ok _ b.middle b.rest) in
      (
        a.value,
        b.value,
        x.0,
        announced.0,
        (b.middle, y.0),
        y.1 ∙ ap (λ m. received conn (ok raw) ∷ m) (announced.1 ∙ x.1),
      )

  response_writer_stream_ok :
      (raw : Bytes) (tr : Trace) {u : Unit {0}} {mid : Trace}
      → response_writer_stream E conn raw tr ≡ (ok u, mid)
      → (length raw ≤ max_uint16) × (mid ≡ wrote conn (frame raw) ∷ tr)
  unfolding response_writer_stream
  response_writer_stream_ok raw tr h =
      let a = >>=-eq-ok _ _ tr h in
      let fits = assert_ok _ tr a.first in
      let short : leb (length raw) max_uint16 ≡ true = fits.0 in
      (
        ground arith,
        write_ok E conn (frame raw) a.middle a.rest ∙ ap (λ m. wrote conn (frame raw) ∷ m) fits.1,
      )

module _ (L : Library) (set_reply : Msg → Msg) (rw_to : ResponseWriter) where
  pub handler_ok :
      (raw_query : Bytes) (tr : Trace) {u : Unit {0}} {mid : Trace}
      → new_example_com_handler L set_reply rw_to raw_query tr ≡ (ok u, mid)
      → (query : Msg) × (raw_resp : Bytes) × (L.unpack raw_query ≡ ok query)
        × (L.pack (example_com_reply (set_reply query)) ≡ ok raw_resp)
        × (rw_to raw_resp tr ≡ (ok u, mid))
  unfolding new_example_com_handler
  handler_ok raw_query tr {u} {mid} h =
      let a = >>=-eq-ok _ _ tr h in
      let b = >>=-eq-ok _ _ a.middle a.rest in
      let parsed = lift_ok _ (try1_ok _ tr a.first) in
      let packed = lift_ok _ (try1_ok _ a.middle b.first) in
      (
        a.value,
        b.value,
        parsed.0,
        packed.0,
        ap (rw_to b.value) (sym (packed.1 ∙ parsed.1)) ∙ try1_ok _ b.middle b.rest,
      )

-- When the test server has served a connection with the handler for example.com without a panic, it
-- read one query as a frame, and wrote the packed reply to it with the address of example.com as
-- one frame, of at most 65535 bytes, before it closed the connection.
pub serve_conn-Served :
    (L : Library) (set_reply : Msg → Msg) (E : Env) (conn : Conn) (tr tr' : Trace) {u : Unit {0}}
    → serve_conn E (new_example_com_handler L set_reply) conn tr ≡ (ok u, tr')
    → Served L set_reply E conn tr tr'
unfolding serve_conn emit
serve_conn-Served L set_reply E conn tr tr' h =
    let closing = defer_ok _ _ h in
    let a = >>=-eq-ok _ _ tr closing.0 in
    let (header, size, first, announced, read, got) = read_query_ok E conn tr a.first in
    let (query, raw_resp, parsed, replied, wrote_it) =
      handler_ok L set_reply (response_writer_stream E conn) a.value a.middle a.rest in
    let written = response_writer_stream_ok E conn raw_resp a.middle wrote_it in
    record {
      header = header;
      raw_query = a.value;
      query = query;
      raw_resp = raw_resp;
      size = size;
      header_read = first;
      announced = announced;
      read_as_announced = read;
      parsed = parsed;
      replied = replied;
      fits = written.0;
      on_wire =
          ap wire closing.1
          ∙ ap (λ w. closed conn ∷ wire w) written.1
          ∙ ap (λ w. closed conn ∷ wrote conn (frame raw_resp) ∷ wire w) got;
    }

serving-closes_nothing :
    (L : Library) (set_reply : Msg → Msg) (E : Env) (conn : Conn)
    → Only closes_nothing (
        read_query E conn >>= λ raw_query.
        new_example_com_handler L set_reply (response_writer_stream E conn) raw_query)
unfolding read_query new_example_com_handler response_writer_stream assert
serving-closes_nothing L set_reply E conn =
    search (only_rules, try1-Only, write-Only E conn, read_full-Only E conn) depth 25

-- Whatever happens to the test server with the handler for example.com, a panic included, it closes
-- the connection that it serves once, as the last event, and closes no other.
pub serve_conn-ClosesLast :
    (L : Library) (set_reply : Msg → Msg) (E : Env) (conn : Conn) (tr : Trace)
    → ClosesLast conn tr (serve_conn E (new_example_com_handler L set_reply) conn tr).1
unfolding serve_conn defer emit
serve_conn-ClosesLast L set_reply E conn tr = record {
  middle = _;
  within = (serving-closes_nothing L set_reply E conn).at tr;
  last = refl;
}

frame_length-ne-err : (header : Bytes) (e : Error) → frame_length header ≢ err e
unfolding frame_length
frame_length-ne-err header e p = ground arith

serve_conn-NeverErrs :
    (L : Library) (set_reply : Msg → Msg) (E : Env) (conn : Conn)
    → NeverErrs (serve_conn E (new_example_com_handler L set_reply) conn)
unfolding serve_conn read_query new_example_com_handler
serve_conn-NeverErrs L set_reply E conn = NeverErrs-defer _ _ (
    NeverErrs-bind _ _
      (NeverErrs-bind _ _ (NeverErrs-try1 _) λ header.
        NeverErrs-bind _ _ (NeverErrs-lift _ (frame_length-ne-err header)) λ size. NeverErrs-try1 _)
      λ raw_query.
        NeverErrs-bind _ _ (NeverErrs-try1 _)
          λ query. NeverErrs-bind _ _ (NeverErrs-try1 _) λ raw_resp. NeverErrs-try1 _)

-- Whatever happens to the test server with the handler for example.com, a panic included, it closes
-- the connection that it serves once, as the last event, and closes no other. It returns no error:
-- it panics, or it read one query as a frame, and wrote the packed reply to it with the address of
-- example.com as one frame, of at most 65535 bytes, before it closed the connection.
pub serve_conn_outcome :
    (L : Library) (set_reply : Msg → Msg) (E : Env) (conn : Conn) (tr : Trace)
    → ClosesLast conn tr (serve_conn E (new_example_com_handler L set_reply) conn tr).1
      × (((tr' : Trace) × (serve_conn E (new_example_com_handler L set_reply) conn tr
              ≡ (ok tt, tr'))
            × Served L set_reply E conn tr tr')
          ⊎ ((serve_conn E (new_example_com_handler L set_reply) conn tr).0 ≡ panic))
serve_conn_outcome L set_reply E conn tr = (
  serve_conn-ClosesLast L set_reply E conn tr,
  elim (NeverErrs-cases _ tr (serve_conn-NeverErrs L set_reply E conn)) [
    | inl (tt, h) ↦ inl (_, h, serve_conn-Served L set_reply E conn tr _ h)
    | inr h ↦ inr h
  ],
)
