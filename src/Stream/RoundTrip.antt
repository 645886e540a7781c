-- ===== src/Stream/RoundTrip.antt =====
-- What passes over the connection when `queryStream` succeeds.
use dnscore.Prelude.{◌≡◌, refl, ◌∙◌, ap, ◌≤◌, Bytes, ℕ, ◌∷◌, length, arith}
use dnscore.Go.{Result, ok}
use dnscore.Dns.{Msg, Library}
use dnscore.ServerAddr.{ServerAddr}
use dnscore.Runtime.{Env, Trace, Context, Conn, Time, closed, wrote, received}
use dnscore.Runtime.Io.{emit, defer}
use dnscore.Runtime.Only.{filter-Only}
use dnscore.Runtime.Invert.{>>=-eq-ok, lift_ok, pure_ok}
use dnscore.Transport.{Transport}
use dnscore.Transport.Wire.{is_wire, wire, logs_off_wire}
use dnscore.Transport.Steps.{set_deadline-Only, write_ok, read_full_ok}
use dnscore.Transport.Logs.{maybe_log_query-Only, maybe_log_response_conn-Only}
use dnscore.Frame.{frame, new_raw_msg_frame, frame_length, max_uint16}
use dnscore.Stream.{send_frame, receive_frame, exchange_frames, query_stream}

new_raw_msg_frame_ok :
    (addr : ServerAddr) (raw : Bytes) {f : Bytes}
    → new_raw_msg_frame addr raw ≡ ok f
    → (f ≡ frame raw) × (length raw ≤ max_uint16)
unfolding new_raw_msg_frame
new_raw_msg_frame_ok addr raw h = ground arith

module _ (L : Library) (E : Env) (t : Transport) (ctx : Context) (addr : ServerAddr)
    (packed : Result Bytes) (conn : Conn) where
  pub send_frame_ok :
      (tr : Trace) {raw : Bytes} {t0 : Time} {mid : Trace}
      → send_frame L E t ctx addr packed conn tr ≡ (ok (raw, t0), mid)
      → (packed ≡ ok raw)
        × (length raw ≤ max_uint16)
        × (wire mid ≡ wrote conn (frame raw) ∷ wire tr)
  unfolding send_frame
  send_frame_ok tr {raw} h =
      let a = >>=-eq-ok _ _ tr h in
      let b = >>=-eq-ok _ _ a.middle a.rest in
      let c = >>=-eq-ok _ _ b.middle b.rest in
      let d = >>=-eq-ok _ _ c.middle c.rest in
      let e = >>=-eq-ok _ _ d.middle d.rest in
      let packed_ok = lift_ok packed b.first in
      let framed = lift_ok _ d.first in
      let done = pure_ok _ e.rest in
      let same : b.value ≡ raw = ap (λ x. x.0) done.0 in
      let fits = new_raw_msg_frame_ok addr b.value framed.0 in
      (
        cc,
        rw same at fits.1,
        cc (
          ap wire (write_ok E conn d.value d.middle e.first),
          filter-Only is_wire _ (maybe_log_query-Only E t logs_off_wire addr b.value) c.first,
          filter-Only is_wire _ (set_deadline-Only conn (λ _. refl) ctx) a.first,
        ),
      )

  receive_frame_ok :
      (tr : Trace) {raw : Bytes} {mid : Trace}
      → receive_frame L E t conn tr ≡ (ok raw, mid)
      → (header : Bytes) × (n : ℕ) × (frame_length header ≡ ok n)
        × (E.read_full tr conn 2 ≡ ok header)
        × (E.read_full (received conn (ok header) ∷ tr) conn n ≡ ok raw)
        × (mid ≡ received conn (ok raw) ∷ received conn (ok header) ∷ tr)
  unfolding receive_frame
  receive_frame_ok tr {raw} h =
      let a = >>=-eq-ok _ _ tr h in
      let b = >>=-eq-ok _ _ a.middle a.rest in
      let length_ok = lift_ok _ b.first in
      let x = read_full_ok E conn 2 tr a.first in
      let y = read_full_ok E conn b.value b.middle b.rest in
      let mid_eq : b.middle ≡ received conn (ok a.value) ∷ tr = length_ok.1 ∙ x.1 in
      (
        a.value,
        b.value,
        length_ok.0,
        x.0,
        rw mid_eq at y.0,
        y.1 ∙ ap (λ m. received conn (ok raw) ∷ m) mid_eq,
      )

-- A successful exchange: the query was packed into at most 65535 bytes and written as one frame;
-- two bytes were read, then as many as they say; and those bytes parse to the response. In this
-- order, then the closing: nothing else passed over a connection.
pub record Exchanged (L : Library) (E : Env) (packed : Result Bytes) (conn : Conn)
    (before after : Trace) (resp : Msg) : Type 0 where
  pub raw_query : Bytes
  pub header : Bytes
  pub size : ℕ
  pub raw_resp : Bytes
  pub packed_query : packed ≡ ok raw_query
  pub fits : length raw_query ≤ max_uint16
  pub header_read : (at : Trace) × (E.read_full at conn 2 ≡ ok header)
  pub announced : frame_length header ≡ ok size
  pub read_as_announced : (at : Trace) × (E.read_full at conn size ≡ ok raw_resp)
  pub parsed : L.unpack raw_resp ≡ ok resp
  pub on_wire :
      wire after
      ≡ closed conn
        ∷ received conn (ok raw_resp)
        ∷ received conn (ok header)
        ∷ wrote conn (frame raw_query)
        ∷ wire before

module _ (L : Library) (E : Env) (t : Transport) (ctx : Context) (addr : ServerAddr)
    (packed : Result Bytes) (conn : Conn) (tr : Trace) where
  exchange_frames_ok :
      {resp : Msg} {mid : Trace}
      → exchange_frames L E t ctx addr packed conn tr ≡ (ok resp, mid)
      → Exchanged L E packed conn tr (closed conn ∷ mid) resp
  unfolding exchange_frames
  exchange_frames_ok {resp} {mid} h =
      let a = >>=-eq-ok _ _ tr h in
      let b = >>=-eq-ok _ _ a.middle a.rest in
      let c = >>=-eq-ok _ _ b.middle b.rest in
      let d = >>=-eq-ok _ _ c.middle c.rest in
      let sent = send_frame_ok L E t ctx addr packed conn tr a.first in
      let (header, size, announced, first, read, got) =
        receive_frame_ok L E t ctx addr packed conn a.middle b.first in
      let parsed = lift_ok _ c.first in
      let done = pure_ok _ d.rest in
      record {
        raw_query = a.value.0;
        header = header;
        size = size;
        raw_resp = b.value;
        packed_query = sent.0;
        fits = sent.1;
        header_read = (a.middle, first);
        announced = announced;
        read_as_announced = (_, read);
        parsed = parsed.0 ∙ ap ok done.0;
        on_wire =
            ap (λ w. closed conn ∷ w)
              (cc (
                ap wire got,
                sent.2,
                filter-Only is_wire _
                    (maybe_log_response_conn-Only E t logs_off_wire addr a.value.1 a.value.0 b.value
                      conn)
                    d.first,
              ));
      }

-- When `queryStream` returns a response, the query fits a frame, exactly one frame with the packed
-- query was written, then a header and as many bytes as it announces were read, the response is
-- what those bytes parse to, and the connection was closed.
pub query_stream-Exchanged :
    (L : Library) (E : Env) (t : Transport) (ctx : Context) (addr : ServerAddr)
    (packed : Result Bytes) (conn : Conn) (tr tr' : Trace) {resp : Msg}
    → query_stream L E t ctx addr packed conn tr ≡ (ok resp, tr')
    → Exchanged L E packed conn tr tr' resp
unfolding query_stream defer emit
query_stream-Exchanged L E t ctx addr packed conn tr tr' {resp} h = rw (← ap (λ x. x.1) h) (
    exchange_frames_ok L E t ctx addr packed conn tr
      (λ i. ((h i).0, (exchange_frames L E t ctx addr packed conn tr).1)))
