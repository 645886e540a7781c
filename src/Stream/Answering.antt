-- ===== src/Stream/Answering.antt =====
-- A run of the round trip on a stream in which every step succeeds, and what it writes in any case.
use dnscore.Prelude.{◌≡◌, refl, ap, ◌∙◌, ◌≤◌, Bytes, none, ◌∷◌, ◌++◌, length, arith}
use dnscore.Go.{ok}
use dnscore.Dns.{Msg, Library}
use dnscore.ServerAddr.{ServerAddr}
use dnscore.Runtime.{Env, Trace, Time, Context, Conn, closed, wrote, received}
use dnscore.Runtime.Io.{pure, lift, emit, defer, after, ◌>>=◌}
use dnscore.Runtime.Only.{Only, only_rules}
use dnscore.Runtime.Invert.{>>=-ok}
use dnscore.Transport.{Transport, maybe_log_response_conn}
use dnscore.Transport.Pipe.{
  sent_bytes, received_count, ReadsFrom, ReadsFrom-frame, writes_nothing, logs_write_nothing,
  counts-wrote, sent_bytes-keeps,
}
use dnscore.Transport.Steps.{
  set_deadline_total, maybe_log_query_total, maybe_log_response_conn_total, write_works,
  read_full_works, read_full-Only,
}
use dnscore.Transport.Logs.{maybe_log_response_conn-Only}
use dnscore.Frame.{frame, new_raw_msg_frame, max_uint16}
use dnscore.Stream.{send_frame, receive_frame, exchange_frames, query_stream}
use dnscore.Stream.RoundTrip.{send_frame_ok}

new_raw_msg_frame-fits :
    (addr : ServerAddr) (raw : Bytes)
    → length raw ≤ max_uint16
    → new_raw_msg_frame addr raw ≡ ok (frame raw)
unfolding new_raw_msg_frame
new_raw_msg_frame-fits addr raw fits = ground arith

module _ (L : Library) (E : Env) (t : Transport) (ctx : Context) (addr : ServerAddr) (conn : Conn)
    (tr : Trace) (raw_query : Bytes) (fits : length raw_query ≤ max_uint16)
    (writes : (at : Trace) (bytes : Bytes) → E.write at conn bytes ≡ none) where
  send_frame-works :
      (t0 : Time) × (mid : Trace) × (send_frame L E t ctx addr (ok raw_query) conn tr
        ≡ (ok (raw_query, t0), mid))
  unfolding send_frame pure lift
  send_frame-works =
      let (timed, deadline) = set_deadline_total ctx conn tr in
      let (t0, mid, logged) = maybe_log_query_total E t addr raw_query timed in
      (
        t0,
        wrote conn (frame raw_query) ∷ mid,
        >>=-ok _ _ deadline
            ∙ >>=-ok _ _ refl
            ∙ >>=-ok _ _ logged
            ∙ >>=-ok _ _ (λ i. (new_raw_msg_frame-fits addr raw_query fits i, mid))
            ∙ >>=-ok _ _ (write_works E conn (frame raw_query) mid (writes mid _)),
      )

  -- The history after the sending: the frame is written and nothing is read.
  send_frame-counts :
      (t0 : Time) (mid : Trace)
      → send_frame L E t ctx addr (ok raw_query) conn tr ≡ (ok (raw_query, t0), mid)
      → (sent_bytes conn mid ≡ sent_bytes conn tr ++ frame raw_query)
        × (received_count conn mid ≡ received_count conn tr)
  send_frame-counts t0 mid h =
      counts-wrote conn (frame raw_query) tr mid
        (send_frame_ok L E t ctx addr (ok raw_query) conn tr h).2

  after_sending-Only :
      (t0 : Time)
      → Only writes_nothing (
          receive_frame L E t conn >>= λ raw_resp. lift (L.unpack raw_resp) >>= λ resp.
          maybe_log_response_conn E t addr t0 raw_query raw_resp conn >>= λ _. pure resp)
  unfolding receive_frame
  after_sending-Only t0 =
      search
        (only_rules, read_full-Only E conn, maybe_log_response_conn-Only E t logs_write_nothing)
        depth 25

  -- Whatever it reads afterwards, the round trip writes one frame.
  pub query_stream-sends :
      sent_bytes conn (query_stream L E t ctx addr (ok raw_query) conn tr).1
      ≡ sent_bytes conn tr ++ frame raw_query
  unfolding query_stream exchange_frames defer after emit
  query_stream-sends =
      let (t0, mid, sent) = send_frame-works in
      let x = (after_sending-Only t0).at mid in
      ap (λ r. sent_bytes conn r.1) (>>=-ok _ _ sent)
      ∙ ap (sent_bytes conn) x.extends
      ∙ sent_bytes-keeps conn x.added mid x.pass
      ∙ (send_frame-counts t0 mid sent).0

  pub query_stream-answers :
      {raw_resp : Bytes} {resp : Msg}
      → received_count conn tr ≡ 0
      → ReadsFrom E conn (frame raw_resp)
      → length raw_resp ≤ max_uint16
      → L.unpack raw_resp ≡ ok resp
      → (tr' : Trace) × (query_stream L E t ctx addr (ok raw_query) conn tr ≡ (ok resp, tr'))
  unfolding query_stream exchange_frames receive_frame defer after emit lift pure
  query_stream-answers {raw_resp} {resp} fresh pipe short parsed =
      let (t0, mid, sent) = send_frame-works in
      let (header, first, size, second) =
        ReadsFrom-frame E conn raw_resp mid pipe short
          ((send_frame-counts t0 mid sent).1 ∙ fresh) in
      let read = received conn (ok raw_resp) ∷ received conn (ok header) ∷ mid in
      let (end, logged) = maybe_log_response_conn_total E t addr t0 raw_query raw_resp conn read in
      (
        closed conn ∷ end,
        ap (after (emit (closed conn))) (
            >>=-ok _ _ sent
            ∙ >>=-ok _ _ (
                >>=-ok _ _ (read_full_works E conn 2 mid first)
                ∙ >>=-ok _ _ (λ i. (size i, received conn (ok header) ∷ mid))
                ∙ read_full_works E conn _ _ second)
            ∙ >>=-ok _ _ (λ i. (parsed i, read))
            ∙ >>=-ok _ _ logged),
      )
