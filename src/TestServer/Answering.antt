-- ===== src/TestServer/Answering.antt =====
-- A run of the test server on a stream in which every step succeeds.
use dnscore.Runtime.Runtimex.{try1-works, assert-holds}
use dnscore.Prelude.{◌≡◌, refl, ap, ◌∙◌, ◌≤◌, Bytes, leb, none, ◌∷◌, ◌++◌, length, ==_iff, arith}
use dnscore.Go.{ok}
use dnscore.Dns.{Msg, Library}
use dnscore.Runtime.{Env, Trace, Conn, closed, wrote, received}
use dnscore.Runtime.Io.{lift, emit, defer, after}
use dnscore.Runtime.Invert.{>>=-ok}
use dnscore.Transport.Pipe.{sent_bytes, received_count, ReadsFrom, ReadsFrom-frame}
use dnscore.Transport.Steps.{write_works, read_full_works}
use dnscore.Frame.{frame, max_uint16}
use dnscore.TestServer.{response_writer_stream, read_query, new_example_com_handler, serve_conn}
use dnscore.TestServer.Handling.{Answers, handler-writes}

module _ (E : Env) (conn : Conn)
    (writes : (at : Trace) (bytes : Bytes) → E.write at conn bytes ≡ none) where
  response_writer_stream-works :
      (raw : Bytes) (tr : Trace)
      → length raw ≤ max_uint16
      → response_writer_stream E conn raw tr ≡ (ok tt, wrote conn (frame raw) ∷ tr)
  unfolding response_writer_stream
  response_writer_stream-works raw tr fits =
      >>=-ok _ _ (assert-holds (leb (length raw) max_uint16) tr (ground arith))
      ∙ write_works E conn (frame raw) tr (writes tr _)

  -- The server reads the query that comes as one frame, writes the reply as one frame, and closes.
  pub serve_conn-works :
      (L : Library) (set_reply : Msg → Msg) (tr : Trace) {raw_query raw_resp : Bytes}
      → received_count conn tr ≡ 0
      → ReadsFrom E conn (frame raw_query)
      → length raw_query ≤ max_uint16
      → Answers L set_reply raw_query raw_resp
      → length raw_resp ≤ max_uint16
      → (tr' : Trace) × (serve_conn E (new_example_com_handler L set_reply) conn tr ≡ (ok tt, tr'))
        × (sent_bytes conn tr' ≡ sent_bytes conn tr ++ frame raw_resp)
  unfolding serve_conn read_query defer after emit lift
  serve_conn-works L set_reply tr {raw_query} {raw_resp} fresh pipe fits answers short =
      let (header, first, size, second) = ReadsFrom-frame E conn raw_query tr pipe fits fresh in
      let read = received conn (ok raw_query) ∷ received conn (ok header) ∷ tr in
      (
        closed conn ∷ wrote conn (frame raw_resp) ∷ read,
        ap (after (emit (closed conn))) (
            >>=-ok _ _ (
              >>=-ok _ _ (try1-works _ (read_full_works E conn 2 tr first))
              ∙ >>=-ok _ _ (λ i. (size i, received conn (ok header) ∷ tr))
              ∙ try1-works _ (read_full_works E conn _ _ second))
            ∙ handler-writes L set_reply (response_writer_stream E conn) raw_query read answers
            ∙ try1-works _ (response_writer_stream-works raw_resp read short)),
        rw ((==_iff conn conn).1 refl),
      )
