-- ===== src/TestServer/Http/Replies.antt =====
-- What the test server answers to an HTTP request.
use dnscore.Runtime.Runtimex.{try1, try1-works}
use dnscore.Prelude.{◌≡◌, ap, ◌∙◌, ◌⊎◌, inl, inr, Bytes, Option, none, some, ◌∷◌, Option-cases}
use dnscore.Errors.{Error}
use dnscore.Go.{Result, ok, panic}
use dnscore.Dns.{Msg, Library}
use dnscore.Runtime.{Trace, Body, body_read, header_added, body_written}
use dnscore.Runtime.Io.{pure, lift, ask, call, check, emit, catch, handle, ◌>>=◌}
use dnscore.Runtime.Invert.{>>=-ok}
use dnscore.Https.{body_end, dns_message}
use dnscore.TestServer.{new_example_com_handler, Handler}
use dnscore.TestServer.Handling.{Answers, handler-writes, handler_cases}
use dnscore.TestServer.Http.{WriteBody, response_writer_https, serve_http}

-- An error of `Write` is a panic.
abbrev pub written : Option Error → Result (Unit {0})
written none = ok tt
written (some e) = panic

-- What has happened when the reply is written.
abbrev pub before_write : Body → Trace → Trace
before_write body tr = header_added "Content-Type" dns_message ∷ body_read body.handle ∷ tr

module _ (write_body : WriteBody) where
  write_reply :
      (raw_resp : Bytes) (tr : Trace)
      → try1 (response_writer_https write_body raw_resp) tr ≡ (
        written (write_body (header_added "Content-Type" dns_message ∷ tr) raw_resp),
        body_written raw_resp ∷ header_added "Content-Type" dns_message ∷ tr,
      )
  unfolding response_writer_https try1 pure lift ask emit check catch handle ◌>>=◌
  write_reply raw_resp tr =
      elim (Option-cases (write_body (header_added "Content-Type" dns_message ∷ tr) raw_resp)) [
        | inl done ↦ rw done
        | inr (e, fails) ↦ rw fails
      ]

  module _ (handler : Handler) (body : Body) (tr : Trace) where
    serve_http-handles :
        body.failure ≡ none
        → serve_http write_body handler body tr
          ≡ handler (response_writer_https write_body) body.content (body_read body.handle ∷ tr)
    unfolding serve_http body_end call
    serve_http-handles whole =
        >>=-ok _ _ (try1-works _ (ap (λ o. (body_end body o, body_read body.handle ∷ tr)) whole))

    serve_http-fails :
        {e : Error}
        → body.failure ≡ some e
        → serve_http write_body handler body tr ≡ (panic, body_read body.handle ∷ tr)
    unfolding serve_http body_end call try1 catch handle lift ◌>>=◌
    serve_http-fails fails =
        ap
          (λ o.
            (try1 (call (λ at. body_end body o) (λ r. body_read body.handle))
                >>= handler (response_writer_https write_body))
              tr)
          fails

module _ (L : Library) (set_reply : Msg → Msg) (write_body : WriteBody) (body : Body)
    (tr : Trace) where
  pub serve_http-replies :
      {raw_resp : Bytes}
      → body.failure ≡ none
      → Answers L set_reply body.content raw_resp
      → serve_http write_body (new_example_com_handler L set_reply) body tr ≡ (
        written (write_body (before_write body tr) raw_resp),
        body_written raw_resp ∷ before_write body tr,
      )
  serve_http-replies {raw_resp} whole a =
      serve_http-handles write_body (new_example_com_handler L set_reply) body tr whole
      ∙ handler-writes L set_reply _ _ _ a
      ∙ write_reply write_body raw_resp _

  -- Of an HTTP request, the test server with the handler for example.com reads the body once. If the
  -- body comes to its end and holds a query whose reply can be packed, then the server writes that
  -- reply once, with the content type of DNS messages set before it, and panics only if the writing
  -- fails. In every other case it panics and has written nothing.
  pub serve_http_outcome :
      ((raw_resp : Bytes) × (body.failure ≡ none)
        × Answers L set_reply body.content raw_resp
        × (serve_http write_body (new_example_com_handler L set_reply) body tr ≡ (
          written (write_body (before_write body tr) raw_resp),
          body_written raw_resp ∷ before_write body tr,
        )))
      ⊎ ((serve_http write_body (new_example_com_handler L set_reply) body tr
            ≡ (panic, body_read body.handle ∷ tr))
          × ((raw_resp : Bytes)
              → ¬ ((body.failure ≡ none) × Answers L set_reply body.content raw_resp)))
  serve_http_outcome = elim (Option-cases body.failure) [
    | inr (e, fails) ↦
        inr (serve_http-fails write_body _ body tr fails, λ raw (whole, a). cc (whole, fails))
    | inl whole ↦
        let handles =
          serve_http-handles write_body (new_example_com_handler L set_reply) body tr whole in
        elim (handler_cases L set_reply (response_writer_https write_body) body.content
          (body_read body.handle ∷ tr)) [
            | inl (raw_resp, a) ↦ inl (raw_resp, whole, a, serve_http-replies whole a)
            | inr (stops, no_reply) ↦ inr (handles ∙ stops, λ raw (_, a). no_reply raw a)
          ]
  ]
