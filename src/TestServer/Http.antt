-- ===== src/TestServer/Http.antt =====
-- dnscoretest/dohttps.go: the handler of HTTP requests and its response writer.
pub mod Replies
use dnscore.Runtime.Runtimex.{try1}
use dnscore.Prelude.{Bytes, Option}
use dnscore.Errors.{Error}
use dnscore.Runtime.{Trace, Body, body_read, header_added, body_written}
use dnscore.Runtime.Io.{Io, ask, call, check, emit, ◌>>=◌, ◌>>◌}
use dnscore.Https.{body_end, dns_message}
use dnscore.TestServer.{ResponseWriter, Handler}

-- `Write` of a `http.ResponseWriter`: the error that it returns.
abbrev pub WriteBody : Type 0
WriteBody = Trace → Bytes → Option Error

module _ (write_body : WriteBody) where
  -- `responseWriterHTTPS`
  pub response_writer_https : ResponseWriter
  response_writer_https raw_resp = do
    emit (header_added "Content-Type" dns_message)
    e ← ask (λ tr. write_body tr raw_resp)
    emit (body_written raw_resp)
    check e

  -- The handler that `newHTTPHandler` makes, at a request with this body.
  pub serve_http : Handler → Body → Io (Unit {0})
  unfolding response_writer_https
  serve_http handle body = do
    raw_query ← try1 (call (λ tr. body_end body body.failure) (λ _. body_read body.handle))
    handle response_writer_https raw_query
