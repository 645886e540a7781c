-- ===== src/Udp.antt =====
-- doudp.go: DNS over UDP, with one response or with all that arrive. The goroutine that closes the
-- connection runs when the function that started it returns and `cancel` is called.
pub mod Size
pub mod Closing
pub mod Leak
pub mod Opening
pub mod Flow
pub mod Duplicates
pub mod Ending
pub mod Logging
pub mod Answering
mod Tests
use dnscore.Prelude.{
  ℕ, zero, suc, Bytes, Bool, true, false, Option, none, some, List, [], ◌∷◌, ◌==◌, if◌then◌else◌,
}
use dnscore.Errors.{Error}
use dnscore.Dns.{Rr, opt_rr, Msg, Library}
use dnscore.ServerAddr.{ServerAddr}
use dnscore.Runtime.{
  Env, Trace, Time, Context, Conn, MessageOrError, closed, emitted, dropped, channel_closed,
}
use dnscore.Runtime.Io.{Io, pure, lift, ask, emit, defer, catch, ◌>>=◌, ◌>>◌}
use dnscore.Transport.{
  Transport, check_ctx, write, read, set_deadline, dial_context, maybe_log_query,
  maybe_log_response_conn,
}

-- The loop over `query.Extra`, which ends at the first OPT record.
opt_size : Library → List Rr → ℕ
opt_size L [] = 0
opt_size L (opt_rr h _ ∷ _) = L.udp_size h
opt_size L (_ ∷ rrs) = opt_size L rrs

unfoldable pub edns0_max_response_size : Library → Msg → ℕ
unfolding opt_size
edns0_max_response_size L query =
    let max_size = opt_size L query.extra in if max_size == 0 then 512 else max_size

-- What is sent: the error alone, or the message alone.
unfoldable pub message_or_error : Option Msg → Option Error → MessageOrError
message_or_error msg none = record { err = none; msg = msg }
message_or_error msg (some e) = record { err = some e; msg = none }

-- The value that `sendQueryUDP` returns with no error.
pub record SentQuery : Type 0 where
  pub conn : Conn
  pub t0 : Time
  pub raw_query : Bytes

module _ (L : Library) (E : Env) (t : Transport) where
  -- The rest of `sendQueryUDP`, once it has dialled.
  pub send_on : Context → ServerAddr → Msg → Conn → Io SentQuery
  send_on ctx addr query conn = do
    set_deadline ctx conn
    raw_query ← lift (L.pack query)
    t0 ← maybe_log_query E t addr raw_query
    write E conn raw_query
    pure (record { conn = conn; t0 = t0; raw_query = raw_query })

  -- Its callers drop the connection that comes with an error.
  pub send_query_udp : Context → ServerAddr → Msg → Io SentQuery
  unfolding send_on
  send_query_udp ctx addr query = do
    conn ← dial_context E t ctx "udp" addr.address
    send_on ctx addr query conn

  pub recv_response_udp : ServerAddr → Conn → Time → Msg → Bytes → Io Msg
  recv_response_udp addr conn t0 query raw_query = do
    raw_resp ← read E conn (edns0_max_response_size L query)
    resp ← lift (L.unpack raw_resp)
    maybe_log_response_conn E t addr t0 raw_query raw_resp conn
    pure resp

  unfoldable pub query_udp : Context → ServerAddr → Msg → Io Msg
  query_udp ctx addr query = do
    check_ctx E ctx
    sent ← send_query_udp ctx addr query
    defer (emit (closed sent.conn)) (recv_response_udp addr sent.conn sent.t0 query sent.raw_query)

  -- `select` sends to the channel, or gives up where the context is done.
  pub emit_message_or_error : Context → Option Msg → Option Error → Io (Unit {0})
  unfolding message_or_error
  emit_message_or_error ctx msg e = do
    sends ← ask (λ tr. E.can_emit tr ctx)
    if sends
        then emit (emitted (message_or_error msg e))
        else emit (dropped (message_or_error msg e))

  -- The loop that collects responses. With fuel: `false` means that it goes on.
  pub collect : ℕ → Context → ServerAddr → Msg → SentQuery → Io Bool
  collect zero ctx addr query sent = pure false
  collect (suc fuel) ctx addr query sent =
      catch (recv_response_udp addr sent.conn sent.t0 query sent.raw_query)
        (λ e. do emit_message_or_error ctx none (some e); pure true)
        (λ resp. do emit_message_or_error ctx (some resp) none; collect fuel ctx addr query sent)

  -- The goroutine of `queryUDPWithDuplicates`, up to `defer close(out)`.
  pub send_and_collect : ℕ → Context → ServerAddr → Msg → Io Bool
  unfolding collect
  send_and_collect fuel ctx addr query =
      catch (send_query_udp ctx addr query)
        (λ e. do emit_message_or_error ctx none (some e); pure true)
        (λ sent. defer (emit (closed sent.conn)) (collect fuel ctx addr query sent))

  -- A context that is done already gives its error.
  unfoldable pub check_and_collect : ℕ → Context → ServerAddr → Msg → Io Bool
  unfolding send_and_collect
  check_and_collect fuel ctx addr query =
      catch (check_ctx E ctx) (λ e. do emit (emitted (message_or_error none (some e))); pure true)
        (λ _. send_and_collect fuel ctx addr query)

  -- What goes to the channel `out` is in the history, its closing too.
  unfoldable pub query_udp_with_duplicates : ℕ → Context → ServerAddr → Msg → Io Bool
  unfolding check_and_collect
  query_udp_with_duplicates fuel ctx addr query =
      defer (emit channel_closed) (check_and_collect fuel ctx addr query)
