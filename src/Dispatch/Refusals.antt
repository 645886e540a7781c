-- ===== src/Dispatch/Refusals.antt =====
-- transport.go: what the entry points do where no exchange takes place.
use dnscore.Prelude.{
  ◌≡◌, ◌≢◌, refl, ◌⊎◌, inl, inr, ℕ, true, false, some, none, ◌∷◌, str_eq, str_eq_iff, Bool-cases,
}
use dnscore.Errors.{
  Error, sentinel, wrapped, no_such_transport_protocol, transport_cannot_receive_duplicates,
}
use dnscore.Go.{ok, err}
use dnscore.Dns.{Msg, Library}
use dnscore.ServerAddr.{
  Protocol, ServerAddr, protocol_udp, protocol_tcp, protocol_dot, protocol_doh,
}
use dnscore.Runtime.{Env, Trace, Context, emitted, channel_closed}
use dnscore.Runtime.Io.{fail, pure, emit, defer, after, catch, handle, ◌>>=◌}
use dnscore.Runtime.Invert.{>>=-err}
use dnscore.Transport.{Transport, check_ctx}
use dnscore.Transport.Steps.{check_ctx_done}
use dnscore.Stream.{query_tcp, query_tls}
use dnscore.Udp.{query_udp, query_udp_with_duplicates, check_and_collect, message_or_error}
use dnscore.Https.{query_https}
use dnscore.Dispatch.{query, query_with_duplicates}

abbrev pub IsKnown : Protocol → Type 0
IsKnown p = (p ≡ protocol_udp) ⊎ (p ≡ protocol_tcp) ⊎ (p ≡ protocol_dot) ⊎ (p ≡ protocol_doh)

module _ (L : Library) (E : Env) (t : Transport) (ctx : Context) (addr : ServerAddr) (q : Msg)
    (tr : Trace) where
  -- Each protocol looks at the context first.
  protocols_done :
      {e : Error}
      → E.ctx_err tr ctx ≡ some e
      → (query_udp L E t ctx addr q tr ≡ (err e, tr))
        × (query_tcp L E t ctx addr q tr ≡ (err e, tr))
        × (query_tls L E t ctx addr q tr ≡ (err e, tr))
        × (query_https L E t ctx addr q tr ≡ (err e, tr))
  unfolding query_udp query_tcp query_tls query_https
  protocols_done h =
      let d = check_ctx_done E ctx tr h in
      (
        >>=-err (check_ctx E ctx) _ d,
        >>=-err (check_ctx E ctx) _ d,
        >>=-err (check_ctx E ctx) _ d,
        >>=-err (check_ctx E ctx) _ d,
      )

-- With a context that is done, `Query` does nothing: it returns the context's error for the four
-- protocols, and `ErrNoSuchTransportProtocol` with the protocol's name for any other.
pub query_refuses :
    (L : Library) (E : Env) (t : Transport) (ctx : Context) (addr : ServerAddr) (q : Msg)
    (tr : Trace) {e : Error}
    → E.ctx_err tr ctx ≡ some e
    → (IsKnown addr.protocol × (query L E t ctx addr q tr ≡ (err e, tr)))
      ⊎ (¬ IsKnown addr.protocol
          × (query L E t ctx addr q tr
              ≡ (err (wrapped (sentinel no_such_transport_protocol) addr.protocol), tr)))
unfolding query fail
query_refuses L E t ctx addr q tr h =
    let d = protocols_done L E t ctx addr q tr h in
    elim (Bool-cases (str_eq addr.protocol protocol_udp)) [
      | inl u ↦ inl (inl ((str_eq_iff _ _).0 u), rw u d.0)
      | inr u ↦ elim (Bool-cases (str_eq addr.protocol protocol_tcp)) [
        | inl v ↦ inl (inr (inl ((str_eq_iff _ _).0 v)), rw (u, v) d.1)
        | inr v ↦ elim (Bool-cases (str_eq addr.protocol protocol_dot)) [
          | inl w ↦ inl (inr (inr (inl ((str_eq_iff _ _).0 w))), rw (u, v, w) d.2)
          | inr w ↦ elim (Bool-cases (str_eq addr.protocol protocol_doh)) [
            | inl x ↦ inl (inr (inr (inr ((str_eq_iff _ _).0 x))), rw (u, v, w, x) d.3)
            | inr x ↦ inr (unknown u v w x, rw (u, v, w, x) refl)
          ]
        ]
      ]
    ]
  where
    ne : (p : Protocol) → str_eq addr.protocol p ≡ false → addr.protocol ≢ p
    ne p f e = absurd (cc (f, (str_eq_iff addr.protocol p).1 e))

    unknown :
        str_eq addr.protocol protocol_udp ≡ false
        → str_eq addr.protocol protocol_tcp ≡ false
        → str_eq addr.protocol protocol_dot ≡ false
        → str_eq addr.protocol protocol_doh ≡ false
        → ¬ IsKnown addr.protocol
    unknown u v w x (inl e) = ne _ u e
    unknown u v w x (inr (inl e)) = ne _ v e
    unknown u v w x (inr (inr (inl e))) = ne _ w e
    unknown u v w x (inr (inr (inr e))) = ne _ x e

-- One error was sent to the channel, which was then closed.
abbrev pub gave_up : Error → Trace → Trace
gave_up e tr = channel_closed ∷ emitted (record { err = some e; msg = none }) ∷ tr

-- With a context that is done, `QueryWithDuplicates` sends one error and closes the channel: the
-- context's error over UDP, and `ErrTransportCannotReceiveDuplicates` with the protocol's name for
-- any other protocol. The loop ends whatever the fuel.
pub query_with_duplicates_refuses :
    (L : Library) (E : Env) (t : Transport) (fuel : ℕ) (ctx : Context) (addr : ServerAddr) (q : Msg)
    (tr : Trace) {e : Error}
    → E.ctx_err tr ctx ≡ some e
    → ((addr.protocol ≡ protocol_udp)
        × (query_with_duplicates L E t fuel ctx addr q tr ≡ (ok true, gave_up e tr)))
      ⊎ ((addr.protocol ≢ protocol_udp)
          × (query_with_duplicates L E t fuel ctx addr q tr ≡ (
            ok true,
            gave_up (wrapped (sentinel transport_cannot_receive_duplicates) addr.protocol) tr,
          )))
unfolding query_with_duplicates query_udp_with_duplicates check_and_collect message_or_error defer
    after catch emit pure handle ◌>>=◌
query_with_duplicates_refuses L E t fuel ctx addr q tr {e} h =
    elim (Bool-cases (str_eq addr.protocol protocol_udp)) [
      | inl u ↦ inl ((str_eq_iff _ _).0 u, rw u (rw done refl))
      | inr u ↦ inr (λ p. absurd (cc (u, (str_eq_iff _ _).1 p)), rw u refl)
    ]
  where
    done : check_ctx E ctx tr ≡ (err e, tr)
    done = check_ctx_done E ctx tr h

-- With a context that is done, the entry points exchange nothing. `Query` returns the context's error
-- for the four protocols, and `ErrNoSuchTransportProtocol` with the protocol's name for any other.
-- `QueryWithDuplicates` sends one error and closes the channel, whatever the fuel of its loop: the
-- context's error over UDP, and `ErrTransportCannotReceiveDuplicates` with the protocol's name for
-- any other protocol.
pub entry_points_refuse :
    (L : Library) (E : Env) (t : Transport) (fuel : ℕ) (ctx : Context) (addr : ServerAddr) (q : Msg)
    (tr : Trace) {e : Error}
    → E.ctx_err tr ctx ≡ some e
    → ((IsKnown addr.protocol × (query L E t ctx addr q tr ≡ (err e, tr)))
        ⊎ (¬ IsKnown addr.protocol
            × (query L E t ctx addr q tr
                ≡ (err (wrapped (sentinel no_such_transport_protocol) addr.protocol), tr))))
      × (((addr.protocol ≡ protocol_udp)
            × (query_with_duplicates L E t fuel ctx addr q tr ≡ (ok true, gave_up e tr)))
          ⊎ ((addr.protocol ≢ protocol_udp)
              × (query_with_duplicates L E t fuel ctx addr q tr ≡ (
                ok true,
                gave_up (wrapped (sentinel transport_cannot_receive_duplicates) addr.protocol) tr,
              ))))
entry_points_refuse L E t fuel ctx addr q tr h =
    (query_refuses L E t ctx addr q tr h, query_with_duplicates_refuses L E t fuel ctx addr q tr h)
