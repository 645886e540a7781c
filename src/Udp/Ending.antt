-- ===== src/Udp/Ending.antt =====
-- The collecting loop comes to an end where only so many datagrams arrive, as they do under the
-- deadline of the connection.
use dnscore.Prelude.{
  ◌≡◌, ◌≢◌, refl, sym, ◌∙◌, ap, ◌≤◌, ◌<◌, ℕ, zero, suc, ◌+◌, Bytes, true, false, none, some, [],
  ◌∷◌, arith, inl, inr,
}
use native.Mathlib.Decide.{dec_lt}
use dnscore.Errors.{Error}
use dnscore.Go.{ok, err}
use dnscore.Dns.{Msg, Library}
use dnscore.ServerAddr.{ServerAddr}
use dnscore.Runtime.{Env, Trace, Context, Conn, Event, MessageOrError, received}
use dnscore.Runtime.Io.{pure, emit, ◌>>=◌}
use dnscore.Runtime.Invert.{>>=-ok, >>=-eq-ok, catch-eq-ok, defer_ok}
use dnscore.Transport.{Transport}
use dnscore.Transport.Steps.{read_ok, check_ctx-Only}
use dnscore.Udp.{
  SentQuery, message_or_error, recv_response_udp, edns0_max_response_size, collect,
  send_and_collect, check_and_collect, query_udp_with_duplicates, emit_message_or_error,
}
use dnscore.Runtime.Only.{filter-Only}
use dnscore.Udp.Duplicates.{send_query_udp-off_flow}
use dnscore.Udp.Flow.{
  is_flow, flow, recv, recv_ok, emit_lem, flow_emission, only_msg, IsEmission, emission_cases,
}

-- The datagrams that have arrived.
abbrev pub datagrams : Trace → ℕ
datagrams [] = 0
datagrams (received _ (ok _) ∷ tr) = datagrams tr + 1
datagrams (_ ∷ tr) = datagrams tr

-- Once `k` datagrams have arrived, on whatever connections, every read of this connection fails.
abbrev pub AtMost : ℕ → Env → Conn → ℕ → Type 0
AtMost k E conn size =
    (at : Trace) → k ≤ datagrams (flow at) → (e : Error) × (E.read at conn size ≡ err e)

count_emission :
    {E : Env} {ctx : Context} {before : Trace} (ev : Event) (m : MessageOrError)
    → IsEmission E ctx m before ev
    → (tr : Trace) → datagrams (ev ∷ tr) ≡ datagrams tr
count_emission ev m emission tr = elim (emission_cases emission) [
  | inl e ↦ ap (λ x. datagrams (x ∷ tr)) e
  | inr e ↦ ap (λ x. datagrams (x ∷ tr)) e
]

module _ (L : Library) (E : Env) (t : Transport) (ctx : Context) (addr : ServerAddr) (query : Msg)
    (sent : SentQuery) where
  recv_reads :
      (tr : Trace) {resp : Msg} {mid : Trace}
      → recv L E t ctx addr query sent tr ≡ (ok resp, mid)
      → (raw : Bytes) × (E.read tr sent.conn (edns0_max_response_size L query) ≡ ok raw)
  unfolding recv_response_udp
  recv_reads tr h = let a = >>=-eq-ok _ _ tr h in (a.value, (read_ok E sent.conn _ tr a.first).0)

  -- A read that succeeded was one of the first `k`.
  reads_left :
      (k : ℕ) (tr : Trace) {raw : Bytes}
      → AtMost k E sent.conn (edns0_max_response_size L query)
      → E.read tr sent.conn (edns0_max_response_size L query) ≡ ok raw
      → datagrams (flow tr) < k
  reads_left k tr most read = elim (dec_lt (datagrams (flow tr)) k) [
    | yes lt ↦ lt
    | no ge ↦ let (e, fails) = most tr (omega arith) in absurd (cc (fails, read))
  ]

  -- The loop stops within `k + 1` rounds if at most `k` datagrams arrive: counted from a history
  -- with some datagrams already, the fuel has to reach beyond `k`.
  collect-stops :
      (k fuel : ℕ) (tr tr' : Trace)
      → AtMost k E sent.conn (edns0_max_response_size L query)
      → datagrams (flow tr) ≤ k
      → k < datagrams (flow tr) + fuel
      → collect L E t fuel ctx addr query sent tr ≢ (ok false, tr')
  unfolding collect message_or_error pure
  collect-stops k zero tr tr' most few enough h = absurd (omega arith)
  collect-stops k (suc fuel) tr tr' most few enough h = elim (catch-eq-ok _ _ _ tr h) [
    | inl (e, mid, fails, rest) ↦
        let (ev, emission, eq) = emit_lem L E t ctx none (some e) mid in
        cc (
          ap (λ x. x.0)
            (sym rest ∙ >>=-ok (emit_message_or_error L E t ctx none (some e)) (λ _. pure true) eq))
    | inr ran ↦
        let (ev, emission, eq) = emit_lem L E t ctx (some ran.value) none ran.middle in
        let (raw, parsed, got) = recv_ok L E t ctx addr query sent tr ran.first in
        let grown =
          flow_emission ev (only_msg ran.value) emission ran.middle (ev ∷ ran.middle) refl in
        let counted : datagrams (flow (ev ∷ ran.middle)) ≡ datagrams (flow tr) + 1 =
          rw (grown, got) (count_emission ev (only_msg ran.value) emission _) in
        collect-stops k fuel (ev ∷ ran.middle) tr' most
          (omega (arith, counted, reads_left k tr most (recv_reads tr ran.first).1))
          (omega (arith, counted))
          (sym (>>=-ok (emit_message_or_error L E t ctx (some ran.value) none) _ eq) ∙ ran.rest)
  ]

-- A handler that answers `true` does not answer `false`.
refusal-ne-false :
    (L : Library) (E : Env) (t : Transport) (ctx : Context) (e : Error) (mid tr' : Trace)
    → (emit_message_or_error L E t ctx none (some e) >>= λ _. pure true) mid ≢ (ok false, tr')
unfolding pure
refusal-ne-false L E t ctx e mid tr' h =
    let (ev, emission, eq) = emit_lem L E t ctx none (some e) mid in
    cc (
      ap (λ x. x.0)
        (sym h ∙ >>=-ok (emit_message_or_error L E t ctx none (some e)) (λ _. pure true) eq))

-- Let the reads of every connection fail once `k` datagrams have arrived in the whole history, on
-- whatever connections, and let no more than `k` have arrived before. Then `queryUDPWithDuplicates`
-- comes to its end within `k + 1` rounds of its loop.
pub query_udp_with_duplicates-stops :
    (L : Library) (E : Env) (t : Transport) (ctx : Context) (addr : ServerAddr) (query : Msg)
    (k : ℕ) (tr tr' : Trace)
    → ((conn : Conn) → AtMost k E conn (edns0_max_response_size L query))
    → datagrams (flow tr) ≤ k
    → query_udp_with_duplicates L E t (suc k) ctx addr query tr ≢ (ok false, tr')
unfolding query_udp_with_duplicates check_and_collect send_and_collect pure emit
query_udp_with_duplicates-stops L E t ctx addr query k tr tr' most few h =
    let (body, _) = defer_ok _ _ h in
    elim (catch-eq-ok _ _ _ tr body) [
      | inl (e, mid, done, rest) ↦
          cc (ap (λ x. x.0) (sym rest ∙ >>=-ok (emit _) (λ _. pure true) refl))
      | inr ran ↦ elim (catch-eq-ok _ _ _ ran.middle ran.rest) [
        | inl (e, mid, fails, rest) ↦ refusal-ne-false L E t ctx e mid _ rest
        | inr sent ↦
            let same : flow sent.middle ≡ flow tr =
              filter-Only is_flow _ (send_query_udp-off_flow L E t ctx addr query) sent.first
              ∙ filter-Only is_flow _ (check_ctx-Only E ctx) ran.first in
            collect-stops L E t ctx addr query sent.value k (suc k) sent.middle _
              (most sent.value.conn) (rw same few) (omega arith) (defer_ok _ _ sent.rest).0
      ]
    ]
