-- ===== src/Udp/Flow.antt =====
-- The loop of `queryUDPWithDuplicates`: the datagrams that arrive and what goes to the channel.
use mathlib.Core.Path.{subst}
use dnscore.Prelude.{
  Bool-cases, ◌≡◌, refl, sym, ◌∙◌, ap, ◌⊎◌, inl, inr, ℕ, zero, suc, Bytes, true, false, none, some,
  Option, Bool, ◌∷◌, arith, not, filter, if◌then◌else◌,
}
use dnscore.Errors.{Error}
use dnscore.Go.{Result, ok, err}
use dnscore.Dns.{Msg, Library}
use dnscore.ServerAddr.{ServerAddr}
use dnscore.Runtime.{
  Env, Event, Trace, Context, Conn, MessageOrError, received, emitted, dropped, channel_closed,
}
use dnscore.Runtime.Io.{Io, pure, ask, emit, ◌>>=◌}
use dnscore.Runtime.Only.{filter-Only}
use dnscore.Runtime.Invert.{
  >>=-ok, >>=-eq-ok, >>=-eq-err, catch-eq-ok, lift_ok, lift_err, call_err, pure_ok,
}
use dnscore.Transport.{Transport, read}
use dnscore.Transport.Steps.{read_ok, maybe_log_response_conn-ne-err}
use dnscore.Transport.Logs.{LogsPass, maybe_log_response_conn-Only}
use dnscore.Udp.{SentQuery, message_or_error, recv_response_udp, emit_message_or_error, collect}

-- What arrives on a connection and what goes to the channel.
abbrev pub is_flow : Event → Bool
is_flow (received _ _) = true
is_flow (emitted _) = true
is_flow (dropped _) = true
is_flow (channel_closed) = true
is_flow _ = false

abbrev pub flow : Trace → Trace
flow = filter is_flow

pub logs_off_flow : LogsPass (λ e. not (is_flow e))
logs_off_flow = record { at_clock = λ now. refl; at_log = λ r. refl }

-- At a history with this flow, `select` sent the value to the channel, if it could, and otherwise it
-- was dropped.
pub record IsEmission (E : Env) (ctx : Context) (m : MessageOrError) (before : Trace) (e : Event)
    : Type 0 where
  pub at : Trace
  pub same_flow : flow at ≡ before
  pub chosen : e ≡ (if E.can_emit at ctx then emitted m else dropped m)

pub emission_cases :
    {E : Env} {ctx : Context} {m : MessageOrError} {before : Trace} {e : Event}
    → IsEmission E ctx m before e
    → (e ≡ emitted m) ⊎ (e ≡ dropped m)
emission_cases {E} {ctx} h = elim (Bool-cases (E.can_emit h.at ctx)) [
  | inl t ↦ inl (rw t at h.chosen)
  | inr f ↦ inr (rw f at h.chosen)
]

abbrev pub only_msg : Msg → MessageOrError
only_msg resp = record { err = none; msg = some resp }

abbrev pub only_err : Error → MessageOrError
only_err e = record { err = some e; msg = none }

-- Datagrams that parse, each followed by the one emission of its message.
pub data Collected (L : Library) (E : Env) (ctx : Context) (conn : Conn) (before : Trace)
    : Trace → Type 0 where
  start : Collected L E ctx conn before before
  more :
      {tr : Trace} (raw : Bytes) (resp : Msg) (e : Event)
      → Collected L E ctx conn before tr
      → L.unpack raw ≡ ok resp
      → IsEmission E ctx (only_msg resp) (received conn (ok raw) ∷ tr) e
      → Collected L E ctx conn before (e ∷ received conn (ok raw) ∷ tr)

-- The answer to a read that is an error, or a datagram that does not parse.
abbrev pub FailsWith : Library → Result Bytes → Error → Type 0
FailsWith L r e = (r ≡ err e) ⊎ ((raw : Bytes) × (r ≡ ok raw) × (L.unpack raw ≡ err e))

-- The loop has ended: after some datagrams came one failure, and its error was emitted.
pub record Ended (L : Library) (E : Env) (ctx : Context) (conn : Conn) (before after : Trace)
    : Type 0 where
  pub middle : Trace
  pub collected : Collected L E ctx conn before middle
  pub answer : Result Bytes
  pub failure : Error
  pub failed : FailsWith L answer failure
  pub last : Event
  pub emission : IsEmission E ctx (only_err failure) (received conn answer ∷ middle) last
  pub ends : after ≡ last ∷ received conn answer ∷ middle

pub flow_emission :
    {E : Env} {ctx : Context} {before : Trace} (ev : Event) (m : MessageOrError)
    → IsEmission E ctx m before ev
    → (tr tr' : Trace) → tr' ≡ ev ∷ tr
    → flow tr' ≡ ev ∷ flow tr
flow_emission ev m emission tr tr' h = elim (emission_cases emission) [
  | inl e ↦ ap flow (h ∙ ap (λ x. x ∷ tr) e) ∙ ap (λ x. x ∷ flow tr) (sym e)
  | inr e ↦ ap flow (h ∙ ap (λ x. x ∷ tr) e) ∙ ap (λ x. x ∷ flow tr) (sym e)
]

module _ (L : Library) (E : Env) (t : Transport) (ctx : Context) where
  pub emit_lem :
      (msg : Option Msg) (e : Option Error) (tr : Trace)
      → (ev : Event) × IsEmission E ctx (message_or_error msg e) (flow tr) ev
        × (emit_message_or_error L E t ctx msg e tr ≡ (ok tt, ev ∷ tr))
  unfolding emit_message_or_error ask emit ◌>>=◌
  emit_lem msg e tr =
      let m = message_or_error msg e in
      (
        (if E.can_emit tr ctx then emitted m else dropped m),
        record { at = tr; same_flow = refl; chosen = refl },
        ground arith,
      )

module _ (L : Library) (E : Env) (t : Transport) (ctx : Context) (addr : ServerAddr) (query : Msg)
    (sent : SentQuery) where
  abbrev pub recv : Io Msg
  recv = recv_response_udp L E t addr sent.conn sent.t0 query sent.raw_query

  pub recv_ok :
      (tr : Trace) {resp : Msg} {mid : Trace}
      → recv tr ≡ (ok resp, mid)
      → (raw : Bytes) × (L.unpack raw ≡ ok resp)
        × (flow mid ≡ received sent.conn (ok raw) ∷ flow tr)
  unfolding recv_response_udp
  recv_ok tr h =
      let a = >>=-eq-ok _ _ tr h in
      let b = >>=-eq-ok _ _ a.middle a.rest in
      let c = >>=-eq-ok _ _ b.middle b.rest in
      let r = read_ok E sent.conn _ tr a.first in
      let parsed = lift_ok _ b.first in
      let done = pure_ok _ c.rest in
      (
        a.value,
        parsed.0 ∙ ap ok done.0,
        cc (
          ap flow r.1,
          filter-Only is_flow _
              (maybe_log_response_conn-Only E t logs_off_flow addr sent.t0 sent.raw_query a.value
                sent.conn)
              c.first,
        ),
      )

  pub recv_err :
      (tr : Trace) {e : Error} {mid : Trace}
      → recv tr ≡ (err e, mid)
      → (r : Result Bytes) × FailsWith L r e × (mid ≡ received sent.conn r ∷ tr)
  unfolding recv_response_udp read
  recv_err tr {e} h = elim (>>=-eq-err _ _ tr h) [
    | inl no_read ↦ (err e, inl refl, (call_err _ (received sent.conn) no_read).1)
    | inr a ↦ elim (>>=-eq-err _ _ a.middle a.rest) [
      | inl no_parse ↦
          let x = lift_err _ no_parse in
          (ok a.value, inr (a.value, refl, x.0), x.1 ∙ (read_ok E sent.conn _ tr a.first).1)
      | inr b ↦ elim (>>=-eq-err _ _ b.middle b.rest) [
        | inl no_log ↦ absurd (
            maybe_log_response_conn-ne-err E t addr sent.t0 sent.raw_query a.value sent.conn
              b.middle (ap (λ x. x.0) no_log))
        | inr c ↦ absurd (unfold pure in cc (ap (λ x. x.0) c.rest))
      ]
    ]
  ]

  -- One round that fails ends the loop.
  round_ends :
      (before tr mid tr' : Trace) (e : Error)
      → Collected L E ctx sent.conn before (flow tr)
      → recv tr ≡ (err e, mid)
      → (emit_message_or_error L E t ctx none (some e) >>= λ _. pure true) mid ≡ (ok true, tr')
      → Ended L E ctx sent.conn before (flow tr')
  unfolding message_or_error pure
  round_ends before tr mid tr' e c fails h =
      let (ev, emission, eq) = emit_lem L E t ctx none (some e) mid in
      let (r, f, got) = recv_err tr fails in
      let final =
        ap (λ x. x.1)
          (sym (>>=-ok (emit_message_or_error L E t ctx none (some e)) (λ _. pure true) eq) ∙ h) in
      record {
        middle = flow tr;
        collected = c;
        answer = r;
        failure = e;
        failed = f;
        last = ev;
        emission = subst (λ x. IsEmission E ctx (only_err e) x ev) (ap flow got) emission;
        ends =
            flow_emission ev (only_err e) emission mid tr' (sym final)
            ∙ ap (λ l. ev ∷ l) (ap flow got);
      }

  pub collect_ends :
      (fuel : ℕ) (before tr tr' : Trace)
      → Collected L E ctx sent.conn before (flow tr)
      → collect L E t fuel ctx addr query sent tr ≡ (ok true, tr')
      → Ended L E ctx sent.conn before (flow tr')
  unfolding collect pure message_or_error
  collect_ends zero before tr tr' c h = absurd (cc (ap (λ x. x.0) h))
  collect_ends (suc fuel) before tr tr' c h = elim (catch-eq-ok _ _ _ tr h) [
    | inl (e, mid, fails, rest) ↦ round_ends before tr mid tr' e c fails rest
    | inr ran ↦
        let (ev, emission, eq) = emit_lem L E t ctx (some ran.value) none ran.middle in
        let (raw, parsed, got) = recv_ok tr ran.first in
        let grown =
          flow_emission ev (only_msg ran.value) emission ran.middle (ev ∷ ran.middle) refl in
        collect_ends fuel before (ev ∷ ran.middle) tr'
          (rw (grown, got)
            (more raw ran.value ev c parsed
              (subst (λ x. IsEmission E ctx (only_msg ran.value) x ev) got emission)))
          (sym (>>=-ok (emit_message_or_error L E t ctx (some ran.value) none) _ eq) ∙ ran.rest)
  ]
