-- ===== src/Lookup/Exchange.antt =====
-- lookup.go: what `exchange` accepts, and what it does with a query that asks nothing.
use dnscore.Prelude.{
  ◌≡◌, ◌≢◌, refl, sym, ap, ◌∙◌, ◌⊎◌, inl, inr, ℕ, ◌+◌, Bytes, Bool, true, false, none, List, [],
  ◌∷◌, ◌==◌, ==_iff, Bool-cases, if◌then◌else◌,
}
use dnscore.Prelude.Int.{ℤ, pos_part}
use dnscore.Errors.{Error}
use dnscore.Go.{ok, panic}
use dnscore.Dns.{Library, Msg, Question, Rr}
use dnscore.Runtime.{Env, Trace, Context, clock_read, with_deadline}
use dnscore.Runtime.Io.{Io, pure, fail, lift, ask, emit, ◌>>=◌}
use dnscore.Runtime.Invert.{>>=-eq-ok, >>=-ok, lift_ok, pure_ok, check_ok}
use dnscore.Query.{new_query_with_server_addr}
use dnscore.Response.{rcode_to_error}
use dnscore.Response.Validate.{IsReply, validate_response_iff}
use dnscore.Response.Answers.{AreValidAnswers, valid_answers_sound}
use dnscore.ResolverConfig.{ResolverConfigServer}
use dnscore.Resolver.{Resolver, transport}
use dnscore.Lookup.{is_onion, first_question, limit_time, accept, exchange}

-- The context for the server: the caller's one where the timeout is not positive, and otherwise
-- one with a deadline that is the timeout from the clock.
abbrev pub IsLimited : Env → Context → ℤ → Trace → Context → Trace → Type 0
IsLimited E ctx timeout before limited after =
    ((pos_part timeout ≡ 0) × (limited ≡ ctx) × (after ≡ before))
    ⊎ ((pos_part timeout ≢ 0)
        × (limited ≡ with_deadline ctx (E.now before + pos_part timeout))
        × (after ≡ clock_read (E.now before) ∷ before))

-- A query for the name was built and asked of the server within its timeout, and the records are
-- the valid answers of a response to it.
pub record Answered (L : Library) (E : Env) (r : Resolver) (ctx : Context) (name : Bytes)
    (qtype : ℕ) (server : ResolverConfigServer) (before after : Trace) (rrs : List Rr)
    : Type 0 where
  pub limited : Context
  pub query : Msg
  pub q0 : Question
  pub others : List Question
  pub resp : Msg
  pub started : Trace
  pub built : Trace
  pub not_onion : is_onion L name ≡ false
  pub in_time : IsLimited E ctx server.timeout before limited started
  pub made :
      new_query_with_server_addr L E server.address name qtype server.query_options started
      ≡ (ok query, built)
  pub asks : query.question ≡ q0 ∷ others
  pub asked : transport L E r limited server.address query built ≡ (ok resp, after)
  pub is_reply : IsReply query resp
  pub no_error : rcode_to_error resp ≡ none
  pub answers : AreValidAnswers q0 resp.answer rrs

pub limit_time_ok :
    (L : Library) (E : Env) (ctx : Context) (timeout : ℤ) (tr : Trace) {limited : Context}
    {mid : Trace}
    → limit_time L E ctx timeout tr ≡ (ok limited, mid)
    → IsLimited E ctx timeout tr limited mid
unfolding limit_time pure ask emit ◌>>=◌
limit_time_ok L E ctx timeout tr h = elim (Bool-cases (pos_part timeout == 0)) [
  | inl z ↦ let p = pure_ok ctx {tr = tr} (rw z at h) in inl ((==_iff _ _).0 z, sym p.0, p.1)
  | inr z ↦
      let p =
        pure_ok (with_deadline ctx (E.now tr + pos_part timeout)) {tr = clock_read (E.now tr) ∷ tr}
          (rw z at h) in
      inr (λ q. absurd (cc (z, (==_iff _ _).1 q)), sym p.0, p.1)
]

first_question_ok :
    (qs : List Question) {q0 : Question}
    → first_question qs ≡ ok q0
    → (others : List Question) × (qs ≡ q0 ∷ others)
unfolding first_question
first_question_ok [] h = absurd (cc h)
first_question_ok (q ∷ qs) h = (qs, cc h)

accept_ok :
    (L : Library) (E : Env) (q0 : Question) (query resp : Msg) (tr : Trace) {rrs : List Rr}
    {mid : Trace}
    → accept L E q0 query resp tr ≡ (ok rrs, mid)
    → IsReply query resp
      × (rcode_to_error resp ≡ none)
      × AreValidAnswers q0 resp.answer rrs
      × (mid ≡ tr)
unfolding accept
accept_ok L E q0 query resp tr h =
    let a = >>=-eq-ok _ _ tr h in
    let b = >>=-eq-ok _ _ a.middle a.rest in
    let valid = check_ok _ a.first in
    let fine = check_ok _ b.first in
    let found = lift_ok _ b.rest in
    (
      (validate_response_iff query resp).0 valid.0,
      fine.0,
      valid_answers_sound q0 resp found.0,
      found.1 ∙ fine.1 ∙ valid.1,
    )

guard_else_ok {ℓ} :
    {A : Type ℓ} (b : Bool) (e : Error) (m : Io A) {tr mid : Trace} {a : A}
    → (if b then fail e else m) tr ≡ (ok a, mid)
    → (b ≡ false) × (m tr ≡ (ok a, mid))
unfolding fail
guard_else_ok false e m h = (refl, h)
guard_else_ok true e m h = absurd (cc (ap (λ x. x.0) h))

-- When `exchange` returns records, the name does not end in `onion`, a query for it was built and
-- asked of the server by way of the resolver's transport, within the server's timeout if that is
-- positive, and the records are the valid answers, at least one, of a response to this query with
-- no error code.
pub exchange-Answered :
    (L : Library) (E : Env) (r : Resolver) (ctx : Context) (name : Bytes) (qtype : ℕ)
    (server : ResolverConfigServer) (tr tr' : Trace) {rrs : List Rr}
    → exchange L E r ctx name qtype server tr ≡ (ok rrs, tr')
    → Answered L E r ctx name qtype server tr tr' rrs
unfolding exchange
exchange-Answered L E r ctx name qtype server tr tr' h =
    let g = guard_else_ok _ _ _ h in
    let a = >>=-eq-ok _ _ tr g.1 in
    let b = >>=-eq-ok _ _ a.middle a.rest in
    let c = >>=-eq-ok _ _ b.middle b.rest in
    let d = >>=-eq-ok _ _ c.middle c.rest in
    let first = lift_ok _ c.first in
    let asks = first_question_ok _ first.0 in
    let good = accept_ok L E c.value b.value d.value d.middle d.rest in
    record {
      limited = a.value;
      query = b.value;
      q0 = c.value;
      others = asks.0;
      resp = d.value;
      started = a.middle;
      built = b.middle;
      not_onion = g.0;
      in_time = limit_time_ok L E ctx server.timeout tr a.first;
      made = b.first;
      asks = asks.1;
      asked = ap (transport L E r a.value server.address b.value) (sym first.1) ∙ d.first ∙ λ i.
          (ok d.value, sym good.3 i);
      is_reply = good.0;
      no_error = good.1;
      answers = good.2;
    }

pub limit_time_total :
    (L : Library) (E : Env) (ctx : Context) (timeout : ℤ) (tr : Trace)
    → (limited : Context) × (mid : Trace) × (limit_time L E ctx timeout tr ≡ (ok limited, mid))
unfolding limit_time pure ask emit ◌>>=◌
limit_time_total L E ctx timeout tr = elim (Bool-cases (pos_part timeout == 0)) [
  | inl z ↦ rw z (ctx, tr, refl)
  | inr z ↦ rw z (_, _, refl)
]

-- If the server's options leave the query without a question, `exchange` panics, for every name
-- that does not end in `onion`.
pub exchange_no_question :
    (L : Library) (E : Env) (r : Resolver) (ctx : Context) (name : Bytes) (qtype : ℕ)
    (server : ResolverConfigServer) (tr : Trace)
    → is_onion L name ≡ false
    → ((at : Trace)
        → (q : Msg) × (mid : Trace) × (new_query_with_server_addr L E server.address name qtype
              server.query_options at
            ≡ (ok q, mid))
          × (q.question ≡ []))
    → (exchange L E r ctx name qtype server tr).0 ≡ panic
unfolding exchange first_question lift ◌>>=◌
exchange_no_question L E r ctx name qtype server tr regular made =
    let (limited, mid, l) = limit_time_total L E ctx server.timeout tr in
    let (q, mid', m, none_left) = made mid in
    rw regular (
      ap (λ x. x.0)
        (>>=-ok (limit_time L E ctx server.timeout) _ l
          ∙ >>=-ok (new_query_with_server_addr L E server.address name qtype server.query_options) _
              m)
      ∙ rw none_left refl)
