-- ===== src/Commands/Reports.antt =====
-- What the commands have printed when they end, and how they end.
use dnscore.Transport.{default_transport}
use dnscore.Prelude.{
  ◌≡◌, ◌≢◌, refl, sym, ap, ◌∙◌, ℕ, Bytes, String, none, List, [], ◌∷◌, arith, ◌⊎◌, inl, inr, ◌++◌,
  codes, some, true,
}
use dnscore.Errors.{Error}
use dnscore.Go.{ok, err, Result-cases, panic}
use dnscore.Dns.{Msg, Library}
use dnscore.ServerAddr.{new_server_addr}
use dnscore.Runtime.{Env, Trace, printed}
use dnscore.Runtime.Io.{lift, emit, check, ◌>>=◌}
use dnscore.Runtime.Invert.{>>=-eq-ok, >>=-ok, lift_ok, check_ok, emit_ok}
use dnscore.Runtime.Runtimex.{
  try1_ok, try1-works, NeverErrs, NeverErrs-try1, NeverErrs-bind, NeverErrs-cases, NeverErrs-emit,
  NeverErrs-lift,
}
use dnscore.Query.{query_option_edns0, new_query_with_server_addr}
use dnscore.Response.{rcode_to_error}
use dnscore.Response.Validate.{IsReply, validate_response_iff}
use dnscore.Dispatch.{query}
use mathlib.Core.List.{Nodup}
use dnscore.Host.{Order, lookup_host}
use dnscore.Host.Merge.{lookup_host_ok}
use dnscore.Commands.Flags.{
  IsType, IsEdns0, dns_type-IsType, max_length-IsEdns0, IsEdns0-max_length, spaced, words-spaced,
}
use dnscore.Commands.{
  TransportFlags, background, dns_type, edns0_flags, max_length, response_text, transport_main,
  lookup_resolver, lookup_main,
}

-- The command `transport` built a query from its flags, printed it, got a response, and printed
-- that last; the response is a reply to the query and stands for no error.
pub record Reported (L : Library) (E : Env) (show : Msg → Bytes) (flags : TransportFlags)
    (before after : Trace) : Type 0 where
  pub qtype : ℕ
  pub size : ℕ
  pub edns0 : ℕ
  pub q : Msg
  pub resp : Msg
  pub built : Trace
  pub answered : Trace
  pub of_type : IsType flags.qtype qtype
  pub of_protocol : IsEdns0 flags.protocol size edns0
  pub query_built :
      new_query_with_server_addr L E
        (new_server_addr flags.protocol flags.server)
        flags.domain
        qtype
        (query_option_edns0 L size edns0 ∷ [])
        before
      ≡ (ok q, built)
  pub response_came :
      query L E
        (record default_transport { logger = true })
        (record { key = 0; deadline = none })
        (new_server_addr flags.protocol flags.server)
        q
        (printed (codes ";; Query:" ++ (10 ∷ []) ++ show q ++ (10 ∷ [])) ∷ built)
      ≡ (ok resp, answered)
  pub reply : IsReply q resp
  pub no_error : rcode_to_error resp ≡ none
  pub shown :
      after
      ≡ printed
          ((10 ∷ []) ++ codes ";; Response:" ++ (10 ∷ []) ++ show resp ++ (10 ∷ []) ++ (10 ∷ []))
        ∷ answered

dns_type-ne-err : (qtype : String) (e : Error) → dns_type qtype ≢ err e
unfolding dns_type
dns_type-ne-err qtype e h = ground arith

module _ (L : Library) (E : Env) (show : Msg → Bytes) (flags : TransportFlags) (tr : Trace) where
  transport_main_ok :
      {u : Unit {0}} {tr' : Trace}
      → transport_main L E show flags tr ≡ (ok u, tr')
      → Reported L E show flags tr tr'
  unfolding transport_main
  transport_main_ok {tr' = tr'} h =
      let a = >>=-eq-ok _ _ tr h in
      let b = >>=-eq-ok _ _ a.middle a.rest in
      let c = >>=-eq-ok _ _ b.middle b.rest in
      let d = >>=-eq-ok _ _ c.middle c.rest in
      let e = >>=-eq-ok _ _ d.middle d.rest in
      let f = >>=-eq-ok _ _ e.middle e.rest in
      let typed = lift_ok _ a.first in
      let valid = check_ok _ (try1_ok _ e.middle f.first) in
      let fine = check_ok _ (try1_ok _ f.middle f.rest) in
      record {
        qtype = a.value;
        size = max_length flags.protocol;
        edns0 = edns0_flags flags.protocol;
        q = b.value;
        resp = d.value;
        built = b.middle;
        answered = d.middle;
        of_type = (dns_type-IsType flags.qtype a.value).0 typed.0;
        of_protocol = max_length-IsEdns0 flags.protocol;
        query_built = rw typed.1 at (try1_ok _ a.middle b.first);
        response_came = rw (emit_ok _ c.first) at (try1_ok _ c.middle d.first);
        reply = (validate_response_iff b.value d.value).0 valid.0;
        no_error = fine.0;
        shown = fine.1 ∙ valid.1 ∙ emit_ok _ e.first;
      }

  Reported-ok :
      {tr' : Trace}
      → Reported L E show flags tr tr'
      → transport_main L E show flags tr ≡ (ok tt, tr')
  unfolding transport_main lift emit check
  Reported-ok r =
      let end = printed (response_text (show r.resp)) ∷ r.answered in
      let valid = (validate_response_iff r.q r.resp).1 r.reply in
      let typed = (dns_type-IsType flags.qtype r.qtype).1 r.of_type in
      let (size, edns0) = IsEdns0-max_length flags.protocol r.size r.edns0 r.of_protocol in
      >>=-ok _ _ (λ i. (typed i, tr))
      ∙ >>=-ok _ _ (try1-works _ (rw (size, edns0) r.query_built))
      ∙ >>=-ok _ _ refl
      ∙ >>=-ok _ _ (try1-works _ r.response_came)
      ∙ >>=-ok _ _ refl
      ∙ >>=-ok _ _ (try1-works _ (ap (λ o. check o end) valid))
      ∙ try1-works _ (ap (λ o. check o end) r.no_error)
      ∙ λ i. (ok tt, sym r.shown i)

  transport_main-NeverErrs : NeverErrs (transport_main L E show flags)
  unfolding transport_main
  transport_main-NeverErrs =
      NeverErrs-bind _ _ (NeverErrs-lift _ (dns_type-ne-err flags.qtype)) λ qtype.
        NeverErrs-bind _ _ (NeverErrs-try1 _) λ q. NeverErrs-bind _ _ (NeverErrs-emit _) λ _.
          NeverErrs-bind _ _ (NeverErrs-try1 _) λ resp.
            NeverErrs-bind _ _ (NeverErrs-emit _)
              λ _. NeverErrs-bind _ _ (NeverErrs-try1 _) λ _. NeverErrs-try1 _

  unsupported_type :
      ((n : ℕ) × (dns_type flags.qtype ≡ ok n)) ⊎ (transport_main L E show flags tr ≡ (panic, tr))
  unfolding transport_main ◌>>=◌ lift
  unsupported_type = elim (Result-cases (dns_type flags.qtype)) [
    | inl typed ↦ inl typed
    | inr (inl (e, h)) ↦ absurd (dns_type-ne-err flags.qtype e h)
    | inr (inr h) ↦ inr (rw h refl)
  ]

  -- The command `transport` ends without a panic exactly where it has built a query of the type and
  -- for the protocol of its flags, printed it, and printed last the response of the transport to it,
  -- which is a reply to the query and stands for no error. In every other case it panics, and never
  -- returns an error; if the type is not one of the four that it supports, nothing has happened.
  pub transport_main_outcome :
      (((tr' : Trace) × (transport_main L E show flags tr ≡ (ok tt, tr'))
          × Reported L E show flags tr tr')
        ⊎ ((transport_main L E show flags tr).0 ≡ panic)
          × ((tr' : Trace) → ¬ Reported L E show flags tr tr'))
      × (((n : ℕ) × (dns_type flags.qtype ≡ ok n))
          ⊎ (transport_main L E show flags tr ≡ (panic, tr)))
  transport_main_outcome = (
    elim (NeverErrs-cases _ tr transport_main-NeverErrs) [
      | inl (tt, h) ↦ inl (_, h, transport_main_ok h)
      | inr h ↦ inr (h, λ tr' reported. absurd (cc (h, ap (λ x. x.0) (Reported-ok reported))))
    ],
    unsupported_type,
  )

-- The command `lookup` found addresses by `LookupHost` and printed them last.
pub record Listed (L : Library) (E : Env) (domain : Bytes) (order : Order) (before after : Trace)
    : Type 0 where
  pub addrs : List Bytes
  pub found : Trace
  pub looked_up :
      lookup_host L E
        (record {
          config = none;
          transport = some (query L E (record default_transport { logger = true }));
        })
        (record { key = 0; deadline = none })
        domain
        order
        before
      ≡ (ok addrs, found)
  pub some_found : addrs ≢ []
  pub distinct : Nodup addrs
  pub shown : after ≡ printed (codes "[" ++ spaced addrs ++ codes "]" ++ (10 ∷ [])) ∷ found

module _ (L : Library) (E : Env) (domain : Bytes) (order : Order) (tr : Trace) where
  lookup_main_ok :
      {u : Unit {0}} {tr' : Trace}
      → lookup_main L E domain order tr ≡ (ok u, tr')
      → Listed L E domain order tr tr'
  unfolding lookup_main
  lookup_main_ok h =
      let a = >>=-eq-ok _ _ tr h in
      let ran = try1_ok _ tr a.first in
      let some_distinct =
        lookup_host_ok L E (lookup_resolver L E) background domain order tr a.middle ran in
      record {
        addrs = a.value;
        found = a.middle;
        looked_up = ran;
        some_found = some_distinct.0;
        distinct = some_distinct.1;
        shown =
            emit_ok _ a.rest
            ∙ ap (λ text. printed (codes "[" ++ text ++ codes "]" ++ (10 ∷ [])) ∷ a.middle)
                (words-spaced a.value);
      }

  Listed-ok :
      {tr' : Trace}
      → Listed L E domain order tr tr'
      → lookup_main L E domain order tr ≡ (ok tt, tr')
  unfolding lookup_main emit
  Listed-ok l = >>=-ok _ _ (try1-works _ l.looked_up) ∙ λ i. (
    ok tt,
    (ap (λ text. printed (codes "[" ++ text ++ codes "]" ++ (10 ∷ [])) ∷ l.found)
            (words-spaced l.addrs)
          ∙ sym l.shown)
        i,
  )

  lookup_main-NeverErrs : NeverErrs (lookup_main L E domain order)
  unfolding lookup_main
  lookup_main-NeverErrs = NeverErrs-bind _ _ (NeverErrs-try1 _) λ addrs. NeverErrs-emit _

  -- The command `lookup` ends without a panic exactly where `LookupHost` of the resolver without a
  -- configuration returns addresses, and it has printed them last; they are some, and no two are the
  -- same. In every other case it panics, and never returns an error.
  pub lookup_main_outcome :
      ((tr' : Trace) × (lookup_main L E domain order tr ≡ (ok tt, tr'))
        × Listed L E domain order tr tr')
      ⊎ ((lookup_main L E domain order tr).0 ≡ panic)
        × ((tr' : Trace) → ¬ Listed L E domain order tr tr')
  lookup_main_outcome = elim (NeverErrs-cases _ tr lookup_main-NeverErrs) [
    | inl (tt, h) ↦ inl (_, h, lookup_main_ok h)
    | inr h ↦ inr (h, λ tr' listed. absurd (cc (h, ap (λ x. x.0) (Listed-ok listed))))
  ]
