-- ===== src/Lookup/Rounds.antt =====
-- lookup.go: the rounds of `lookup` over the servers, against the exchanges that it makes.
use native.Mathlib.Nat.{mod-lt}
use dnscore.Prelude.{
  ◌≡◌, refl, sym, ap, ◌∙◌, ◌⊎◌, inl, inr, ℕ, zero, suc, ◌+◌, ◌<◌, ◌%◌, ◌^◌, Bytes, true, false,
  some, List, [], ◌∷◌, length, get_elem?, get_elem?-total, arith, ltb, ◌==◌, Bool-cases,
  if◌then◌else◌,
}
use dnscore.Prelude.Int.{pos_part}
use dnscore.Errors.{Error, err_no_data, no_name, is_error}
use dnscore.Go.{Result, ok, err, panic}
use dnscore.Dns.{Library, Rr}
use dnscore.Runtime.{Env, Trace, Context}
use dnscore.Runtime.Io.{pure, fail, lift, catch, handle}
use dnscore.Runtime.Invert.{>>=-ok}
use dnscore.ResolverConfig.{ResolverConfigServer, servers}
use dnscore.ResolverConfig.Servers.{length-servers}
use dnscore.Resolver.{Resolver, config}
use dnscore.Lookup.{is_onion, exchange, server_at, exchange_at, lookup_loop, lookup}

-- The server of a round is the one whose place is the number of the round, as a 32-bit number,
-- modulo the number of the servers.
abbrev pub IsTurn : List ResolverConfigServer → ℕ → ResolverConfigServer → Type 0
IsTurn list idx server = get_elem? list (idx % 2 ^ 32 % length list) ≡ some server

-- The outcome of a round that is not tried again: records, an error that says that there is no
-- such name, or a panic.
abbrev pub IsFinal : Result (List Rr) → Type 0
IsFinal (ok _) = Unit
IsFinal (err e) = is_error e no_name ≡ true
IsFinal panic = Unit

-- The error of the last failure, or the one from before.
abbrev pub last_of : Error → List Error → Error
last_of e [] = e
last_of e (f ∷ fs) = last_of f fs

module _ (L : Library) (E : Env) (r : Resolver) (ctx : Context) (name : Bytes) (qtype : ℕ)
    (list : List ResolverConfigServer) where
  -- From the round `idx` on, these errors came of one exchange each with the server whose turn it
  -- was, and none says that there is no such name.
  pub data Failures : ℕ → Trace → List Error → Trace → Type 0 where
    nothing : {idx : ℕ} {before : Trace} → Failures idx before [] before
    failed :
        {idx : ℕ} {before : Trace} (server : ResolverConfigServer) {e : Error} {es : List Error}
        {mid after : Trace}
        → IsTurn list idx server
        → exchange L E r ctx name qtype server before ≡ (err e, mid)
        → is_error e no_name ≡ false
        → Failures (idx + 1) mid es after
        → Failures idx before (e ∷ es) after

  -- What a loop of that many rounds gives: exchanges that fail, and then either no round is left and
  -- the result is the last error, or one more exchange has a final outcome, which is the result.
  pub record Rounds (idx left : ℕ) (last_err : Error) (before : Trace)
      (out : Result (List Rr) × Trace) : Type 0 where
    pub failures : List Error
    pub middle : Trace
    pub failing : Failures idx before failures middle
    pub ending :
        ((length failures ≡ left) × (out ≡ (err (last_of last_err failures), middle)))
        ⊎ ((length failures < left)
            × ((server : ResolverConfigServer) × IsTurn list (idx + length failures) server
                × (exchange L E r ctx name qtype server middle ≡ out)
                × IsFinal out.0))

module _ (list : List ResolverConfigServer) (idx : ℕ) where
  -- There is a server for every round.
  server_at-IsTurn :
      0 < length list
      → length list < 2 ^ 32
      → (server : ResolverConfigServer) × (server_at list idx ≡ ok server) × IsTurn list idx server
  unfolding server_at
  server_at-IsTurn some_server small =
      let whole : length list % 2 ^ 32 ≡ length list = omega arith in
      let positive : (length list == 0) ≡ false = ground arith in
      let (server, turn) =
        get_elem?-total list (idx % 2 ^ 32 % length list) (mod-lt (idx % 2 ^ 32) some_server) in
      (server, rw (whole, positive, turn) refl, turn)

module _ (L : Library) (E : Env) (r : Resolver) (ctx : Context) (name : Bytes) (qtype : ℕ)
    (list : List ResolverConfigServer) (some_server : 0 < length list)
    (small : length list < 2 ^ 32) where
  exchange_at-exchange :
      (idx : ℕ) (tr : Trace)
      → (server : ResolverConfigServer) × IsTurn list idx server
        × (exchange_at L E r ctx name qtype list idx tr ≡ exchange L E r ctx name qtype server tr)
  unfolding exchange_at lift
  exchange_at-exchange idx tr =
      let (server, found, turn) = server_at-IsTurn list idx some_server small in
      (server, turn, >>=-ok (lift (server_at list idx)) _ (λ i. (found i, tr)))

  -- A failure in front of the rounds that follow it.
  again :
      (idx left : ℕ) (last_err e : Error) (tr mid : Trace) (server : ResolverConfigServer)
      {out : Result (List Rr) × Trace}
      → IsTurn list idx server
      → exchange L E r ctx name qtype server tr ≡ (err e, mid)
      → is_error e no_name ≡ false
      → Rounds L E r ctx name qtype list (idx + 1) left e mid out
      → Rounds L E r ctx name qtype list idx (suc left) last_err tr out
  again idx left last_err e tr mid server turn p other rest = record {
    failures = e ∷ rest.failures;
    middle = rest.middle;
    failing = failed server turn p other rest.failing;
    ending = elim rest.ending [
      | inl (all, out) ↦ inl (ap suc all, out)
      | inr (some_left, (next, next_turn, q, final)) ↦
          let place : idx + 1 + length rest.failures ≡ idx + suc (length rest.failures) =
            omega arith in
          inr (omega arith, (next, rw place at next_turn, q, final))
    ];
  }

  module _ (left idx : ℕ) (last_err : Error) (tr : Trace) (server : ResolverConfigServer) where
    -- A round with a final outcome is the last.
    ends :
        {result : Result (List Rr)} {mid : Trace}
        → IsTurn list idx server
        → exchange L E r ctx name qtype server tr ≡ (result, mid)
        → IsFinal result
        → Rounds L E r ctx name qtype list idx (suc left) last_err tr (result, mid)
    ends turn p final = record {
      failures = [];
      middle = tr;
      failing = nothing;
      ending =
          let place : idx + 0 ≡ idx = omega arith in
          inr (omega arith, (server, rw place turn, p, final));
    }

    -- The round, given what the rounds after it do.
    round :
        IsTurn list idx server
        → ((e : Error) (mid : Trace)
            → Rounds L E r ctx name qtype list
                (idx + 1)
                left
                e
                mid
                (lookup_loop L E r ctx name qtype list left (idx + 1) e mid))
        → (result : Result (List Rr)) (mid : Trace)
        → exchange L E r ctx name qtype server tr ≡ (result, mid)
        → Rounds L E r ctx name qtype list idx (suc left) last_err tr (
            handle
              (λ e.
                if is_error e no_name
                then fail e
                else lookup_loop L E r ctx name qtype list left (idx + 1) e)
              pure
              (result, mid))
    unfolding pure fail handle
    round turn rest (ok rrs) mid p = ends turn p tt
    round turn rest panic mid p = ends turn p tt
    round turn rest (err e) mid p = elim (Bool-cases (is_error e no_name)) [
      | inl gone ↦ rw gone (ends turn p gone)
      | inr other ↦ rw other (again idx left last_err e tr mid server turn p other (rest e mid))
    ]

  lookup_loop-Rounds :
      (left idx : ℕ) (last_err : Error) (tr : Trace)
      → Rounds L E r ctx name qtype list idx left last_err tr
          (lookup_loop L E r ctx name qtype list left idx last_err tr)
  unfolding lookup_loop catch fail
  lookup_loop-Rounds zero idx last_err tr = record {
    failures = [];
    middle = tr;
    failing = nothing;
    ending = inl (refl, refl);
  }
  lookup_loop-Rounds (suc left) idx last_err tr =
      let (server, turn, same) = exchange_at-exchange idx tr in
      let m = exchange_at L E r ctx name qtype list idx tr in
      round left idx last_err tr server turn (lookup_loop-Rounds left (idx + 1)) m.0 m.1 (sym same)

-- With fewer than 2^32 servers, `lookup` makes at most as many exchanges as the configuration has
-- attempts, with the servers in turn. The exchanges before the last one fail, with errors other
-- than `ErrNoName`; the result is that of the first exchange that returns records or `ErrNoName`,
-- or panics; if there is none, every attempt was made and the result is the last error, which is
-- `ErrNoData` if there was no attempt.
pub lookup-Rounds :
    (L : Library) (E : Env) (r : Resolver) (ctx : Context) (name : Bytes) (qtype : ℕ) (tr : Trace)
    → length (servers L (config r)) < 2 ^ 32
    → Rounds L E r ctx name qtype
        (servers L (config r))
        0
        (pos_part (config r).attempts)
        err_no_data
        tr
        (lookup L E r ctx name qtype tr)
unfolding lookup
lookup-Rounds L E r ctx name qtype tr small =
    let some_server = length-servers L (config r) in
    let tested : ltb 0 (length (servers L (config r))) ≡ true = ground arith in
    rw tested (
      lookup_loop-Rounds L E r ctx name qtype (servers L (config r)) some_server small
        (pos_part (config r).attempts) 0 err_no_data tr)

module _ (L : Library) (E : Env) (r : Resolver) (ctx : Context) (name : Bytes) (qtype : ℕ)
    (onion : is_onion L name ≡ true) where
  exchange_onion :
      (server : ResolverConfigServer) (tr : Trace)
      → exchange L E r ctx name qtype server tr ≡ (err err_no_data, tr)
  unfolding exchange fail
  exchange_onion server tr = rw onion refl

  Failures-onion :
      {list : List ResolverConfigServer} {idx : ℕ} {before after : Trace} {es : List Error}
      → Failures L E r ctx name qtype list idx before es after
      → (after ≡ before) × (last_of err_no_data es ≡ err_no_data)
  Failures-onion nothing = (refl, refl)
  Failures-onion {before = before} (failed server {e = e} {es = es} turn p other rest) =
      let q = sym p ∙ exchange_onion server before in
      let same : e ≡ err_no_data = cc (ap (λ x. x.0) q) in
      let later = Failures-onion rest in
      (later.0 ∙ ap (λ x. x.1) q, ap (λ x. last_of x es) same ∙ later.1)

-- A lookup of a name whose last label is `onion` returns `ErrNoData` and leaves the history as it
-- was: nothing is sent and the clock is not read. This holds with fewer than 2^32 servers.
pub lookup_onion :
    (L : Library) (E : Env) (r : Resolver) (ctx : Context) (name : Bytes) (qtype : ℕ) (tr : Trace)
    → is_onion L name ≡ true
    → length (servers L (config r)) < 2 ^ 32
    → lookup L E r ctx name qtype tr ≡ (err err_no_data, tr)
lookup_onion L E r ctx name qtype tr onion small =
    let run = lookup-Rounds L E r ctx name qtype tr small in
    let nothing_sent = Failures-onion L E r ctx name qtype onion run.failing in
    elim run.ending [
      | inl (all, out) ↦ out ∙ λ i. (err (nothing_sent.1 i), nothing_sent.0 i)
      | inr (some_left, (server, turn, p, final)) ↦
          let q = sym p ∙ exchange_onion L E r ctx name qtype onion server run.middle in
          q ∙ λ i. (err err_no_data, nothing_sent.0 i)
    ]
