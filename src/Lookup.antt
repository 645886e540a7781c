-- ===== src/Lookup.antt =====
-- lookup.go: a lookup of one type of records, over the configured servers in turn.
pub mod Exchange
pub mod Rounds
pub mod Closing
pub mod Opening
pub mod Answering
mod Tests
use dnscore.Prelude.{
  ℕ, zero, suc, ◌+◌, ◌%◌, ◌^◌, Bytes, Bool, true, false, Option, none, some, List, [], ◌∷◌, length,
  get_elem?, ltb, ◌==◌, codes, bytes_eq, if◌then◌else◌,
}
use dnscore.Prelude.Int.{ℤ, pos_part}
use dnscore.Errors.{Error, err_no_data, no_name, is_error}
use dnscore.Go.{Result, ok, err, panic}
use dnscore.Dns.{Library, Msg, Question, Rr}
use dnscore.Runtime.{Env, Context, clock_read, with_deadline}
use dnscore.Runtime.Io.{Io, pure, fail, lift, ask, check, emit, catch, ◌>>=◌, ◌>>◌}
use dnscore.Query.{new_query_with_server_addr}
use dnscore.Response.{validate_response, rcode_to_error, valid_answers}
use dnscore.ResolverConfig.{ResolverConfigServer, servers}
use dnscore.Resolver.{Resolver, config, transport}

last_is_onion : List Bytes → Bool
last_is_onion [] = false
last_is_onion (label ∷ []) = bytes_eq label (codes "onion")
last_is_onion (_ ∷ label ∷ labels) = last_is_onion (label ∷ labels)

-- The last label of the canonical name is `onion`.
unfoldable pub is_onion : Library → Bytes → Bool
unfolding last_is_onion
is_onion L name = last_is_onion (L.split_domain_name (L.canonical_name name))

-- `query.Question[0]`
first_question : List Question → Result Question
first_question [] = panic
first_question (q ∷ _) = ok q

-- `servers[uint32(idx)%uint32(len(servers))]`
server_at : List ResolverConfigServer → ℕ → Result ResolverConfigServer
server_at list idx =
    if length list % 2 ^ 32 == 0
    then panic
    else found (get_elem? list (idx % 2 ^ 32 % (length list % 2 ^ 32)))
  where
    found : Option ResolverConfigServer → Result ResolverConfigServer
    found none = panic
    found (some s) = ok s

module _ (L : Library) (E : Env) where
  -- `context.WithTimeout` if the timeout is positive. Its `cancel` runs when all is over.
  pub limit_time : Context → ℤ → Io Context
  limit_time ctx timeout = if pos_part timeout == 0 then pure ctx else do
    now ← ask E.now
    emit (clock_read now)
    pure (with_deadline ctx (now + pos_part timeout))

  -- The answers from a response to the query.
  pub accept : Question → Msg → Msg → Io (List Rr)
  accept q0 query resp = do
    check (validate_response query resp)
    check (rcode_to_error resp)
    lift (valid_answers q0 resp)

  pub exchange : Resolver → Context → Bytes → ℕ → ResolverConfigServer → Io (List Rr)
  unfolding limit_time first_question accept
  exchange r ctx name qtype server = if is_onion L name then fail err_no_data else do
    ctx ← limit_time ctx server.timeout
    query ← new_query_with_server_addr L E server.address name qtype server.query_options
    q0 ← lift (first_question query.question)
    resp ← transport L E r ctx server.address query
    accept q0 query resp

  -- One round: choose a server and exchange with it.
  exchange_at : Resolver → Context → Bytes → ℕ → List ResolverConfigServer → ℕ → Io (List Rr)
  unfolding server_at exchange
  exchange_at r ctx name qtype list idx = do
    server ← lift (server_at list idx)
    exchange r ctx name qtype server

  -- The rounds that are left, from the round `idx` on.
  lookup_loop :
      Resolver → Context → Bytes → ℕ → List ResolverConfigServer → ℕ → ℕ → Error → Io (List Rr)
  unfolding exchange_at
  lookup_loop r ctx name qtype list zero idx last_err = fail last_err
  lookup_loop r ctx name qtype list (suc left) idx last_err =
      catch (exchange_at r ctx name qtype list idx)
        (λ e.
          if is_error e no_name then fail e else lookup_loop r ctx name qtype list left (idx + 1) e)
        pure

  pub lookup : Resolver → Context → Bytes → ℕ → Io (List Rr)
  unfolding lookup_loop
  lookup r ctx name qtype =
      let list = servers L (config r) in
      if ltb 0 (length list)
      then lookup_loop r ctx name qtype list (pos_part (config r).attempts) 0 err_no_data
      else fail err_no_data
