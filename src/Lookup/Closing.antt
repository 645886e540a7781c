-- ===== src/Lookup/Closing.antt =====
-- lookup.go: a lookup leaves no connection open where its transport leaves none.
use dnscore.Prelude.{
  ◌≡◌, refl, ap, ℕ, zero, suc, ◌+◌, ◌%◌, ◌^◌, Bytes, Option, none, some, List, [], ◌∷◌, length,
  get_elem?, ◌==◌, All, Option-cases, Bool-cases, inl, inr,
}
use mathlib.Core.Path.{subst}
use dnscore.Prelude.Int.{ℤ}
use dnscore.Errors.{Error}
use dnscore.Go.{Result, ok}
use dnscore.Dns.{Library, Question}
use dnscore.ServerAddr.{ServerAddr}
use dnscore.Runtime.{Env, Context}
use dnscore.Runtime.Only.{Only, Only-fail, Only-pure, Only-lift, only_rules}
use dnscore.Transport.Balance.{
  keeps_conns, Balanced, Balanced-Only, Balanced-if, Balanced-bind, Balanced-lift, Balanced-catch,
}
use dnscore.Query.Build.{new_query_with_server_addr-Only}
use dnscore.ResolverConfig.{ResolverConfigServer, servers}
use dnscore.Resolver.{Resolver, ClosesAt, config, transport}
use dnscore.Lookup.{limit_time, accept, exchange, server_at, exchange_at, lookup_loop, lookup}

some_inj {ℓ} : {A : Type ℓ} (a b : A) → some a ≡ some b → a ≡ b
some_inj {A = A} a b e = ap (or_else a) e
  where
    or_else : A → Option A → A
    or_else d none = d
    or_else d (some c) = c

ok_inj {ℓ} : {A : Type ℓ} (a b : A) → ok a ≡ ok b → a ≡ b
ok_inj {A = A} a b e = ap (or_else a) e
  where
    or_else : A → Result A → A
    or_else d (ok c) = c
    or_else d _ = d

All-get {ℓ κ} :
    {A : Type ℓ} (P : A → Type κ) (xs : List A) (i : ℕ) {x : A}
    → All P xs
    → get_elem? xs i ≡ some x
    → P x
All-get P [] i h e = absurd (cc e)
All-get P (y ∷ ys) zero {x} h e = subst P (some_inj y x e) h.0
All-get P (y ∷ ys) (suc i) h e = All-get P ys i h.1 e

server_at-All {κ} :
    (P : ResolverConfigServer → Type κ) (list : List ResolverConfigServer) (idx : ℕ)
    {server : ResolverConfigServer}
    → All P list
    → server_at list idx ≡ ok server
    → P server
unfolding server_at
server_at-All P list idx safe found = elim (Bool-cases (length list % 2 ^ 32 == 0)) [
  | inl empty ↦ absurd (cc (rw empty at found))
  | inr more ↦ elim (Option-cases (get_elem? list (idx % 2 ^ 32 % (length list % 2 ^ 32)))) [
    | inl out ↦ absurd (cc (rw (more, out) at found))
    | inr (s, at_idx) ↦
        subst P (ok_inj s _ (rw (more, at_idx) at found)) (All-get P list _ safe at_idx)
  ]
]

module _ (L : Library) (E : Env) where
  pub limit_time-Only :
      (ctx : Context) (timeout : ℤ) → Only keeps_conns (limit_time L E ctx timeout)
  unfolding limit_time
  limit_time-Only ctx timeout = search only_rules depth 9

  pub accept-Only :
      (q0 : Question) (query resp : dnscore.Dns.Msg) → Only keeps_conns (accept L E q0 query resp)
  unfolding accept
  accept-Only q0 query resp = search only_rules depth 9

module _ (L : Library) (E : Env) (r : Resolver) (IsSafe : ServerAddr → Type 0)
    (closes_at : ClosesAt IsSafe (transport L E r)) (ctx : Context) (name : Bytes) (qtype : ℕ) where
  exchange-Balanced :
      (server : ResolverConfigServer)
      → IsSafe server.address
      → Balanced (exchange L E r ctx name qtype server)
  unfolding exchange
  exchange-Balanced server safe = Balanced-if _ _ _ (Balanced-Only _ (Only-fail _)) (
      Balanced-bind _ _ (Balanced-Only _ (limit_time-Only L E ctx server.timeout)) (λ ctx'.
        Balanced-bind _ _
          (Balanced-Only _ (
            new_query_with_server_addr-Only L E server.address name qtype server.query_options
              (λ _. refl)))
          (λ query. Balanced-bind _ _ (Balanced-Only _ (Only-lift _)) (λ q0.
            Balanced-bind _ _ (closes_at.closes ctx' server.address query safe)
              (λ resp. Balanced-Only _ (accept-Only L E q0 query resp))))))

  exchange_at-Balanced :
      (list : List ResolverConfigServer) (idx : ℕ)
      → All (λ s. IsSafe s.address) list
      → Balanced (exchange_at L E r ctx name qtype list idx)
  unfolding exchange_at
  exchange_at-Balanced list idx safe = Balanced-lift _ _ λ server found.
      exchange-Balanced server (server_at-All (λ s. IsSafe s.address) list idx safe found)

  lookup_loop-Balanced :
      (list : List ResolverConfigServer) (left idx : ℕ) (last_err : Error)
      → All (λ s. IsSafe s.address) list
      → Balanced (lookup_loop L E r ctx name qtype list left idx last_err)
  unfolding lookup_loop
  lookup_loop-Balanced list zero idx last_err safe = Balanced-Only _ (Only-fail _)
  lookup_loop-Balanced list (suc left) idx last_err safe =
      Balanced-catch _ _ _ (exchange_at-Balanced list idx safe)
        (λ e.
          Balanced-if _ _ _ (Balanced-Only _ (Only-fail e))
            (lookup_loop-Balanced list left (idx + 1) e safe))
        (λ rrs. Balanced-Only _ (Only-pure rrs))

  -- A lookup closes as many connections as it opens, whatever it returns, where its transport does
  -- so for the address of every configured server.
  pub lookup-Balanced :
      All (λ s. IsSafe s.address) (servers L (config r)) → Balanced (lookup L E r ctx name qtype)
  unfolding lookup
  lookup-Balanced safe =
      Balanced-if _ _ _ (lookup_loop-Balanced _ _ _ _ safe) (Balanced-Only _ (Only-fail _))
