-- ===== src/Host.antt =====
-- resolver.go: the lookups of addresses. `lookup_host` waits for two lookups that run side by
-- side; the order in which they reach the world is that of a schedule.
pub mod Distinct
pub mod Merge
pub mod Closing
pub mod Opening
pub mod Answering
mod Tests
use dnscore.Prelude.{
  ℕ, Bytes, Bool, true, false, Option, none, some, List, [], ◌∷◌, ◌++◌, any, bytes_eq, ◌==◌, not,
  if◌then◌else◌,
}
use dnscore.Errors.{Error, err_no_data, no_data, is_error}
use dnscore.Go.{Result, ok, err, panic}
use dnscore.Dns.{Library, type_a, type_aaaa}
use dnscore.Runtime.{Env, Context}
use dnscore.Runtime.Io.{Io, pure, lift, ◌>>=◌}
use dnscore.Answer.{decode_lookup_a, decode_lookup_aaaa}
use dnscore.Resolver.{Resolver}
use dnscore.Lookup.{lookup}

-- `strings.Contains(addr, ":")`
unfoldable pub has_colon : Bytes → Bool
has_colon addr = any (λ c. c == b':') addr

unfoldable pub is_seen : List Bytes → Bytes → Bool
is_seen uniq addr = any (bytes_eq addr) uniq

-- The variables of the loop of `resolverDedupAndSort`; the map is the list of its keys.
record Dedup : Type 0 where
  uniq : List Bytes
  dedup_a : List Bytes
  dedup_aaaa : List Bytes

dedup_addr : Dedup → Bytes → Dedup
dedup_addr d addr =
    if is_seen d.uniq addr
    then d
    else if has_colon addr
    then record d { uniq = addr ∷ d.uniq; dedup_aaaa = d.dedup_aaaa ++ addr ∷ [] }
    else record d { uniq = addr ∷ d.uniq; dedup_a = d.dedup_a ++ addr ∷ [] }

dedup_loop : Dedup → List Bytes → Dedup
unfolding dedup_addr
dedup_loop d [] = d
dedup_loop d (addr ∷ addrs) = dedup_loop (dedup_addr d addr) addrs

pub resolver_dedup_and_sort : List Bytes → List Bytes
unfolding dedup_loop
resolver_dedup_and_sort addrs =
    let d = dedup_loop (record { uniq = []; dedup_a = []; dedup_aaaa = [] }) addrs in
    d.dedup_a ++ d.dedup_aaaa

-- What a goroutine sends to its channel.
pub record ResolverLookupResult : Type 0 where
  pub addrs : List Bytes
  pub err : Option Error

-- `err != nil && !errors.Is(err, ErrNoData)`
abbrev pub is_serious : Option Error → Bool
is_serious none = false
is_serious (some e) = not (is_error e no_data)

error_or_no_data : Option Error → Error
error_or_no_data none = err_no_data
error_or_no_data (some e) = e

-- The error where there are no addresses.
host_error : Option Error → Option Error → Error
unfolding error_or_no_data
host_error a_err aaaa_err =
    if is_serious a_err
    then error_or_no_data a_err
    else if is_serious aaaa_err
    then error_or_no_data aaaa_err
    else err_no_data

-- `len(addrs) < 1`
or_host_error : Option Error → Option Error → List Bytes → Result (List Bytes)
unfolding host_error resolver_dedup_and_sort
or_host_error a_err aaaa_err [] = err (host_error a_err aaaa_err)
or_host_error a_err aaaa_err (addr ∷ addrs) = ok (resolver_dedup_and_sort (addr ∷ addrs))

-- `LookupHost` once both results are there.
pub merge : ResolverLookupResult → ResolverLookupResult → Result (List Bytes)
unfolding or_host_error
merge ares aaaares = or_host_error ares.err aaaares.err (ares.addrs ++ aaaares.addrs)

-- What a goroutine sends: a panic in it ends the program.
abbrev pub lookup_result : Result (List Bytes) → Option ResolverLookupResult
lookup_result (ok addrs) = some (record { addrs = addrs; err = none })
lookup_result (err e) = some (record { addrs = []; err = some e })
lookup_result panic = none

merge_sent : Option ResolverLookupResult → Option ResolverLookupResult → Result (List Bytes)
unfolding merge
merge_sent (some ares) (some aaaares) = merge ares aaaares
merge_sent _ _ = panic

pub merge_results : Result (List Bytes) → Result (List Bytes) → Result (List Bytes)
unfolding merge_sent
merge_results a aaaa = merge_sent (lookup_result a) (lookup_result aaaa)

module _ (L : Library) (E : Env) (r : Resolver) (ctx : Context) (host : Bytes) where
  -- `net.ParseIP(host) != nil`
  is_ip : Option Bytes → Bool
  is_ip none = false
  is_ip (some _) = true

  pub lookup_a : Io (List Bytes)
  unfolding is_ip
  lookup_a =
      if is_ip (L.parse_ip host)
      then pure (host ∷ [])
      else do rrs ← lookup L E r ctx host type_a; d ← lift (decode_lookup_a L rrs); pure d.addrs

  pub lookup_aaaa : Io (List Bytes)
  unfolding is_ip
  lookup_aaaa = if is_ip (L.parse_ip host) then pure (host ∷ []) else do
    rrs ← lookup L E r ctx host type_aaaa
    d ← lift (decode_lookup_aaaa L rrs)
    pure d.addrs

-- Which goroutine reaches the world first.
pub data Order : Type 0 where
  a_first : Order
  aaaa_first : Order

module _ (L : Library) (E : Env) (r : Resolver) (ctx : Context) (host : Bytes) where
  pub lookup_host : Order → Io (List Bytes)
  unfolding lookup_a lookup_aaaa merge_results
  lookup_host a_first tr =
      let a = lookup_a L E r ctx host tr in
      let aaaa = lookup_aaaa L E r ctx host a.1 in (merge_results a.0 aaaa.0, aaaa.1)
  lookup_host aaaa_first tr =
      let aaaa = lookup_aaaa L E r ctx host tr in
      let a = lookup_a L E r ctx host aaaa.1 in (merge_results a.0 aaaa.0, a.1)
