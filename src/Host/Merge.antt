-- ===== src/Host/Merge.antt =====
-- `LookupHost`: the addresses and the error that the results of the two lookups give.
use dnscore.Prelude.{
  ◌≡◌, ◌≢◌, refl, sym, ap, ◌∙◌, ◌⊎◌, inl, inr, Bytes, true, false, Option, none, some, List, [],
  ◌∷◌, ◌++◌, Bool-cases, arith,
}
use mathlib.Core.Path.{subst}
use mathlib.Core.List.{Mem, Nodup, not-mem-nil, mem-cons_self}
use dnscore.Errors.{Error, err_no_data, no_data, is_error}
use dnscore.Go.{Result, ok, err, panic}
use dnscore.Dns.{Library}
use dnscore.Runtime.{Env, Trace, Context}
use dnscore.Runtime.Io.{pure}
use dnscore.Resolver.{Resolver}
use dnscore.Host.{
  is_serious, error_or_no_data, host_error, or_host_error, resolver_dedup_and_sort, merge,
  merge_sent, merge_results, lookup_a, lookup_aaaa, Order, a_first, aaaa_first, lookup_host,
}
use dnscore.Host.Distinct.{
  IsDistinct, resolver_dedup_and_sort-IsDistinct, resolver_dedup_and_sort_twice,
}

-- The addresses that a lookup found.
abbrev pub found : Result (List Bytes) → List Bytes
found (ok addrs) = addrs
found (err e) = []
found panic = []

-- A lookup failed with this error, which is not `ErrNoData`.
abbrev pub FailedWith : Result (List Bytes) → Error → Type 0
FailedWith r e = (r ≡ err e) × (is_error e no_data ≡ false)

-- No error but `ErrNoData`.
abbrev pub IsMild : Result (List Bytes) → Type 0
IsMild r = (e : Error) → ¬ FailedWith r e

-- The error of the A lookup comes first, then that of the AAAA lookup, then `ErrNoData`.
abbrev pub HasPriority : Result (List Bytes) → Result (List Bytes) → Error → Type 0
HasPriority a aaaa e =
    FailedWith a e ⊎ (IsMild a × FailedWith aaaa e) ⊎ (IsMild a × IsMild aaaa × (e ≡ err_no_data))

or_host_error_ok :
    (x y : Option Error) (addrs : List Bytes) {out : List Bytes}
    → or_host_error x y addrs ≡ ok out
    → (addrs ≢ []) × (out ≡ resolver_dedup_and_sort addrs)
unfolding or_host_error
or_host_error_ok x y [] h = absurd (cc h)
or_host_error_ok x y (addr ∷ addrs) h = (λ e. absurd (cc e), cc h)

or_host_error_err :
    (x y : Option Error) (addrs : List Bytes) {e : Error}
    → or_host_error x y addrs ≡ err e
    → (addrs ≡ []) × (e ≡ host_error x y)
unfolding or_host_error
or_host_error_err x y [] h = (refl, cc h)
or_host_error_err x y (addr ∷ addrs) h = absurd (cc h)

abbrev error_of : Result (List Bytes) → Option Error
error_of (err e) = some e
error_of _ = none

merge_results-cases :
    (a aaaa : Result (List Bytes))
    → ((a ≡ panic) ⊎ (aaaa ≡ panic)) × (merge_results a aaaa ≡ panic)
      ⊎ (merge_results a aaaa ≡ or_host_error (error_of a) (error_of aaaa) (found a ++ found aaaa))
unfolding merge_results merge_sent merge
merge_results-cases panic aaaa = inl (inl refl, refl)
merge_results-cases (ok x) panic = inl (inr refl, refl)
merge_results-cases (err e) panic = inl (inr refl, refl)
merge_results-cases (ok x) (ok y) = inr refl
merge_results-cases (ok x) (err f) = inr refl
merge_results-cases (err e) (ok y) = inr refl
merge_results-cases (err e) (err f) = inr refl

serious :
    (r : Result (List Bytes))
    → is_serious (error_of r) ≡ true
    → FailedWith r (error_or_no_data (error_of r))
unfolding error_or_no_data
serious (err e) h = (refl, ground arith)
serious (ok x) h = absurd (cc h)
serious panic h = absurd (cc h)

mild : (r : Result (List Bytes)) → is_serious (error_of r) ≡ false → IsMild r
mild (err e) h f (p, q) =
    let same : e ≡ f = cc p in absurd (cc (rw (ap (λ x. is_error x no_data) same ∙ q) at h))
mild (ok x) h f (p, q) = cc p
mild panic h f (p, q) = cc p

host_error-HasPriority :
    (a aaaa : Result (List Bytes)) → HasPriority a aaaa (host_error (error_of a) (error_of aaaa))
unfolding host_error
host_error-HasPriority a aaaa = elim (Bool-cases (is_serious (error_of a))) [
  | inl s ↦ rw s (inl (serious a s))
  | inr m ↦ elim (Bool-cases (is_serious (error_of aaaa))) [
    | inl s ↦ rw (m, s) (inr (inl (mild a m, serious aaaa s)))
    | inr n ↦ rw (m, n) (inr (inr (mild a m, mild aaaa n, refl)))
  ]
]

merge_results_ok :
    (a aaaa : Result (List Bytes)) {out : List Bytes}
    → merge_results a aaaa ≡ ok out
    → (found a ++ found aaaa ≢ []) × IsDistinct (found a ++ found aaaa) out
merge_results_ok a aaaa h = elim (merge_results-cases a aaaa) [
  | inl (_, p) ↦ absurd (cc (p, h))
  | inr m ↦
      let (some_found, out) = or_host_error_ok _ _ _ (sym m ∙ h) in
      (some_found, rw out (resolver_dedup_and_sort-IsDistinct (found a ++ found aaaa)))
]

merge_results_err :
    (a aaaa : Result (List Bytes)) {e : Error}
    → merge_results a aaaa ≡ err e
    → (found a ++ found aaaa ≡ []) × HasPriority a aaaa e
merge_results_err a aaaa h = elim (merge_results-cases a aaaa) [
  | inl (_, p) ↦ absurd (cc (p, h))
  | inr m ↦
      let (none_found, e) = or_host_error_err _ _ _ (sym m ∙ h) in
      (none_found, rw e (host_error-HasPriority a aaaa))
]

or_host_error-cases :
    (x y : Option Error) (addrs : List Bytes)
    → ((out : List Bytes) × (or_host_error x y addrs ≡ ok out))
      ⊎ ((e : Error) × (or_host_error x y addrs ≡ err e))
unfolding or_host_error
or_host_error-cases x y [] = inr (host_error x y, refl)
or_host_error-cases x y (addr ∷ addrs) = inl (resolver_dedup_and_sort (addr ∷ addrs), refl)

-- What the results of the two lookups give in `LookupHost`. Either it panics, as one lookup does; or
-- it returns addresses, where one lookup found an address, and what is returned are the addresses of
-- both lookups, each once, those without a colon before those with one, and in each group those of
-- the A lookup first; or it returns an error, where neither lookup found an address, and the error is
-- that of the A lookup if it is another than `ErrNoData`, or else that of the AAAA lookup if it is
-- another than `ErrNoData`, or else `ErrNoData`.
pub merge_results_outcome :
    (a aaaa : Result (List Bytes))
    → ((a ≡ panic) ⊎ (aaaa ≡ panic)) × (merge_results a aaaa ≡ panic)
      ⊎ ((out : List Bytes) × (merge_results a aaaa ≡ ok out)
          × (found a ++ found aaaa ≢ [])
          × IsDistinct (found a ++ found aaaa) out)
      ⊎ ((e : Error) × (merge_results a aaaa ≡ err e)
          × (found a ++ found aaaa ≡ [])
          × HasPriority a aaaa e)
merge_results_outcome a aaaa = elim (merge_results-cases a aaaa) [
  | inl p ↦ inl p
  | inr m ↦ elim (or_host_error-cases (error_of a) (error_of aaaa) (found a ++ found aaaa)) [
    | inl (out, e) ↦ let h = merge_results_ok a aaaa (m ∙ e) in inr (inl (out, m ∙ e, h.0, h.1))
    | inr (f, e) ↦ let h = merge_results_err a aaaa (m ∙ e) in inr (inr (f, m ∙ e, h.0, h.1))
  ]
]

lookups_literal :
    (L : Library) (E : Env) (r : Resolver) (ctx : Context) (host : Bytes) (tr : Trace) {ip : Bytes}
    → L.parse_ip host ≡ some ip
    → (lookup_a L E r ctx host tr ≡ (ok (host ∷ []), tr))
      × (lookup_aaaa L E r ctx host tr ≡ (ok (host ∷ []), tr))
unfolding lookup_a lookup_aaaa pure
lookups_literal L E r ctx host tr h = (rw h refl, rw h refl)

merge_results_twice :
    (host : Bytes) → merge_results (ok (host ∷ [])) (ok (host ∷ [])) ≡ ok (host ∷ [])
unfolding merge_results merge_sent merge or_host_error
merge_results_twice host = ap ok (resolver_dedup_and_sort_twice host)

-- `LookupHost` of the text of an IP address returns just this text, in either order of the lookups,
-- and leaves the history as it was.
pub lookup_host_literal :
    (L : Library) (E : Env) (r : Resolver) (ctx : Context) (host : Bytes) (order : Order)
    (tr : Trace) {ip : Bytes}
    → L.parse_ip host ≡ some ip
    → lookup_host L E r ctx host order tr ≡ (ok (host ∷ []), tr)
unfolding lookup_host
lookup_host_literal L E r ctx host a_first tr h =
    let (p, q) = lookups_literal L E r ctx host tr h in
    rw p (rw q (λ i. (merge_results_twice host i, tr)))
lookup_host_literal L E r ctx host aaaa_first tr h =
    let (p, q) = lookups_literal L E r ctx host tr h in
    rw q (rw p (λ i. (merge_results_twice host i, tr)))

not_empty : (addrs out : List Bytes) → addrs ≢ [] → IsDistinct addrs out → out ≢ []
not_empty [] out some_found d e = some_found refl
not_empty (a ∷ addrs) out some_found d e =
    not-mem-nil (subst (Mem a) e ((d.same a).1 mem-cons_self))

-- The addresses that `LookupHost` returns are some, and no two are the same.
pub lookup_host_ok :
    (L : Library) (E : Env) (r : Resolver) (ctx : Context) (host : Bytes) (order : Order)
    (tr tr' : Trace) {out : List Bytes}
    → lookup_host L E r ctx host order tr ≡ (ok out, tr')
    → (out ≢ []) × Nodup out
unfolding lookup_host
lookup_host_ok L E r ctx host a_first tr tr' h =
    let m = merge_results_ok _ _ (ap (λ x. x.0) h) in (not_empty _ _ m.0 m.1, (m.1).distinct)
lookup_host_ok L E r ctx host aaaa_first tr tr' h =
    let m = merge_results_ok _ _ (ap (λ x. x.0) h) in (not_empty _ _ m.0 m.1, (m.1).distinct)
