-- ===== src/Host/Distinct.antt =====
-- `resolverDedupAndSort`: each address once, those without a colon first.
use mathlib.Core.List.{
  Sublist, Nodup, Nodup-nil, Nodup-cons, Nodup-append, Mem, Mem-prop, mem-cons, mem-append,
  not-mem-nil, nil-sublist,
}
use mathlib.Core.List.Sublist
use mathlib.Core.List.Nodup
use mathlib.Core.Logic.{∨₁_prop}
use mathlib.Core.Logic.Or
use mathlib.Core.Bool.{Bool-set}
use dnscore.Prelude.{
  ◌≡◌, ◌≢◌, ◌↔◌, refl, sym, ap, ◌∙◌, inl, inr, Bytes, true, false, not, Bool, List, [], ◌∷◌, ◌++◌,
  filter, filter-sublist, mem-filter, bytes_eq, bytes_eq_iff, Bool-cases, append_assoc, append-nil,
  if◌then◌else◌,
}
use dnscore.Host.{has_colon, is_seen, Dedup, dedup_addr, dedup_loop, resolver_dedup_and_sort}

-- Each address once, where it occurs first.
abbrev pub firsts : List Bytes → List Bytes
firsts [] = []
firsts (a ∷ addrs) = a ∷ filter (λ x. not (bytes_eq x a)) (firsts addrs)

-- What `resolverDedupAndSort` promises: the addresses without a colon and then those with one, each
-- group in the order of the first occurrences in the list, no address twice, and the same addresses
-- as the list.
pub record IsDistinct (addrs out : List Bytes) : Type 0 where
  pub in_order :
      out ≡ filter (λ a. not (has_colon a)) (firsts addrs) ++ filter has_colon (firsts addrs)
  pub distinct : Nodup out
  pub same : (a : Bytes) → Mem a out ↔ Mem a addrs

-- The first occurrences, without the addresses seen before.
fresh : List Bytes → List Bytes → List Bytes
fresh seen [] = []
fresh seen (a ∷ addrs) =
    let rest = fresh (a ∷ seen) addrs in
    let skip = fresh seen addrs in if is_seen seen a then skip else a ∷ rest

abbrev plain_of : List Bytes → List Bytes
plain_of = filter (λ a. not (has_colon a))

abbrev colons_of : List Bytes → List Bytes
colons_of = filter has_colon

-- What one round does.
abbrev add_plain : Dedup → Bytes → Dedup
add_plain d a = record d { uniq = a ∷ d.uniq; dedup_a = d.dedup_a ++ a ∷ [] }

abbrev add_colon : Dedup → Bytes → Dedup
add_colon d a = record d { uniq = a ∷ d.uniq; dedup_aaaa = d.dedup_aaaa ++ a ∷ [] }

module _ (d : Dedup) (a : Bytes) where
  dedup_addr_seen : is_seen d.uniq a ≡ true → dedup_addr d a ≡ d
  unfolding dedup_addr
  dedup_addr_seen old = rw old refl

  dedup_addr_colon : is_seen d.uniq a ≡ false → has_colon a ≡ true → dedup_addr d a ≡ add_colon d a
  unfolding dedup_addr
  dedup_addr_colon new c = rw (new, c) refl

  dedup_addr_plain : is_seen d.uniq a ≡ false → has_colon a ≡ false → dedup_addr d a ≡ add_plain d a
  unfolding dedup_addr
  dedup_addr_plain new c = rw (new, c) refl

-- The loop appends the fresh addresses to the two groups.
dedup_loop-fresh :
    (d : Dedup) (addrs : List Bytes)
    → ((dedup_loop d addrs).dedup_a ≡ d.dedup_a ++ plain_of (fresh d.uniq addrs))
      × ((dedup_loop d addrs).dedup_aaaa ≡ d.dedup_aaaa ++ colons_of (fresh d.uniq addrs))
unfolding dedup_loop fresh
dedup_loop-fresh d [] = (sym (append-nil d.dedup_a), sym (append-nil d.dedup_aaaa))
dedup_loop-fresh d (a ∷ addrs) = elim (Bool-cases (is_seen d.uniq a)) [
  | inl old ↦
      let go : dedup_loop d (a ∷ addrs) ≡ dedup_loop d addrs =
        ap (λ x. dedup_loop x addrs) (dedup_addr_seen d a old) in
      rw (go, old) (dedup_loop-fresh d addrs)
  | inr new ↦ elim (Bool-cases (has_colon a)) [
    | inl c ↦
        let go : dedup_loop d (a ∷ addrs) ≡ dedup_loop (add_colon d a) addrs =
          ap (λ x. dedup_loop x addrs) (dedup_addr_colon d a new c) in
        let rest = dedup_loop-fresh (add_colon d a) addrs in
        rw (go, new, c) (rest.0, rest.1 ∙ append_assoc d.dedup_aaaa (a ∷ []) _)
    | inr c ↦
        let go : dedup_loop d (a ∷ addrs) ≡ dedup_loop (add_plain d a) addrs =
          ap (λ x. dedup_loop x addrs) (dedup_addr_plain d a new c) in
        let rest = dedup_loop-fresh (add_plain d a) addrs in
        rw (go, new, c) (rest.0 ∙ append_assoc d.dedup_a (a ∷ []) _, rest.1)
  ]
]

filter-filter :
    (p q r : Bytes → Bool)
    → ((x : Bytes) → r x ≡ (if q x then p x else false))
    → (xs : List Bytes) → filter p (filter q xs) ≡ filter r xs
filter-filter p q r h [] = refl
filter-filter p q r h (x ∷ xs) = elim (Bool-cases (q x)) [
  | inr f ↦ rw (f, h x, f) (filter-filter p q r h xs)
  | inl t ↦ elim (Bool-cases (p x)) [
    | inl u ↦ rw (t, u, h x, t, u) (ap (λ l. x ∷ l) (filter-filter p q r h xs))
    | inr u ↦ rw (t, u, h x, t, u) (filter-filter p q r h xs)
  ]
]

filter-true : (p : Bytes → Bool) → ((x : Bytes) → p x ≡ true) → (xs : List Bytes) → filter p xs ≡ xs
filter-true p h [] = refl
filter-true p h (x ∷ xs) = rw (h x) (ap (λ l. x ∷ l) (filter-true p h xs))

-- An address that was seen is no other than one that was seen.
skips_seen :
    (seen : List Bytes) (a : Bytes)
    → is_seen seen a ≡ true
    → (x : Bytes)
    → not (is_seen seen x) ≡ (if not (bytes_eq x a) then not (is_seen seen x) else false)
skips_seen seen a old x = elim (Bool-cases (bytes_eq x a)) [
  | inl e ↦ rw e (ap (λ b. not (is_seen seen b)) ((bytes_eq_iff x a).0 e) ∙ ap not old)
  | inr f ↦ rw f refl
]

skips_new :
    (seen : List Bytes) (a x : Bytes)
    → not (is_seen (a ∷ seen) x) ≡ (if not (bytes_eq x a) then not (is_seen seen x) else false)
unfolding is_seen
skips_new seen a x = elim (Bool-cases (bytes_eq x a)) [ inl e ↦ rw e refl | inr f ↦ rw f refl ]

fresh-firsts :
    (seen addrs : List Bytes) → fresh seen addrs ≡ filter (λ x. not (is_seen seen x)) (firsts addrs)
unfolding fresh
fresh-firsts seen [] = refl
fresh-firsts seen (a ∷ addrs) = elim (Bool-cases (is_seen seen a)) [
  | inl old ↦
      rw old
        (fresh-firsts seen addrs ∙ sym (filter-filter _ _ _ (skips_seen seen a old) (firsts addrs)))
  | inr new ↦ rw new (
      ap (λ l. a ∷ l)
        (fresh-firsts (a ∷ seen) addrs
          ∙ sym (filter-filter _ _ _ (skips_new seen a) (firsts addrs))))
]

fresh-sublist : (seen addrs : List Bytes) → Sublist (fresh seen addrs) addrs
unfolding fresh
fresh-sublist seen [] = nil-sublist []
fresh-sublist seen (a ∷ addrs) = elim (Bool-cases (is_seen seen a)) [
  | inl old ↦ rw old (Sublist.cons a (fresh-sublist seen addrs))
  | inr new ↦ rw new (Sublist.cons-cons a (fresh-sublist (a ∷ seen) addrs))
]

-- A list that is seen with one address more.
is_seen-cons :
    (seen : List Bytes) (a x : Bytes)
    → is_seen (a ∷ seen) x ≡ false
    → (x ≢ a) × (is_seen seen x ≡ false)
unfolding is_seen
is_seen-cons seen a x h = elim (Bool-cases (bytes_eq x a)) [
  | inl e ↦ absurd (cc (rw e at h))
  | inr f ↦ (λ e. absurd (cc (f, (bytes_eq_iff x a).1 e)), rw f at h)
]

cons-is_seen :
    (seen : List Bytes) (a x : Bytes)
    → x ≢ a
    → is_seen seen x ≡ false
    → is_seen (a ∷ seen) x ≡ false
unfolding is_seen
cons-is_seen seen a x ne h = elim (Bool-cases (bytes_eq x a)) [
  | inl e ↦ absurd (ne ((bytes_eq_iff x a).0 e))
  | inr f ↦ rw (f, h) refl
]

fresh-unseen :
    (seen addrs : List Bytes) {x : Bytes} → Mem x (fresh seen addrs) → is_seen seen x ≡ false
unfolding fresh
fresh-unseen seen [] m = absurd (not-mem-nil m)
fresh-unseen seen (a ∷ addrs) {x} m = elim (Bool-cases (is_seen seen a)) [
  | inl old ↦ fresh-unseen seen addrs (rw old at m)
  | inr new ↦
      Or.elim (Bool-set (is_seen seen x) false) (mem-cons.0 (rw new at m)) (λ e. rw e new)
        (λ n. (is_seen-cons seen a x (fresh-unseen (a ∷ seen) addrs n)).1)
]

fresh-complete :
    (seen addrs : List Bytes) {x : Bytes}
    → Mem x addrs
    → is_seen seen x ≡ false
    → Mem x (fresh seen addrs)
unfolding fresh
fresh-complete seen [] m h = m
fresh-complete seen (a ∷ addrs) {x} m h = elim (Bool-cases (is_seen seen a)) [
  | inl old ↦ rw old (
      Or.elim Mem-prop (mem-cons.0 m) (λ e. absurd (cc (ap (is_seen seen) e, old, h)))
        (λ n. fresh-complete seen addrs n h))
  | inr new ↦ rw new (elim (Bool-cases (bytes_eq x a)) [
    | inl e ↦ mem-cons.1 (Or.inl ((bytes_eq_iff x a).0 e))
    | inr f ↦
        let ne : x ≢ a = λ e. absurd (cc (f, (bytes_eq_iff x a).1 e)) in
        mem-cons.1 (
          Or.elim ∨₁_prop (mem-cons.0 m) Or.inl
            (λ n. Or.inr (fresh-complete (a ∷ seen) addrs n (cons-is_seen seen a x ne h))))
  ])
]

fresh-Nodup : (seen addrs : List Bytes) → Nodup (fresh seen addrs)
unfolding fresh
fresh-Nodup seen [] = Nodup-nil
fresh-Nodup seen (a ∷ addrs) = elim (Bool-cases (is_seen seen a)) [
  | inl old ↦ rw old (fresh-Nodup seen addrs)
  | inr new ↦ rw new (
      Nodup-cons.1 (
        (λ m. (is_seen-cons seen a a (fresh-unseen (a ∷ seen) addrs m)).0 refl),
        fresh-Nodup (a ∷ seen) addrs,
      ))
]

-- The two groups of a list have together its elements.
mem-groups : (xs : List Bytes) (x : Bytes) → Mem x (plain_of xs ++ colons_of xs) ↔ Mem x xs
mem-groups xs x = (
  (λ m.
      Or.elim Mem-prop ((mem-append {s = plain_of xs} {t = colons_of xs}).0 m)
        (λ p. ((mem-filter (λ a. not (has_colon a)) xs x).0 p).0)
        (λ c. ((mem-filter has_colon xs x).0 c).0)),
  (λ m. elim (Bool-cases (has_colon x)) [
    | inl c ↦ mem-append.1 (Or.inr ((mem-filter _ xs x).1 (m, c)))
    | inr c ↦ mem-append.1 (Or.inl ((mem-filter _ xs x).1 (m, rw c refl)))
  ]),
)

Nodup-groups : (xs : List Bytes) → Nodup xs → Nodup (plain_of xs ++ colons_of xs)
Nodup-groups xs h = Nodup-append.1 (
  Nodup.sublist (filter-sublist _ xs) h,
  Nodup.sublist (filter-sublist _ xs) h,
  λ a p c. absurd (
      cc (
        rw ((mem-filter has_colon xs a).0 c).1 at
          ((mem-filter (λ a. not (has_colon a)) xs a).0 p).1)),
)

-- `resolverDedupAndSort` keeps each address once: first the addresses without a colon and then those
-- with one, each group in the order of the first occurrences.
pub resolver_dedup_and_sort-IsDistinct :
    (addrs : List Bytes) → IsDistinct addrs (resolver_dedup_and_sort addrs)
unfolding resolver_dedup_and_sort is_seen
resolver_dedup_and_sort-IsDistinct addrs =
    let kept = fresh [] addrs in
    let same : kept ≡ firsts addrs =
      fresh-firsts [] addrs ∙ filter-true _ (λ x. refl) (firsts addrs) in
    let d = dedup_loop-fresh (record { uniq = []; dedup_a = []; dedup_aaaa = [] }) addrs in
    let out : resolver_dedup_and_sort addrs ≡ plain_of kept ++ colons_of kept =
      ap (λ (x, y). x ++ y) (λ i. (d.0 i, d.1 i)) in
    record {
      in_order = out ∙ ap (λ l. plain_of l ++ colons_of l) same;
      distinct = rw out (Nodup-groups kept (fresh-Nodup [] addrs));
      same = λ a. rw out (
        (λ m. Sublist.subset (fresh-sublist [] addrs) a ((mem-groups kept a).0 m)),
        (λ m. (mem-groups kept a).1 (fresh-complete [] addrs m refl)),
      );
    }

-- An address that is given twice is kept once.
pub resolver_dedup_and_sort_twice : (a : Bytes) → resolver_dedup_and_sort (a ∷ a ∷ []) ≡ a ∷ []
unfolding resolver_dedup_and_sort is_seen
resolver_dedup_and_sort_twice a =
    let d = dedup_loop-fresh (record { uniq = []; dedup_a = []; dedup_aaaa = [] }) (a ∷ a ∷ []) in
    let once : fresh [] (a ∷ a ∷ []) ≡ a ∷ [] =
      unfold fresh in rw ((bytes_eq_iff a a).1 refl) refl in
    ap (λ (x, y). x ++ y) (λ i. (d.0 i, d.1 i))
    ∙ ap (λ xs. plain_of xs ++ colons_of xs) once
    ∙ elim (Bool-cases (has_colon a)) [ inl c ↦ rw c refl | inr c ↦ rw c refl ]
