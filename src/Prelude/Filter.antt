-- ===== src/Prelude/Filter.antt =====
-- The Boolean filter against the library's membership and sublists.
use mathlib.Core.Path.{◌≡◌}
use mathlib.Core.Logic.{◌↔◌, inl, inr, ∨₁_prop}
use mathlib.Core.Logic.Or
use mathlib.Core.Bool.{Bool, true, Bool-set}
use mathlib.Core.List.{List, [], ◌∷◌, Mem, Mem-prop, Sublist, mem-cons, not-mem-nil, nil-sublist}
use mathlib.Core.List.Sublist
use dnscore.Prelude.Tests.{Bool-cases}
use dnscore.Prelude.Lists.{filter}

module _ {ℓ} {A : Type ℓ} (p : A → Bool) where
  -- The kept elements stand in the same order.
  pub filter-sublist : (xs : List A) → Sublist (filter p xs) xs
  filter-sublist [] = nil-sublist []
  filter-sublist (x ∷ xs) = elim (Bool-cases (p x)) [
    | inl t ↦ rw t (Sublist.cons-cons x (filter-sublist xs))
    | inr f ↦ rw f (Sublist.cons x (filter-sublist xs))
  ]

  pub mem_of_mem-filter : (xs : List A) {x : A} → Mem x (filter p xs) → p x ≡ true
  mem_of_mem-filter [] m = absurd (not-mem-nil m)
  mem_of_mem-filter (y ∷ xs) {x} m = elim (Bool-cases (p y)) [
    | inl t ↦
        Or.elim (Bool-set (p x) true) (mem-cons.0 (rw t at m)) (λ e. rw e t) (mem_of_mem-filter xs)
    | inr f ↦ mem_of_mem-filter xs (rw f at m)
  ]

  pub mem-filter_of_mem : (xs : List A) {x : A} → Mem x xs → p x ≡ true → Mem x (filter p xs)
  mem-filter_of_mem [] m h = m
  mem-filter_of_mem (y ∷ xs) {x} m h = elim (Bool-cases (p y)) [
    | inl t ↦ rw t (
        mem-cons.1 (Or.elim ∨₁_prop (mem-cons.0 m) Or.inl (λ n. Or.inr (mem-filter_of_mem xs n h))))
    | inr f ↦ rw f (
        Or.elim Mem-prop (mem-cons.0 m) (λ e. absurd (cc (e, f, h)))
          (λ n. mem-filter_of_mem xs n h))
  ]

  -- `filter` keeps exactly the elements that pass.
  pub mem-filter : (xs : List A) (x : A) → Mem x (filter p xs) ↔ (Mem x xs × (p x ≡ true))
  mem-filter xs x = (
    (λ m. (Sublist.subset (filter-sublist xs) x m, mem_of_mem-filter xs m)),
    (λ (m, h). mem-filter_of_mem xs m h),
  )
