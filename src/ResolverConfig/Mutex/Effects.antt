-- ===== src/ResolverConfig/Mutex/Effects.antt =====
-- resolverconfig.go: what one step does to the configuration and to the calls that took effect.
use dnscore.Prelude.{◌≡◌, refl, sym, ap, ◌∙◌, Option, none, some, List, [], ◌∷◌, ◌++◌}
use mathlib.Core.Path.{subst}
use mathlib.Core.List.{Perm, perm_middle}
use mathlib.Core.List.Perm
use dnscore.Dns.{Library}
use dnscore.ResolverConfig.{ResolverConfig, add_server, new_resolver_config_server}
use dnscore.ResolverConfig.Mutex.{
  Call, Answer, Worker, calling, inside, appending, unlocking, returned, Shared, Act, lock, rlock,
  assign_attempts, read_list, assign_list, read_attempts, copy_list, unlock, runlock, log_label,
  perform, taken_effect, adds_server, nothing,
}
use dnscore.ResolverConfig.Mutex.Counts.{IsCurrent, All-split}
use dnscore.ResolverConfig.Mutex.Consistency.{IsConsistent, at}

module _ (L : Library) where
  -- A labelled step does to the configuration what the call does alone, and any other step nothing.
  abbrev pub Effect : ResolverConfig → Option (Call × Answer) → ResolverConfig → Type 0
  Effect c none c' = c' ≡ c
  Effect c (some (call, answer)) c' = perform L call c ≡ (c', answer)

module _ (L : Library) (before after : List Worker) where
  pub Act-Effect :
      {s s' : Shared} {w w' : Worker} {label : Option (Call × Answer)}
      → Act L s w label s' w'
      → IsConsistent (at s before w after)
      → Effect L s.config label s'.config
  unfolding add_server
  Act-Effect (lock c writes free none_in) v = refl
  Act-Effect (rlock c reads free) v = refl
  Act-Effect (assign_attempts n) v = refl
  Act-Effect (read_list a os) v = refl
  Act-Effect (assign_list {s} a os list) v =
      let same : list ≡ s.config.list =
        (All-split (IsCurrent s.config.list) before (appending a os list) after v.current).1 in
      λ i.
        (record (s.config) { list = sym same i ++ new_resolver_config_server L a os ∷ [] }, nothing)
  Act-Effect read_attempts v = refl
  Act-Effect copy_list v = refl
  Act-Effect (unlock c r writes) v = refl
  Act-Effect (runlock c r reads) v = refl

taken_effect-append :
    (xs ys : List Worker) → taken_effect (xs ++ ys) ≡ taken_effect xs ++ taken_effect ys
taken_effect-append [] ys = refl
taken_effect-append (unlocking c r ∷ xs) ys = ap (λ l. (c, r) ∷ l) (taken_effect-append xs ys)
taken_effect-append (returned c r ∷ xs) ys = ap (λ l. (c, r) ∷ l) (taken_effect-append xs ys)
taken_effect-append (_ ∷ xs) ys = taken_effect-append xs ys

module _ (before after : List Worker) where
  same_effect :
      (w w' : Worker)
      → taken_effect (w ∷ after) ≡ taken_effect (w' ∷ after)
      → taken_effect (before ++ w ∷ after) ≡ taken_effect (before ++ w' ∷ after)
  same_effect w w' e =
      taken_effect-append before (w ∷ after)
      ∙ ap (λ l. taken_effect before ++ l) e
      ∙ sym (taken_effect-append before (w' ∷ after))

  new_effect :
      (w : Worker) (c : Call) (r : Answer) (log : List (Call × Answer))
      → taken_effect (w ∷ after) ≡ taken_effect after
      → Perm log (taken_effect (before ++ w ∷ after))
      → Perm ((c, r) ∷ log) (taken_effect (before ++ unlocking c r ∷ after))
  new_effect w c r log e p =
      let old : taken_effect (before ++ w ∷ after) ≡ taken_effect before ++ taken_effect after =
        taken_effect-append before (w ∷ after) ∙ ap (λ l. taken_effect before ++ l) e in
      let new = taken_effect-append before (unlocking c r ∷ after) in
      subst (Perm ((c, r) ∷ log)) (sym new) (
        Perm.trans (Perm.cons (c, r) (subst (Perm log) old p))
          (Perm.symm (perm_middle (taken_effect before) (taken_effect after))))

  pub Act-taken_effect :
      {L : Library} {s s' : Shared} {w w' : Worker} {label : Option (Call × Answer)}
      (log : List (Call × Answer))
      → Act L s w label s' w'
      → Perm log (taken_effect (before ++ w ∷ after))
      → Perm (log_label L label log) (taken_effect (before ++ w' ∷ after))
  Act-taken_effect log (lock c writes free none_in) p =
      subst (Perm log) (same_effect (calling c) (inside c) refl) p
  Act-taken_effect log (rlock c reads free) p =
      subst (Perm log) (same_effect (calling c) (inside c) refl) p
  Act-taken_effect log (assign_attempts n) p = new_effect _ _ _ log refl p
  Act-taken_effect log (read_list {s} a os) p =
      subst (Perm log) (same_effect (inside (adds_server a os)) (appending a os s.config.list) refl)
        p
  Act-taken_effect log (assign_list a os list) p = new_effect _ _ _ log refl p
  Act-taken_effect log read_attempts p = new_effect _ _ _ log refl p
  Act-taken_effect log copy_list p = new_effect _ _ _ log refl p
  Act-taken_effect log (unlock c r writes) p =
      subst (Perm log) (same_effect (unlocking c r) (returned c r) refl) p
  Act-taken_effect log (runlock c r reads) p =
      subst (Perm log) (same_effect (unlocking c r) (returned c r) refl) p
