-- ===== src/ResolverConfig/Mutex/Atomic.antt =====
-- resolverconfig.go: runs of goroutines that call the methods of one configuration.
use dnscore.ResolverConfig.Mutex.Progress.{
  steps_left, Step-steps_left, IsReturned, CanStep, IsConsistent-progress,
}
use dnscore.Prelude.{
  ◌≡◌, refl, sym, Option, none, some, List, [], ◌∷◌, map, ◌⊎◌, ℕ, ◌+◌, All, arith,
}
use mathlib.Core.Path.{subst}
use mathlib.Core.List.{Perm}
use mathlib.Core.List.Perm
use dnscore.Dns.{Library}
use dnscore.ResolverConfig.{ResolverConfig}
use dnscore.ResolverConfig.Mutex.{
  Call, Answer, calling, System, step, Run, begin, go, log_label, IsSequential, starting,
  taken_effect,
}
use dnscore.ResolverConfig.Mutex.Consistency.{IsConsistent, starting-IsConsistent, Act-IsConsistent}
use dnscore.ResolverConfig.Mutex.Effects.{Effect, Act-Effect, Act-taken_effect}

taken_effect-starting : (calls : List Call) → taken_effect (map calling calls) ≡ []
taken_effect-starting [] = refl
taken_effect-starting (c ∷ calls) = taken_effect-starting calls

module _ (L : Library) where
  Effect-IsSequential :
      (c0 : ResolverConfig) (log : List (Call × Answer)) (c c' : ResolverConfig)
      (label : Option (Call × Answer))
      → Effect L c label c'
      → IsSequential L c0 log c
      → IsSequential L c0 (log_label L label log) c'
  Effect-IsSequential c0 log c c' none e h = subst (IsSequential L c0 log) (sym e) h
  Effect-IsSequential c0 log c c' (some x) e h = (c, h, e)

  -- In every run of goroutines that each call `SetAttempts`, `AddServer`, `Attempts` or `servers`
  -- of one configuration, steps interleaved in any order: the configuration, and the answers of the
  -- calls that have taken effect, are those of these calls one after the other, each alone; these
  -- are exactly the calls that have returned or are about to unlock, with the answers they return;
  -- and the mutex admits one writer and no reader, or only readers.
  pub Run-IsAtomic :
      (c0 : ResolverConfig) (calls : List Call) {log : List (Call × Answer)} {t : System}
      → Run L (starting c0 calls) log t
      → IsSequential L c0 log t.shared.config × Perm log (taken_effect t.workers) × IsConsistent t
  Run-IsAtomic c0 calls begin = (
    refl,
    subst (Perm []) (sym (taken_effect-starting calls)) (Perm.refl []),
    starting-IsConsistent c0 calls,
  )
  Run-IsAtomic c0 calls (go {log} {label} run (step before after {s} {s'} act)) =
      let (sequential, same, v) = Run-IsAtomic c0 calls run in
      (
        Effect-IsSequential c0 log s.config s'.config label (Act-Effect L before after act v)
            sequential,
        Act-taken_effect before after log act same,
        Act-IsConsistent L before after act v,
      )

  abbrev pub run_length : {start t : System} {log : List (Call × Answer)} → Run L start log t → ℕ
  run_length begin = 0
  run_length (go run _) = run_length run + 1

  steps_left-run_length :
      {start t : System} {log : List (Call × Answer)} (run : Run L start log t)
      → steps_left t.workers + run_length run ≡ steps_left start.workers
  steps_left-run_length begin = omega arith
  steps_left-run_length (go run s) = omega (arith, steps_left-run_length run, Step-steps_left L s)

  -- Goroutines that call `SetAttempts`, `AddServer`, `Attempts` or `servers` of one configuration do
  -- not deadlock, and their calls end: in every run, all have returned or there is a next step, and
  -- the steps made and the steps left are together those left at the start.
  pub Run-progress :
      (c0 : ResolverConfig) (calls : List Call) {log : List (Call × Answer)} {t : System}
      (run : Run L (starting c0 calls) log t)
      → (steps_left t.workers + run_length run ≡ steps_left (map calling calls))
        × (All IsReturned t.workers ⊎ CanStep L t)
  Run-progress c0 calls {t = t} run =
      let (sequential, same, v) = Run-IsAtomic c0 calls run in
      (steps_left-run_length run, IsConsistent-progress L t v)
