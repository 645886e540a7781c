-- ===== src/ResolverConfig/Mutex/Consistency.antt =====
-- resolverconfig.go: the goroutines inside the mutex and the state that it has.
use dnscore.Prelude.{
  ◌≡◌, refl, sym, ap, ◌∙◌, ◌≤◌, Bool, true, false, Option, List, ◌∷◌, ◌++◌, All, All-append, map,
  arith,
}
use mathlib.Core.Path.{subst}
use dnscore.Dns.{Library}
use dnscore.ResolverConfig.{ResolverConfig, ResolverConfigServer, set_attempts, servers}
use dnscore.ResolverConfig.Mutex.{
  Call, Answer, Worker, calling, inside, appending, unlocking, returned, Shared, System, Act, lock,
  rlock, assign_attempts, read_list, assign_list, read_attempts, copy_list, unlock, runlock,
  starting, sets_attempts, adds_server, reads_attempts, reads_servers, nothing, attempts_are,
  servers_are,
}
use dnscore.ResolverConfig.Mutex.Counts.{
  flag, not_flag, writer, reader, total, total-middle, total-replace, total-calling, IsCurrent,
  no_writer-IsCurrent, All-split,
}

-- The mutex counts the goroutines inside: one writer and no reader, or readers and no writer; and a
-- goroutine that has read the list to append to it has the list that is still there.
pub record IsConsistent (s : System) : Type 0 where
  pub writers_counted : total writer s.workers ≡ flag s.shared.writing
  pub readers_counted : total reader s.workers ≡ s.shared.readers
  pub exclusive : s.shared.writing ≡ true → s.shared.readers ≡ 0
  pub current : All (IsCurrent s.shared.config.list) s.workers

flag-le : (b : Bool) → flag b ≤ 1
flag-le true = omega arith
flag-le false = omega arith

pub starting-IsConsistent :
    (c : ResolverConfig) (calls : List Call) → IsConsistent (starting c calls)
starting-IsConsistent c calls = record {
  writers_counted = total-calling writer calls (λ _. refl);
  readers_counted = total-calling reader calls (λ _. refl);
  exclusive = λ e. absurd (cc e);
  current = no_writer-IsCurrent c.list (map calling calls) (total-calling writer calls (λ _. refl));
}

-- One goroutine between the others.
abbrev pub at : Shared → List Worker → Worker → List Worker → System
at s before w after = record { shared = s; workers = before ++ w ∷ after }

replace-IsCurrent :
    (list : List ResolverConfigServer) (before : List Worker) (w w' : Worker) (after : List Worker)
    → All (IsCurrent list) (before ++ w ∷ after)
    → IsCurrent list w'
    → All (IsCurrent list) (before ++ w' ∷ after)
replace-IsCurrent list before w w' after h new =
    let parts = All-split (IsCurrent list) before w after h in
    All-append (IsCurrent list) before (w' ∷ after) parts.0 (new, parts.2)

module _ (before after : List Worker) where
  -- A step inside the mutex that leaves the list.
  same_place :
      (s s' : Shared) (w w' : Worker)
      → writer w ≡ writer w'
      → reader w ≡ reader w'
      → s'.writing ≡ s.writing
      → s'.readers ≡ s.readers
      → s'.config.list ≡ s.config.list
      → IsCurrent s.config.list w'
      → IsConsistent (at s before w after)
      → IsConsistent (at s' before w' after)
  same_place s s' w w' ew er same_writing same_readers same_list new v = record {
    writers_counted = omega (
      arith,
      v.writers_counted,
      ap flag same_writing,
      ew,
      total-replace writer before w w' after,
    );
    readers_counted =
        omega (arith, v.readers_counted, same_readers, er, total-replace reader before w w' after);
    exclusive = λ e. same_readers ∙ v.exclusive (sym same_writing ∙ e);
    current =
        subst (λ list. All (IsCurrent list) (before ++ w' ∷ after)) (sym same_list)
          (replace-IsCurrent s.config.list before w w' after v.current new);
  }

  -- Beside a writer nobody else is inside as one.
  others_outside :
      (s : Shared) (w : Worker)
      → writer w ≡ 1
      → IsConsistent (at s before w after)
      → (total writer before ≡ 0) × (total writer after ≡ 0)
  others_outside s w one v =
      let counted = total-middle writer before w after in
      let most = flag-le s.writing in
      (
        omega (arith, v.writers_counted, counted, most, one),
        omega (arith, v.writers_counted, counted, most, one),
      )

module _ (L : Library) (before after : List Worker) where
  pub Act-IsConsistent :
      {s s' : Shared} {w w' : Worker} {label : Option (Call × Answer)}
      → Act L s w label s' w'
      → IsConsistent (at s before w after)
      → IsConsistent (at s' before w' after)
  Act-IsConsistent (lock {s} c writes free none_in) v = record {
    writers_counted = omega (
      arith,
      v.writers_counted,
      ap flag writes,
      ap flag free,
      total-replace writer before (calling c) (inside c) after,
    );
    readers_counted = omega (
      arith,
      v.readers_counted,
      ap not_flag writes,
      total-replace reader before (calling c) (inside c) after,
    );
    exclusive = λ _. none_in;
    current = replace-IsCurrent s.config.list before (calling c) (inside c) after v.current tt;
  }
  Act-IsConsistent (rlock {s} c reads free) v = record {
    writers_counted = omega (
      arith,
      v.writers_counted,
      ap flag reads,
      total-replace writer before (calling c) (inside c) after,
    );
    readers_counted = omega (
      arith,
      v.readers_counted,
      ap not_flag reads,
      total-replace reader before (calling c) (inside c) after,
    );
    exclusive = λ e. absurd (cc (e, free));
    current = replace-IsCurrent s.config.list before (calling c) (inside c) after v.current tt;
  }
  Act-IsConsistent (assign_attempts {s} n) v =
      same_place before after s (record s { config = set_attempts s.config n })
        (inside (sets_attempts n)) (unlocking (sets_attempts n) nothing) refl refl refl refl refl tt
        v
  Act-IsConsistent (read_list {s} a os) v =
      same_place before after s s (inside (adds_server a os)) (appending a os s.config.list) refl
        refl refl refl refl refl v
  Act-IsConsistent (assign_list {s} a os list) v = record {
    writers_counted = omega (
      arith,
      v.writers_counted,
      total-replace writer before (appending a os list) (unlocking (adds_server a os) nothing)
          after,
    );
    readers_counted = omega (
      arith,
      v.readers_counted,
      total-replace reader before (appending a os list) (unlocking (adds_server a os) nothing)
          after,
    );
    exclusive = v.exclusive;
    current =
        let alone = others_outside before after s (appending a os list) refl v in
        All-append (IsCurrent _) before _ (no_writer-IsCurrent _ before alone.0)
          (tt, no_writer-IsCurrent _ after alone.1);
  }
  Act-IsConsistent (read_attempts {s}) v =
      same_place before after s s (inside reads_attempts)
        (unlocking reads_attempts (attempts_are s.config.attempts)) refl refl refl refl refl tt v
  Act-IsConsistent (copy_list {s}) v =
      same_place before after s s (inside reads_servers)
        (unlocking reads_servers (servers_are (servers L s.config))) refl refl refl refl refl tt v
  Act-IsConsistent (unlock {s} c r writes) v = record {
    writers_counted = omega (
      arith,
      others_outside before after s (unlocking c r) (ap flag writes) v,
      total-middle writer before (returned c r) after,
    );
    readers_counted = omega (
      arith,
      v.readers_counted,
      ap not_flag writes,
      total-replace reader before (unlocking c r) (returned c r) after,
    );
    exclusive = λ e. absurd (cc e);
    current =
        replace-IsCurrent s.config.list before (unlocking c r) (returned c r) after v.current tt;
  }
  Act-IsConsistent (runlock {s} c r reads) v = record {
    writers_counted = omega (
      arith,
      v.writers_counted,
      ap flag reads,
      total-replace writer before (unlocking c r) (returned c r) after,
    );
    readers_counted = omega (
      arith,
      v.readers_counted,
      ap not_flag reads,
      total-replace reader before (unlocking c r) (returned c r) after,
    );
    exclusive = λ e. omega (arith, v.exclusive e);
    current =
        replace-IsCurrent s.config.list before (unlocking c r) (returned c r) after v.current tt;
  }
