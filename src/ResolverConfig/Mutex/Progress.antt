-- ===== src/ResolverConfig/Mutex/Progress.antt =====
-- resolverconfig.go: the steps that the goroutines have left, and which of them can go on.
use dnscore.Prelude.{
  ◌≡◌, refl, sym, ap, ◌∙◌, ◌⊎◌, inl, inr, ℕ, ◌+◌, Bool, true, false, Option, List, [], ◌∷◌, ◌++◌,
  All, Bool-cases, arith,
}
use mathlib.Core.Path.{subst}
use dnscore.Dns.{Library}
use dnscore.ResolverConfig.Mutex.{
  Call, Answer, Worker, calling, inside, appending, unlocking, returned, is_write, Shared, System,
  Act, lock, rlock, assign_attempts, read_list, assign_list, read_attempts, copy_list, unlock,
  runlock, Step, step, sets_attempts, adds_server, reads_attempts, reads_servers,
}
use dnscore.ResolverConfig.Mutex.Counts.{flag, writer, reader, total, total-replace}
use dnscore.ResolverConfig.Mutex.Consistency.{IsConsistent}

-- The steps that a goroutine has left inside its call.
abbrev left_inside : Call → ℕ
left_inside (adds_server _ _) = 3
left_inside _ = 2

abbrev left_of : Worker → ℕ
left_of (calling c) = left_inside c + 1
left_of (inside c) = left_inside c
left_of (appending _ _ _) = 2
left_of (unlocking _ _) = 1
left_of (returned _ _) = 0

abbrev pub steps_left : List Worker → ℕ
steps_left = total left_of

abbrev pub IsReturned : Worker → Type 0
IsReturned (returned _ _) = Unit
IsReturned _ = ⊥

-- Outside the mutex: before the call, or after it.
abbrev IsOutside : Worker → Type 0
IsOutside (calling _) = Unit
IsOutside (returned _ _) = Unit
IsOutside _ = ⊥

abbrev IsInside : Worker → Type 0
IsInside (calling _) = ⊥
IsInside (returned _ _) = ⊥
IsInside _ = Unit

-- The first goroutine of a kind, between the others.
abbrev Some : (Worker → Type 0) → List Worker → Type 0
Some P ws =
    (before : List Worker) × (w : Worker) × (after : List Worker) × (ws ≡ before ++ w ∷ after) × P w

Some-cons : (P : Worker → Type 0) (v : Worker) (ws : List Worker) → Some P ws → Some P (v ∷ ws)
Some-cons P v ws (before, w, after, e, p) = (v ∷ before, w, after, ap (λ l. v ∷ l) e, p)

find :
    (P Q : Worker → Type 0) → ((w : Worker) → P w ⊎ Q w) → (ws : List Worker) → Some P ws ⊎ All Q ws
find P Q cases [] = inr tt
find P Q cases (w ∷ ws) = elim (cases w) [
  | inl p ↦ inl ([], w, ws, refl, p)
  | inr q ↦ elim (find P Q cases ws) [
    | inl more ↦ inl (Some-cons P w ws more)
    | inr rest ↦ inr (q, rest)
  ]
]

two_sides : (w : Worker) → IsInside w ⊎ IsOutside w
two_sides (calling _) = inr tt
two_sides (inside _) = inl tt
two_sides (appending _ _ _) = inl tt
two_sides (unlocking _ _) = inl tt
two_sides (returned _ _) = inr tt

abbrev IsCalling : Worker → Type 0
IsCalling w = (c : Call) × (w ≡ calling c)

abbrev IsNotCalling : Worker → Type 0
IsNotCalling (calling _) = ⊥
IsNotCalling _ = Unit

two_kinds : (w : Worker) → IsCalling w ⊎ IsNotCalling w
two_kinds (calling c) = inl (c, refl)
two_kinds (inside _) = inr tt
two_kinds (appending _ _ _) = inr tt
two_kinds (unlocking _ _) = inr tt
two_kinds (returned _ _) = inr tt

outside-free : (ws : List Worker) → All IsOutside ws → (total writer ws ≡ 0) × (total reader ws ≡ 0)
outside-free [] h = (refl, refl)
outside-free (calling _ ∷ ws) h =
    let free = outside-free ws h.1 in (omega (arith, free.0), omega (arith, free.1))
outside-free (returned _ _ ∷ ws) h =
    let free = outside-free ws h.1 in (omega (arith, free.0), omega (arith, free.1))
outside-free (inside _ ∷ ws) h = elim h.0 [ ]
outside-free (appending _ _ _ ∷ ws) h = elim h.0 [ ]
outside-free (unlocking _ _ ∷ ws) h = elim h.0 [ ]

both-IsReturned : (ws : List Worker) → All IsOutside ws → All IsNotCalling ws → All IsReturned ws
both-IsReturned [] h k = tt
both-IsReturned (returned _ _ ∷ ws) h k = (tt, both-IsReturned ws h.1 k.1)
both-IsReturned (calling _ ∷ ws) h k = elim k.0 [ ]
both-IsReturned (inside _ ∷ ws) h k = elim h.0 [ ]
both-IsReturned (appending _ _ _ ∷ ws) h k = elim h.0 [ ]
both-IsReturned (unlocking _ _ ∷ ws) h k = elim h.0 [ ]

flag-zero : (b : Bool) → flag b ≡ 0 → b ≡ false
flag-zero true h = absurd (omega (arith, h))
flag-zero false h = refl

module _ (L : Library) where
  abbrev CanAct : Shared → Worker → Type 0
  CanAct s w =
      (label : Option (Call × Answer)) × (s' : Shared) × (w' : Worker) × Act L s w label s' w'

  abbrev pub CanStep : System → Type 0
  CanStep s = (label : Option (Call × Answer)) × (t : System) × Step L s label t

  inside-CanAct : (s : Shared) (w : Worker) → IsInside w → CanAct s w
  inside-CanAct s (inside (sets_attempts n)) h = (_, _, _, assign_attempts n)
  inside-CanAct s (inside (adds_server a os)) h = (_, _, _, read_list a os)
  inside-CanAct s (inside reads_attempts) h = (_, _, _, read_attempts)
  inside-CanAct s (inside reads_servers) h = (_, _, _, copy_list)
  inside-CanAct s (appending a os list) h = (_, _, _, assign_list a os list)
  inside-CanAct s (unlocking c r) h = elim (Bool-cases (is_write c)) [
    | inl writes ↦ (_, _, _, unlock c r writes)
    | inr reads ↦ (_, _, _, runlock c r reads)
  ]
  inside-CanAct s (calling _) h = elim h [ ]
  inside-CanAct s (returned _ _) h = elim h [ ]

  calling-CanAct :
      (s : Shared) (c : Call) → s.writing ≡ false → s.readers ≡ 0 → CanAct s (calling c)
  calling-CanAct s c free none_in = elim (Bool-cases (is_write c)) [
    | inl writes ↦ (_, _, _, lock c writes free none_in)
    | inr reads ↦ (_, _, _, rlock c reads free)
  ]

  at-CanStep :
      (s : Shared) (before : List Worker) (w : Worker) (after : List Worker) (ws : List Worker)
      → ws ≡ before ++ w ∷ after
      → CanAct s w
      → CanStep (record { shared = s; workers = ws })
  at-CanStep s before w after ws e (label, s', w', act) =
      subst (λ l. CanStep (record { shared = s; workers = l })) (sym e)
        (label, _, step before after act)

  -- A goroutine inside goes on; if there is none, the mutex is free, and one that calls comes in.
  pub IsConsistent-progress : (t : System) → IsConsistent t → All IsReturned t.workers ⊎ CanStep t
  IsConsistent-progress t v = elim (find IsInside IsOutside two_sides t.workers) [
    | inl (before, w, after, e, h) ↦
        inr (at-CanStep t.shared before w after t.workers e (inside-CanAct t.shared w h))
    | inr outside ↦ elim (find IsCalling IsNotCalling two_kinds t.workers) [
      | inr all ↦ inl (both-IsReturned t.workers outside all)
      | inl (before, w, after, e, (c, is_c)) ↦
          let free = outside-free t.workers outside in
          inr (
            at-CanStep t.shared before w after t.workers e (
              subst (CanAct t.shared) (sym is_c) (
                calling-CanAct t.shared c
                  (flag-zero t.shared.writing (sym v.writers_counted ∙ free.0))
                  (sym v.readers_counted ∙ free.1))))
    ]
  ]

  Act-left :
      {s s' : Shared} {w w' : Worker} {label : Option (Call × Answer)}
      → Act L s w label s' w'
      → left_of w ≡ left_of w' + 1
  Act-left (lock c _ _ _) = refl
  Act-left (rlock c _ _) = refl
  Act-left (assign_attempts n) = refl
  Act-left (read_list a os) = refl
  Act-left (assign_list a os list) = refl
  Act-left read_attempts = refl
  Act-left copy_list = refl
  Act-left (unlock c r _) = refl
  Act-left (runlock c r _) = refl

  pub Step-steps_left :
      {s t : System} {label : Option (Call × Answer)}
      → Step L s label t
      → steps_left s.workers ≡ steps_left t.workers + 1
  Step-steps_left (step before after {w = w} {w' = w'} act) =
      omega (arith, Act-left act, total-replace left_of before w w' after)
