-- ===== src/Runtime/Io.antt =====
-- Actions that may fail and add events to the history. A failure keeps the events before it.
use dnscore.Prelude.{Option, none, some, ◌∷◌}
use dnscore.Errors.{Error}
use dnscore.Go.{Result, ok, err, panic}
use dnscore.Runtime.{Event, Trace}

abbrev pub Io {ℓ} : Type ℓ → Type ℓ
Io A = Trace → Result A × Trace

module _ {ℓ} {A : Type ℓ} where
  unfoldable pub pure : A → Io A
  pure a tr = (ok a, tr)

  unfoldable pub fail : Error → Io A
  fail e tr = (err e, tr)

  unfoldable pub lift : Result A → Io A
  lift r tr = (r, tr)

  -- A question to the world that leaves no event.
  unfoldable pub ask : (Trace → A) → Io A
  ask answer tr = (ok (answer tr), tr)

  -- A call whose answer is recorded.
  unfoldable pub call : (Trace → Result A) → (Result A → Event) → Io A
  call answer event tr = let r = answer tr in (r, event r ∷ tr)

  unfoldable pub after : Io (Unit {0}) → Result A × Trace → Result A × Trace
  after cleanup (r, tr) = (r, (cleanup tr).1)

  -- `defer cleanup()` before the rest of a function.
  unfoldable pub defer : Io (Unit {0}) → Io A → Io A
  unfolding after
  defer cleanup m tr = after cleanup (m tr)

unfoldable pub emit : Event → Io (Unit {0})
emit event tr = (ok tt, event ∷ tr)

-- An error result that comes with no value.
unfoldable pub check : Option Error → Io (Unit {0})
check none tr = (ok tt, tr)
check (some e) tr = (err e, tr)

module _ {ℓ κ} {A : Type ℓ} {B : Type κ} where
  unfoldable pub continue : (A → Io B) → Result A × Trace → Result B × Trace
  continue f (ok a, tr) = f a tr
  continue f (err e, tr) = (err e, tr)
  continue f (panic, tr) = (panic, tr)

  infixl 5 ◌>>=◌
  unfoldable pub ◌>>=◌ : Io A → (A → Io B) → Io B
  unfolding continue
  ◌>>=◌ m f tr = continue f (m tr)

module _ {ℓ κ} {A : Type ℓ} {B : Type κ} where
  unfoldable pub handle : (Error → Io B) → (A → Io B) → Result A × Trace → Result B × Trace
  handle failed done (ok a, tr) = done a tr
  handle failed done (err e, tr) = failed e tr
  handle failed done (panic, tr) = (panic, tr)

  -- `if err != nil { ... }` that goes on in another way than by returning the error.
  unfoldable pub catch : Io A → (Error → Io B) → (A → Io B) → Io B
  unfolding handle
  catch m failed done tr = handle failed done (m tr)

infixl 5 ◌>>◌
abbrev pub ◌>>◌ {ℓ} : {B : Type ℓ} → Io (Unit {0}) → Io B → Io B
m >> k = m >>= λ _. k
