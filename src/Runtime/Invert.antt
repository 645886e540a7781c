-- ===== src/Runtime/Invert.antt =====
-- What a `do` block that returned, or failed, says of its parts.
use dnscore.Prelude.{
  ◌≢◌, sym, ◌≡◌, refl, ◌∙◌, ap, ◌⊎◌, inl, inr, Bool, true, false, not, if◌then◌else◌, Option, none,
  some, ◌∷◌,
}
use dnscore.Errors.{Error}
use dnscore.Go.{Result, ok, err, panic}
use dnscore.Runtime.{Event, Trace}
use dnscore.Runtime.Io.{
  Io, pure, fail, lift, call, emit, check, continue, catch, handle, defer, ◌>>=◌,
}

abbrev error_or {ℓ} : {B : Type ℓ} → Error → Result B → Error
error_or d (ok b) = d
error_or d (err e) = e
error_or d panic = d

module _ {ℓ κ} {A : Type ℓ} {B : Type κ} where
  -- The first action succeeded, and the rest ran from there.
  pub record Ran (m : Io A) (f : A → Io B) (tr : Trace) (final : Result B × Trace)
      : Type (ℓ ⊔ κ) where
    pub value : A
    pub middle : Trace
    pub first : m tr ≡ (ok value, middle)
    pub rest : f value middle ≡ final

  continue-eq-ok :
      (m : Io A) (f : A → Io B) (tr mid : Trace) (r : Result A) {b : B} {tr' : Trace}
      → m tr ≡ (r, mid)
      → continue f (r, mid) ≡ (ok b, tr')
      → Ran m f tr (ok b, tr')
  unfolding continue
  continue-eq-ok m f tr mid (ok a) p h = record { value = a; middle = mid; first = p; rest = h }
  continue-eq-ok m f tr mid (err e) p h = absurd (cc (ap (λ x. x.0) h))
  continue-eq-ok m f tr mid panic p h = absurd (cc (ap (λ x. x.0) h))

  pub >>=-eq-ok :
      (m : Io A) (f : A → Io B) (tr : Trace) {b : B} {tr' : Trace}
      → (m >>= f) tr ≡ (ok b, tr')
      → Ran m f tr (ok b, tr')
  unfolding ◌>>=◌
  >>=-eq-ok m f tr h = continue-eq-ok m f tr (m tr).1 (m tr).0 refl h

  continue-eq-err :
      (m : Io A) (f : A → Io B) (tr mid : Trace) (r : Result A) {e : Error} {tr' : Trace}
      → m tr ≡ (r, mid)
      → continue f (r, mid) ≡ (err e, tr')
      → (m tr ≡ (err e, tr')) ⊎ Ran m f tr (err e, tr')
  unfolding continue
  continue-eq-err m f tr mid (ok a) p h =
      inr (record { value = a; middle = mid; first = p; rest = h })
  continue-eq-err m f tr mid (err e) p h = inl (p ∙ λ i. (err (error_or e (h i).0), (h i).1))
  continue-eq-err m f tr mid panic p h = absurd (cc (ap (λ x. x.0) h))

  pub >>=-eq-err :
      (m : Io A) (f : A → Io B) (tr : Trace) {e : Error} {tr' : Trace}
      → (m >>= f) tr ≡ (err e, tr')
      → (m tr ≡ (err e, tr')) ⊎ Ran m f tr (err e, tr')
  unfolding ◌>>=◌
  >>=-eq-err m f tr h = continue-eq-err m f tr (m tr).1 (m tr).0 refl h

  -- A `do` block goes on from a step that succeeded, and stops at one that failed.
  pub >>=-ok :
      (m : Io A) (f : A → Io B) {tr mid : Trace} {a : A}
      → m tr ≡ (ok a, mid)
      → (m >>= f) tr ≡ f a mid
  unfolding ◌>>=◌
  >>=-ok m f p = ap (continue f) p

  pub >>=-err :
      (m : Io A) (f : A → Io B) {tr mid : Trace} {e : Error}
      → m tr ≡ (err e, mid)
      → (m >>= f) tr ≡ (err e, mid)
  unfolding ◌>>=◌
  >>=-err m f p = ap (continue f) p

-- The single steps.
pub lift_ok {ℓ} :
    {A : Type ℓ} (r : Result A) {tr mid : Trace} {a : A}
    → lift r tr ≡ (ok a, mid)
    → (r ≡ ok a) × (mid ≡ tr)
unfolding lift
lift_ok r h = (ap (λ x. x.0) h, sym (ap (λ x. x.1) h))

pub call_ok {ℓ} :
    {A : Type ℓ} (answer : Trace → Result A) (event : Result A → Event) {tr mid : Trace} {a : A}
    → call answer event tr ≡ (ok a, mid)
    → (answer tr ≡ ok a) × (mid ≡ event (ok a) ∷ tr)
unfolding call
call_ok answer event {tr} h =
    let e = ap (λ x. x.0) h in (e, sym (ap (λ x. x.1) h) ∙ ap (λ r. event r ∷ tr) e)

pub emit_ok :
    (event : Event) {tr mid : Trace} {u : Unit {0}} → emit event tr ≡ (ok u, mid) → mid ≡ event ∷ tr
unfolding emit
emit_ok event h = sym (ap (λ x. x.1) h)

pub pure_ok {ℓ} :
    {A : Type ℓ} (b : A) {tr mid : Trace} {a : A} → pure b tr ≡ (ok a, mid) → (b ≡ a) × (mid ≡ tr)
unfolding pure
pure_ok b h = (cc (ap (λ x. x.0) h), sym (ap (λ x. x.1) h))

module _ {ℓ κ} {A : Type ℓ} {B : Type κ} where
  handle-eq-ok :
      (m : Io A) (failed : Error → Io B) (done : A → Io B) (tr mid : Trace) (r : Result A) {b : B}
      {tr' : Trace}
      → m tr ≡ (r, mid)
      → handle failed done (r, mid) ≡ (ok b, tr')
      → ((e : Error) × (mid : Trace) × (m tr ≡ (err e, mid)) × (failed e mid ≡ (ok b, tr')))
        ⊎ Ran m done tr (ok b, tr')
  unfolding handle
  handle-eq-ok m failed done tr mid (ok a) p h =
      inr (record { value = a; middle = mid; first = p; rest = h })
  handle-eq-ok m failed done tr mid (err e) p h = inl (e, mid, p, h)
  handle-eq-ok m failed done tr mid panic p h = absurd (cc (ap (λ x. x.0) h))

  -- A handler that returned: the action failed and the handler took over, or it went on.
  pub catch-eq-ok :
      (m : Io A) (failed : Error → Io B) (done : A → Io B) (tr : Trace) {b : B} {tr' : Trace}
      → catch m failed done tr ≡ (ok b, tr')
      → ((e : Error) × (mid : Trace) × (m tr ≡ (err e, mid)) × (failed e mid ≡ (ok b, tr')))
        ⊎ Ran m done tr (ok b, tr')
  unfolding catch
  catch-eq-ok m failed done tr h = handle-eq-ok m failed done tr (m tr).1 (m tr).0 refl h

pub lift_err {ℓ} :
    {A : Type ℓ} (r : Result A) {tr mid : Trace} {e : Error}
    → lift r tr ≡ (err e, mid)
    → (r ≡ err e) × (mid ≡ tr)
unfolding lift
lift_err r h = (ap (λ x. x.0) h, sym (ap (λ x. x.1) h))

pub call_err {ℓ} :
    {A : Type ℓ} (answer : Trace → Result A) (event : Result A → Event) {tr mid : Trace} {e : Error}
    → call answer event tr ≡ (err e, mid)
    → (answer tr ≡ err e) × (mid ≡ event (err e) ∷ tr)
unfolding call
call_err answer event {tr} h =
    let p = ap (λ x. x.0) h in (p, sym (ap (λ x. x.1) h) ∙ ap (λ r. event r ∷ tr) p)

-- A deferred action runs last and does not change the result.
pub defer_ok {ℓ} :
    {A : Type ℓ} (cleanup : Io (Unit {0})) (m : Io A) {tr tr' : Trace} {a : A}
    → defer cleanup m tr ≡ (ok a, tr')
    → (m tr ≡ (ok a, (m tr).1)) × (tr' ≡ (cleanup (m tr).1).1)
unfolding defer
defer_ok cleanup m {tr} h = ((λ i. ((h i).0, (m tr).1)), sym (ap (λ x. x.1) h))

module _ {ℓ κ} {A : Type ℓ} {B : Type κ} where
  continue-cases :
      (m : Io A) (f : A → Io B) (tr mid : Trace) (r : Result A)
      → m tr ≡ (r, mid)
      → Ran m f tr (continue f (r, mid)) ⊎ (((a : A) → r ≢ ok a) × ((continue f (r, mid)).1 ≡ mid))
  unfolding continue
  continue-cases m f tr mid (ok a) p =
      inl (record { value = a; middle = mid; first = p; rest = refl })
  continue-cases m f tr mid (err e) p = inr (λ a q. cc q, refl)
  continue-cases m f tr mid panic p = inr (λ a q. cc q, refl)

  -- Whatever the result: the rest ran, or the first action did not succeed and the history is its.
  pub >>=-cases :
      (m : Io A) (f : A → Io B) (tr : Trace)
      → Ran m f tr ((m >>= f) tr) ⊎ (((a : A) → (m tr).0 ≢ ok a) × (((m >>= f) tr).1 ≡ (m tr).1))
  unfolding ◌>>=◌
  >>=-cases m f tr = continue-cases m f tr (m tr).1 (m tr).0 refl

-- A guard that returns an error was not taken.
pub guard_ok {ℓ} :
    {A : Type ℓ} (b : Bool) (e : Error) (m : Io A) {tr mid : Trace} {a : A}
    → (if not b then fail e else m) tr ≡ (ok a, mid)
    → (b ≡ true) × (m tr ≡ (ok a, mid))
unfolding fail
guard_ok true e m h = (refl, h)
guard_ok false e m h = absurd (cc (ap (λ x. x.0) h))

pub check_ok :
    (o : Option Error) {tr mid : Trace} {u : Unit {0}}
    → check o tr ≡ (ok u, mid)
    → (o ≡ none) × (mid ≡ tr)
unfolding check
check_ok none h = (refl, sym (ap (λ x. x.1) h))
check_ok (some e) h = absurd (cc (ap (λ x. x.0) h))
