-- ===== src/Runtime/Runtimex.antt =====
-- Package runtimex of github.com/rbmk-project/common, by what it documents: an error, or a false
-- condition, is a panic.
use dnscore.Prelude.{◌≡◌, ◌≢◌, refl, sym, ap, ◌∙◌, ◌⊎◌, inl, inr, Bool, true, false, if◌then◌else◌}
use dnscore.Errors.{Error}
use dnscore.Go.{Result, ok, err, panic}
use dnscore.Runtime.{Event, Trace}
use dnscore.Runtime.Io.{Io, pure, lift, emit, continue, after, defer, catch, handle, ◌>>=◌}
use dnscore.Runtime.Invert.{catch-eq-ok, pure_ok}
use dnscore.Runtime.Only.{Only, Extends}

-- `Try1`, and `Try0` for an action that has no value.
unfoldable pub try1 : {A : Type 0} → Io A → Io A
try1 m = catch m (λ e. lift panic) pure

-- `Assert`
unfoldable pub assert : Bool → Io (Unit {0})
assert b = if b then pure tt else lift panic

pub try1_ok :
    {A : Type 0} (m : Io A) (tr : Trace) {a : A} {mid : Trace}
    → try1 m tr ≡ (ok a, mid)
    → m tr ≡ (ok a, mid)
unfolding try1 lift
try1_ok m tr h = elim (catch-eq-ok m _ pure tr h) [
  | inl (e, mid, p, q) ↦ absurd (cc (ap (λ x. x.0) q))
  | inr ran ↦
      let done = pure_ok ran.value ran.rest in ran.first ∙ λ i. (ok (done.0 i), sym done.1 i)
]

pub assert_ok :
    (b : Bool) (tr : Trace) {u : Unit {0}} {mid : Trace}
    → assert b tr ≡ (ok u, mid)
    → (b ≡ true) × (mid ≡ tr)
unfolding assert pure lift
assert_ok true tr h = (refl, sym (ap (λ x. x.1) h))
assert_ok false tr h = absurd (cc (ap (λ x. x.0) h))

handle-Extends :
    {A : Type 0} {p : Event → Bool} {tr : Trace} (r : Result A) (mid : Trace)
    → Extends p tr mid
    → Extends p tr (handle (λ e. lift {A = A} panic) pure (r, mid)).1
unfolding handle pure lift
handle-Extends (ok a) mid x = x
handle-Extends (err e) mid x = x
handle-Extends panic mid x = x

pub try1-Only : {A : Type 0} {p : Event → Bool} (m : Io A) → Only p m → Only p (try1 m)
unfolding try1 catch
try1-Only m o = record { at = λ tr. handle-Extends (m tr).0 (m tr).1 (o.at tr) }

pub try1-works :
    {A : Type 0} (m : Io A) {a : A} {tr mid : Trace} → m tr ≡ (ok a, mid) → try1 m tr ≡ (ok a, mid)
unfolding try1 catch handle pure
try1-works m p = ap (handle (λ e. lift panic) pure) p

-- A result that is no value ends what follows in a panic.
pub try1_cases {ℓ} :
    {A : Type 0} {B : Type ℓ} (r : Result A)
    → ((a : A) × (r ≡ ok a))
      ⊎ (((a : A) → r ≢ ok a)
          × ((f : A → Io B) (tr : Trace) → (try1 (lift r) >>= f) tr ≡ (panic, tr)))
unfolding try1 pure lift catch handle ◌>>=◌
try1_cases (ok a) = inl (a, refl)
try1_cases (err e) = inr (λ a p. cc p, λ f tr. refl)
try1_cases panic = inr (λ a p. cc p, λ f tr. refl)

pub assert-holds : (b : Bool) (tr : Trace) → b ≡ true → assert b tr ≡ (ok tt, tr)
unfolding assert pure
assert-holds b tr h = rw h

-- An action that returns no error: it returns a value or panics.
pub record NeverErrs {ℓ} {A : Type ℓ} (m : Io A) : Type ℓ where
  pub at : (tr : Trace) {e : Error} → (m tr).0 ≢ err e

handle-ne-err :
    {A : Type 0} (r : Result A) (tr : Trace) {e : Error}
    → (handle (λ e. lift {A = A} panic) pure (r, tr)).0 ≢ err e
unfolding handle pure lift
handle-ne-err (ok a) tr h = cc h
handle-ne-err (err e) tr h = cc h
handle-ne-err panic tr h = cc h

pub NeverErrs-try1 : {A : Type 0} (m : Io A) → NeverErrs (try1 m)
unfolding try1 catch
NeverErrs-try1 m = record { at = λ tr h. handle-ne-err (m tr).0 (m tr).1 h }

module _ {ℓ κ} {A : Type ℓ} {B : Type κ} where
  continue-ne-err :
      (f : A → Io B) (r : Result A) (tr : Trace) {e : Error}
      → ((e' : Error) → r ≢ err e')
      → ((a : A) → NeverErrs (f a))
      → (continue f (r, tr)).0 ≢ err e
  unfolding continue
  continue-ne-err f (ok a) tr m h p = (h a).at tr p
  continue-ne-err f (err e) tr m h p = m e refl
  continue-ne-err f panic tr m h p = cc p

  pub NeverErrs-bind :
      (m : Io A) (f : A → Io B) → NeverErrs m → ((a : A) → NeverErrs (f a)) → NeverErrs (m >>= f)
  unfolding ◌>>=◌
  NeverErrs-bind m f hm hf = record {
    at = λ tr p. continue-ne-err f (m tr).0 (m tr).1 (λ e'. hm.at tr) hf p;
  }

pub NeverErrs-emit : (event : Event) → NeverErrs (emit event)
unfolding emit
NeverErrs-emit event = record { at = λ tr h. cc h }

pub NeverErrs-lift : {A : Type 0} (r : Result A) → ((e : Error) → r ≢ err e) → NeverErrs (lift r)
unfolding lift
NeverErrs-lift r h = record { at = λ tr. h _ }

after-ne-err :
    {A : Type 0} (event : Event) (r : Result A) (tr : Trace) {e : Error}
    → r ≢ err e
    → (after (emit event) (r, tr)).0 ≢ err e
unfolding after emit
after-ne-err event (ok a) tr h p = cc p
after-ne-err event (err e) tr h p = h p
after-ne-err event panic tr h p = cc p

pub NeverErrs-defer :
    {A : Type 0} (event : Event) (m : Io A) → NeverErrs m → NeverErrs (defer (emit event) m)
unfolding defer
NeverErrs-defer event m h = record { at = λ tr. after-ne-err event (m tr).0 (m tr).1 (h.at tr) }

pub NeverErrs-cases :
    {A : Type 0} (m : Io A) (tr : Trace)
    → NeverErrs m
    → ((a : A) × (m tr ≡ (ok a, (m tr).1))) ⊎ ((m tr).0 ≡ panic)
NeverErrs-cases {A = A} m tr h = by_result (m tr).0 refl
  where
    by_result :
        (r : Result A) → (m tr).0 ≡ r → ((a : A) × (m tr ≡ (ok a, (m tr).1))) ⊎ ((m tr).0 ≡ panic)
    by_result (ok a) p = inl (a, λ i. (p i, (m tr).1))
    by_result (err e) p = absurd (h.at tr p)
    by_result panic p = inr p
