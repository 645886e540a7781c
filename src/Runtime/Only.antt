-- ===== src/Runtime/Only.antt =====
-- Which events an action can add. `Only p m`: whatever the history and the outcome, `m` adds events
-- that pass `p` in front of the history and leaves the rest of it alone.
use dnscore.Prelude.{
  ◌≡◌, refl, sym, ap, ◌∙◌, Bool, true, false, Option, none, some, [], ◌∷◌, ◌++◌, All, All-append,
  filter, not, append_assoc, arith, if◌then◌else◌,
}
use dnscore.Errors.{Error}
use dnscore.Go.{Result, ok, err, panic}
use dnscore.Runtime.{Event, Trace}
use dnscore.Runtime.Io.{Io, pure, fail, lift, ask, call, defer, emit, check, continue, ◌>>=◌}

-- The second history extends the first by events that pass.
pub record Extends (p : Event → Bool) (old new : Trace) : Type 0 where
  pub added : Trace
  pub extends : new ≡ added ++ old
  pub pass : All (λ e. p e ≡ true) added

module _ {p : Event → Bool} where
  pub Extends-refl : (tr : Trace) → Extends p tr tr
  Extends-refl tr = record { added = []; extends = refl; pass = tt }

  pub Extends-cons : (e : Event) (tr : Trace) → p e ≡ true → Extends p tr (e ∷ tr)
  Extends-cons e tr h = record { added = e ∷ []; extends = refl; pass = (h, tt) }

  pub Extends-trans : {a b c : Trace} → Extends p a b → Extends p b c → Extends p a c
  Extends-trans {a} x y = record {
    added = y.added ++ x.added;
    extends = y.extends ∙ ap (λ t. y.added ++ t) x.extends ∙ sym (append_assoc y.added x.added a);
    pass = All-append _ y.added x.added y.pass x.pass;
  }

pub record Only {ℓ} {A : Type ℓ} (p : Event → Bool) (m : Io A) : Type ℓ where
  pub at : (tr : Trace) → Extends p tr (m tr).1

module _ {ℓ} {A : Type ℓ} {p : Event → Bool} where
  pub Only-pure : (a : A) → Only p (pure a)
  unfolding pure
  Only-pure a = record { at = Extends-refl }

  pub Only-fail : (e : Error) → Only p (fail {A = A} e)
  unfolding fail
  Only-fail e = record { at = Extends-refl }

  pub Only-lift : (r : Result A) → Only p (lift r)
  unfolding lift
  Only-lift r = record { at = Extends-refl }

  pub Only-ask : (answer : Trace → A) → Only p (ask answer)
  unfolding ask
  Only-ask answer = record { at = Extends-refl }

  pub Only-call :
      (answer : Trace → Result A) (event : Result A → Event)
      → ((r : Result A) → p (event r) ≡ true)
      → Only p (call answer event)
  unfolding call
  Only-call answer event h = record {
    at = λ tr. Extends-cons (event (answer tr)) tr (h (answer tr));
  }

  pub Only-if : (b : Bool) (m n : Io A) → Only p m → Only p n → Only p (if b then m else n)
  Only-if true m n hm hn = hm
  Only-if false m n hm hn = hn

  pub Only-defer :
      (cleanup : Io (Unit {0})) (m : Io A) → Only p cleanup → Only p m → Only p (defer cleanup m)
  unfolding defer
  Only-defer cleanup m hc hm = record { at = λ tr. Extends-trans (hm.at tr) (hc.at (m tr).1) }

pub Only-emit : {p : Event → Bool} (e : Event) → p e ≡ true → Only p (emit e)
unfolding emit
Only-emit e h = record { at = λ tr. Extends-cons e tr h }

pub Only-check : {p : Event → Bool} (o : Option Error) → Only p (check o)
unfolding check
Only-check none = record { at = Extends-refl }
Only-check (some e) = record { at = Extends-refl }

module _ {ℓ κ} {A : Type ℓ} {B : Type κ} {p : Event → Bool} where
  Extends-continue :
      (f : A → Io B) (r : Result A) (tr : Trace)
      → ((a : A) → Only p (f a))
      → Extends p tr (continue f (r, tr)).1
  unfolding continue
  Extends-continue f (ok a) tr h = (h a).at tr
  Extends-continue f (err e) tr h = Extends-refl tr
  Extends-continue f panic tr h = Extends-refl tr

  pub Only-bind : (m : Io A) (f : A → Io B) → Only p m → ((a : A) → Only p (f a)) → Only p (m >>= f)
  unfolding ◌>>=◌
  Only-bind m f hm hf = record {
    at = λ tr. Extends-trans (hm.at tr) (Extends-continue f (m tr).0 (m tr).1 hf);
  }

pub ruleset only_rules = (
  Only-pure, Only-fail, Only-lift, Only-ask, Only-call, Only-if, Only-emit, Only-check, Only-bind,
)

-- Events that `m` cannot add, picked out of the history, are the same after it.
filter-none :
    (q : Event → Bool) (es tr : Trace)
    → All (λ e. not (q e) ≡ true) es
    → filter q (es ++ tr) ≡ filter q tr
filter-none q [] tr h = refl
filter-none q (e ∷ es) tr h = ground (arith, filter-none q es tr)

pub filter-Only {ℓ} :
    {A : Type ℓ} (q : Event → Bool) (m : Io A) {tr : Trace} {r : Result A × Trace}
    → Only (λ e. not (q e)) m
    → m tr ≡ r
    → filter q r.1 ≡ filter q tr
filter-Only q m {tr} o e =
    let x = o.at tr in
    ap (λ y. filter q y.1) (sym e) ∙ ap (filter q) x.extends ∙ filter-none q x.added tr x.pass
