-- ===== src/Response/Answers.antt =====
-- `ValidAnswers`: which records it returns, and in which order.
use mathlib.Core.List.{Mem, Sublist, not-mem-nil}
use dnscore.Prelude.{
  ℕ, ◌≡◌, refl, sym, ◌≢◌, ◌↔◌, Bytes, Bool, true, List, [], ◌∷◌, ◌++◌, arith, filter, append_assoc,
  filter-append, filter-sublist, mem-filter, append-nil, ◌==◌, ◌&&◌, ◌∙◌, ap, ◌⊎◌, inl, inr,
}
use dnscore.Errors.{Error, sentinel, no_data}
use dnscore.Go.{ok, err, panic, Result-cases}
use dnscore.Dns.{Question, Msg, Rr, header}
use dnscore.Response.{
  equal_ascii_name, keep_valid, valid_loop, or_no_data, expect_name, valid_answers,
}
use dnscore.Response.Names.{SameName, equal_ascii_name_iff}
use dnscore.Response.Alias.{IsFinalName, expect_name-IsFinalName}

-- The test of the loop, both conditions in one.
abbrev passes : Bytes → ℕ → Rr → Bool
passes expected qclass rr =
    equal_ascii_name expected (header rr).name && (qclass == (header rr).class)

keep_valid-filter :
    (expected : Bytes) (qclass : ℕ) (valid : List Rr) (rr : Rr)
    → keep_valid expected qclass valid rr ≡ valid ++ filter (passes expected qclass) (rr ∷ [])
unfolding keep_valid
keep_valid-filter expected qclass valid rr = ground (arith, append-nil valid)

valid_loop-filter :
    (expected : Bytes) (qclass : ℕ) (valid rrs : List Rr)
    → valid_loop expected qclass valid rrs ≡ valid ++ filter (passes expected qclass) rrs
unfolding valid_loop
valid_loop-filter expected qclass valid [] = sym (append-nil valid)
valid_loop-filter expected qclass valid (rr ∷ rrs) =
    valid_loop-filter expected qclass (keep_valid expected qclass valid rr) rrs
    ∙ ap (λ l. l ++ filter p rrs) (keep_valid-filter expected qclass valid rr)
    ∙ append_assoc valid (filter p (rr ∷ [])) (filter p rrs)
    ∙ ap (λ l. valid ++ l) (sym (filter-append p (rr ∷ []) rrs))
  where
    p : Rr → Bool
    p = passes expected qclass

-- A record of the queried class under the final name.
abbrev pub IsValidRr : Bytes → ℕ → Rr → Type 0
IsValidRr final qclass rr = SameName final (header rr).name × (qclass ≡ (header rr).class)

passes_iff :
    (final : Bytes) (qclass : ℕ) (rr : Rr)
    → (passes final qclass rr ≡ true) ↔ IsValidRr final qclass rr
passes_iff final qclass rr = ground (arith, equal_ascii_name_iff final (header rr).name)

-- What `ValidAnswers` promises of a list: at least one record, the records of the answer section
-- that are valid under the final name, and those only, in the order of the section.
pub record AreValidAnswers (q0 : Question) (answers valid : List Rr) : Type 0 where
  pub final : Bytes
  pub is_final : IsFinalName q0.name answers final
  pub some_valid : valid ≢ []
  pub in_order : Sublist valid answers
  pub exact : (rr : Rr) → Mem rr valid ↔ (Mem rr answers × IsValidRr final q0.qclass rr)

-- No record of the answer section is valid.
pub record NoValidAnswer (q0 : Question) (answers : List Rr) : Type 0 where
  pub final : Bytes
  pub is_final : IsFinalName q0.name answers final
  pub none_valid : (rr : Rr) → Mem rr answers → ¬ IsValidRr final q0.qclass rr

module _ (q0 : Question) (resp : Msg) where
  abbrev final_name : Bytes
  final_name = expect_name q0.name resp.answer

  abbrev kept : List Rr
  kept = filter (passes final_name q0.qclass) resp.answer

  valid_answers-kept : valid_answers q0 resp ≡ or_no_data kept
  unfolding valid_answers
  valid_answers-kept = ap or_no_data (valid_loop-filter final_name q0.qclass [] resp.answer)

  mem-kept : (rr : Rr) → Mem rr kept ↔ (Mem rr resp.answer × IsValidRr final_name q0.qclass rr)
  mem-kept rr = (
    (λ m. let (i, t) = (mem-filter p resp.answer rr).0 m in (i, (passes_iff _ _ rr).0 t)),
    (λ (i, v). (mem-filter p resp.answer rr).1 (i, (passes_iff _ _ rr).1 v)),
  )
    where
      p : Rr → Bool
      p = passes final_name q0.qclass

or_no_data-ok :
    (rrs : List Rr) {valid : List Rr} → or_no_data rrs ≡ ok valid → (valid ≡ rrs) × (rrs ≢ [])
unfolding or_no_data
or_no_data-ok [] h = absurd (cc)
or_no_data-ok (rr ∷ rrs) h = (cc, λ e. cc)

or_no_data-err :
    (rrs : List Rr) {e : Error} → or_no_data rrs ≡ err e → (e ≡ sentinel no_data) × (rrs ≡ [])
unfolding or_no_data
or_no_data-err [] h = (cc, refl)
or_no_data-err (rr ∷ rrs) h = absurd (cc)

-- A list that `ValidAnswers` returns is not empty, and holds exactly the records of the answer
-- section, in their order, whose class is the question's and whose name is, up to the case of
-- letters, the target of the last CNAME record, or the name of the question if there is none.
pub valid_answers_sound :
    (q0 : Question) (resp : Msg) {valid : List Rr}
    → valid_answers q0 resp ≡ ok valid
    → AreValidAnswers q0 resp.answer valid
valid_answers_sound q0 resp {valid} h = record {
  final = final_name q0 resp;
  is_final = expect_name-IsFinalName q0.name resp.answer;
  some_valid = rw same.0 same.1;
  in_order = rw same.0 (filter-sublist _ resp.answer);
  exact = rw same.0 (mem-kept q0 resp);
}
  where
    same : (valid ≡ kept q0 resp) × (kept q0 resp ≢ [])
    same = or_no_data-ok (kept q0 resp) (sym (valid_answers-kept q0 resp) ∙ h)

-- An error of `ValidAnswers` is `ErrNoData`, and then no record of the answer section is valid.
pub valid_answers_error :
    (q0 : Question) (resp : Msg) {e : Error}
    → valid_answers q0 resp ≡ err e
    → (e ≡ sentinel no_data) × NoValidAnswer q0 resp.answer
valid_answers_error q0 resp {e} h = (
  empty.0,
  record {
    final = final_name q0 resp;
    is_final = expect_name-IsFinalName q0.name resp.answer;
    none_valid = λ rr m v. not-mem-nil (rw empty.1 at ((mem-kept q0 resp rr).1 (m, v)));
  },
)
  where
    empty : (e ≡ sentinel no_data) × (kept q0 resp ≡ [])
    empty = or_no_data-err (kept q0 resp) (sym (valid_answers-kept q0 resp) ∙ h)

or_no_data-ne-panic : (rrs : List Rr) → or_no_data rrs ≢ panic
unfolding or_no_data
or_no_data-ne-panic [] e = cc e
or_no_data-ne-panic (rr ∷ rrs) e = cc e

-- `ValidAnswers` returns, where there is one, the records of the answer section, in their order,
-- whose class is the question's and whose name is, up to the case of letters, the target of the last
-- CNAME record, or the name of the question if there is none. Where there is no such record, it
-- returns `ErrNoData`, and it returns no other error and does not panic.
pub valid_answers_cases :
    (q0 : Question) (resp : Msg)
    → ((valid : List Rr) × (valid_answers q0 resp ≡ ok valid)
        × AreValidAnswers q0 resp.answer valid)
      ⊎ (valid_answers q0 resp ≡ err (sentinel no_data)) × NoValidAnswer q0 resp.answer
valid_answers_cases q0 resp = elim (Result-cases (valid_answers q0 resp)) [
  | inl (valid, h) ↦ inl (valid, h, valid_answers_sound q0 resp h)
  | inr (inl (e, h)) ↦
      let (same, no_answer) = valid_answers_error q0 resp h in inr (h ∙ ap err same, no_answer)
  | inr (inr h) ↦ absurd (or_no_data-ne-panic (kept q0 resp) (sym (valid_answers-kept q0 resp) ∙ h))
]
