-- ===== src/Response/Alias.antt =====
-- The name that the valid records must have: the target of the last alias.
use dnscore.Prelude.{◌≡◌, refl, Bytes, List, [], ◌∷◌, ◌++◌, ap, sym}
use dnscore.Dns.{Header, Rr, a_rr, cname_rr}
use dnscore.Response.{expect_name}

-- No record is a CNAME.
abbrev pub NoAlias : List Rr → Type 0
NoAlias [] = Unit
NoAlias (cname_rr _ _ ∷ rrs) = ⊥
NoAlias (_ ∷ rrs) = NoAlias rrs

-- `final` is the target of the last CNAME record, or `name` where there is none.
pub data IsFinalName (name : Bytes) (rrs : List Rr) (final : Bytes) : Type 0 where
  unchanged : NoAlias rrs → final ≡ name → IsFinalName name rrs final
  aliased :
      (before after : List Rr) (h : Header)
      → rrs ≡ before ++ cname_rr h final ∷ after
      → NoAlias after
      → IsFinalName name rrs final

-- A record that is no alias changes nothing.
cons_plain :
    {name final : Bytes} (rr : Rr) (rrs : List Rr)
    → (NoAlias rrs → NoAlias (rr ∷ rrs))
    → IsFinalName name rrs final
    → IsFinalName name (rr ∷ rrs) final
cons_plain rr rrs more (unchanged n e) = unchanged (more n) e
cons_plain rr rrs more (aliased before after h e n) =
    aliased (rr ∷ before) after h (ap (λ l. rr ∷ l) e) n

cons_alias :
    {name target final : Bytes} (h : Header) (rrs : List Rr)
    → IsFinalName target rrs final
    → IsFinalName name (cname_rr h target ∷ rrs) final
cons_alias h rrs (unchanged n e) = aliased [] rrs h (ap (λ t. cname_rr h t ∷ rrs) (sym e)) n
cons_alias {target} h rrs (aliased before after h' e n) =
    aliased (cname_rr h target ∷ before) after h' (ap (λ l. cname_rr h target ∷ l) e) n

-- The loop ends with the final name.
pub expect_name-IsFinalName :
    (name : Bytes) (rrs : List Rr) → IsFinalName name rrs (expect_name name rrs)
unfolding expect_name
expect_name-IsFinalName name [] = unchanged tt refl
expect_name-IsFinalName name (cname_rr h t ∷ rrs) = cons_alias h rrs (expect_name-IsFinalName t rrs)
expect_name-IsFinalName name (a_rr h ip ∷ rrs) =
    cons_plain (a_rr h ip) rrs (λ n. n) (expect_name-IsFinalName name rrs)
expect_name-IsFinalName name (rr ∷ rrs) =
    cons_plain rr rrs (λ n. n) (expect_name-IsFinalName name rrs)
