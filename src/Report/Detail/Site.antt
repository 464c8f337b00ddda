-- ===== src/Report/Detail/Site.antt =====
-- report.c: the records of one call site among the sorted ones, and their sums.
use mathlib.Core.Path.{subst}
use mathlib.Core.List.{Perm, Mem}
use mathlib.Core.List.Perm
use mpi_pv.Prelude.{
  All-of_Mem, ℕ, ◌≡◌, ◌≢◌, refl, ap, ◌∙◌, ◌⊎◌, inl, inr, Bool, false, List, [], ◌∷◌, ◌++◌, keep,
  arith, ◌==◌, Bool-cases,
}
use mpi_pv.Callsite.{CallsiteStats}
use mpi_pv.Report.Runs.{Ends, OneOp}
use mpi_pv.Report.Detail.{Sums, View, add_record}

-- The sums over some records.
abbrev pub add_all : View → List CallsiteStats → Sums → Sums
add_all v [] s = s
add_all v (p ∷ ps) s = add_all v ps (add_record v p s)

-- The records of a call site.
abbrev pub site : ℕ → List CallsiteStats → List CallsiteStats
site c av = keep (λ p. p.csid == c) av

pub ne_test : {a b : ℕ} → a ≢ b → (a == b) ≡ false
ne_test ne = ground arith

pub test_ne : {a b : ℕ} → (a == b) ≡ false → a ≢ b
test_ne e h = ground arith

pub keep-append {ℓ} :
    {A : Type ℓ} (p : A → Bool) (xs ys : List A) → keep p (xs ++ ys) ≡ keep p xs ++ keep p ys
keep-append p [] ys = refl
keep-append p (x ∷ xs) ys = elim (Bool-cases (p x)) [
  | inl e ↦ rw e (ap (λ l. x ∷ l) (keep-append p xs ys))
  | inr e ↦ rw e (keep-append p xs ys)
]

pub site_of_Ends : (c : ℕ) (av : List CallsiteStats) → Ends c av → site c av ≡ []
site_of_Ends c [] h = refl
site_of_Ends c (p ∷ av) h = ground (arith, h.0, site_of_Ends c av h.1)

pub Ends-after :
    (c : ℕ) (prev p : CallsiteStats) (av : List CallsiteStats)
    → prev.csid ≡ c
    → p.csid ≢ c
    → ((p.csid ≡ prev.csid) ⊎ Ends prev.csid (p ∷ av))
    → Ends c (p ∷ av)
Ends-after c prev p av e ne (inl h) = absurd (ne (h ∙ e))
Ends-after c prev p av e ne (inr h) = subst (λ d. Ends d (p ∷ av)) e h

-- The operation of each id, known for the entries of a table, is known in any order of them.
pub OneOp-of_Perm :
    (op_of : ℕ → ℕ) (all av : List CallsiteStats)
    → ((p : CallsiteStats) → Mem p all → p.op ≡ op_of p.csid)
    → Perm av all
    → OneOp op_of av
OneOp-of_Perm op_of all av h p = All-of_Mem _ av (λ a m. h a ((Perm.mem_iff p).0 m))
