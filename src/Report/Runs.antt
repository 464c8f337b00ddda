-- ===== src/Report/Runs.antt =====
-- report.c: sorted by `callsite_sort_by_name_id_rank`, the records of one call site follow one another.
use mpi_pv.Prelude.{
  ℕ, ◌≡◌, ◌≢◌, sym, ap, false, ◌∙◌, ◌⊎◌, inl, inr, Ordering, List, [], ◌∷◌, All, arith, ◌==◌,
  Bool-cases, ==_iff,
}
use mpi_pv.Callsite.{CallsiteStats, express}
use mpi_pv.Names.{op_name}
use mpi_pv.Report.{sort_by_name_id_rank}
use mpi_pv.Report.Order.{Sorted, strcmp_flips}

-- No record of the site `c` is left.
abbrev pub Ends : ℕ → List CallsiteStats → Type 0
Ends c av = All (λ p. p.csid ≢ c) av

-- Once another site follows, a site does not come back.
abbrev pub Grouped : CallsiteStats → List CallsiteStats → Type 0
Grouped x [] = Unit
Grouped x (p ∷ ps) = ((p.csid ≡ x.csid) ⊎ Ends x.csid (p ∷ ps)) × Grouped p ps

-- The records of one id are of one operation.
abbrev pub OneOp : (ℕ → ℕ) → List CallsiteStats → Type 0
OneOp op_of av = All (λ p. p.op ≡ op_of p.csid) av

between :
    (x p y : CallsiteStats)
    → sort_by_name_id_rank x p ≢ Ordering.gt
    → sort_by_name_id_rank p y ≢ Ordering.gt
    → y.op ≡ x.op
    → y.csid ≡ x.csid
    → p.csid ≡ x.csid
unfolding sort_by_name_id_rank express
between x p y h k e c =
    let same : op_name y.op ≡ op_name x.op = ap op_name e in
    ground (arith, h, k, same, strcmp_flips (op_name x.op) (op_name p.op))

returns :
    (op_of : ℕ → ℕ) (x p : CallsiteStats) (ps : List CallsiteStats)
    → x.op ≡ op_of x.csid
    → OneOp op_of ps
    → sort_by_name_id_rank x p ≢ Ordering.gt
    → All (λ y. sort_by_name_id_rank p y ≢ Ordering.gt) ps
    → p.csid ≢ x.csid
    → Ends x.csid ps
returns op_of x p [] o os h hs ne = tt
returns op_of x p (y ∷ ys) o os h hs ne = (
  λ c. ne (between x p y h hs.0 (os.0 ∙ ap op_of c ∙ sym o) c),
  returns op_of x p ys o os.1 h hs.1 ne,
)

pub Grouped-of_Sorted :
    (op_of : ℕ → ℕ) (x : CallsiteStats) (ps : List CallsiteStats)
    → OneOp op_of (x ∷ ps)
    → Sorted sort_by_name_id_rank (x ∷ ps)
    → Grouped x ps
Grouped-of_Sorted op_of x [] o s = tt
Grouped-of_Sorted op_of x (p ∷ ps) o s = (
  elim (Bool-cases (p.csid == x.csid)) [
    | inl e ↦ inl ((==_iff _ _).0 e)
    | inr e ↦ inr (ne e, returns op_of x p ps o.0 o.1.1 s.0.0 s.1.0 (ne e))
  ],
  Grouped-of_Sorted op_of p ps o.1 s.1,
)
  where
    ne : (p.csid == x.csid) ≡ false → p.csid ≢ x.csid
    ne e c = ground arith
