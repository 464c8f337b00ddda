-- ===== src/Report/Print/Contents.antt =====
-- report.c: which sections the verbose report has, and what it needs.
use mathlib.Core.List.{Perm}
use mpi_pv.Prelude.{
  ℕ, ◌≡◌, ◌≢◌, refl, Bool, true, false, Option, List, [], ◌∷◌, ◌++◌, not, ◌&&◌, ltb, ◌==◌, ap,
  if◌then◌else◌, Ordering,
}
use mpi_pv.Hash.{Run, ok}
use mpi_pv.Hash.Invariant.{IsValid}
use mpi_pv.Hash.Gather.{entries}
use mpi_pv.Callsite.{CallsiteStats}
use mpi_pv.Sources.{SrcEntry}
use mpi_pv.Report.{
  Line, heading, Section, mpi_time_section, callsites_section, aggregate_time_section,
  aggregate_sent_section, aggregate_collective_section, aggregate_pt2pt_section,
  aggregate_io_section, aggregate_rma_section, callsite_time_section, callsite_sent_section,
  callsite_io_section, callsite_rma_section, Report,
}
use mpi_pv.Report.Print.Headings.{headings, headings-append, Plain}
use mpi_pv.Report.Top.{Sort, summarized}
use mpi_pv.Report.Print.{◌then_print◌, when}

-- The sections of the verbose report, by the settings, the totals, and whether `malloc` gives the buffers
-- of the sections of the collective report.
abbrev pub on : Bool → List Section → List Section
on b hs = if b then hs else []

abbrev pub top_sections : Report → List Section
top_sections r =
    let sends = ltb 0 r.totals.global_mpi_size in
    aggregate_time_section
    ∷ (on sends (aggregate_sent_section ∷ [])
        ++ (on r.settings.do_collective_stats_report (on sends (aggregate_collective_section ∷ []))
            ++ (on r.settings.do_pt2pt_stats_report (on sends (aggregate_pt2pt_section ∷ []))
                ++ (on (ltb 0 r.totals.global_mpi_io) (aggregate_io_section ∷ [])
                    ++ on (ltb 0 r.totals.global_mpi_rma) (aggregate_rma_section ∷ [])))))

abbrev pub site_sections : Report → List Section
site_sections r =
    callsite_time_section
    ∷ (on (ltb 0 r.totals.global_mpi_size) (callsite_sent_section ∷ [])
        ++ (on (ltb 0 r.totals.global_mpi_io) (callsite_io_section ∷ [])
            ++ on (ltb 0 r.totals.global_mpi_rma) (callsite_rma_section ∷ [])))

abbrev pub coll_sections : Bool → Report → List Section
coll_sections allocated r =
    on allocated (callsite_time_section ∷ [])
    ++ (on (ltb 0 r.totals.global_mpi_sent_count) (on allocated (callsite_sent_section ∷ []))
        ++ (on (ltb 0 r.totals.global_mpi_io) (on allocated (callsite_io_section ∷ []))
            ++ on (ltb 0 r.totals.global_mpi_rma) (on allocated (callsite_rma_section ∷ []))))

abbrev pub contents : Bool → Report → List Section
contents allocated r =
    let detail = r.settings.print_callsite_detail in
    let collective = r.settings.collective_report in
    mpi_time_section
    ∷ (on detail (on (not (r.settings.stack_depth == 0)) (callsites_section ∷ []))
        ++ (top_sections r
            ++ (on (detail && collective) (coll_sections allocated r)
                ++ on (detail && not collective) (site_sections r))))

-- Lines are written, which begin these sections.
abbrev pub Writes : Run (List Line) → List Section → Type 0
Writes m hs = (l : List Line) × (m ≡ ok l) × (headings l ≡ hs)

pub begins : {s : Section} {ls : List Line} → Plain ls → s ∷ headings ls ≡ s ∷ []
begins {s} p = ap (λ hs. s ∷ hs) p.begins

pub gated :
    (b : Bool) {m : Run (List Line)} {hs : List Section} → Writes m hs → Writes (when b m) (on b hs)
gated true s = s
gated false s = ([], refl, refl)

pub then_Writes :
    {a b : Run (List Line)} {hs ks : List Section}
    → Writes a hs
    → Writes b ks
    → Writes (a then_print b) (hs ++ ks)
then_Writes (l, p, h) (k, q, i) = (l ++ k, rw (p, q) refl, rw (headings-append l k, h, i) refl)

-- A section that needs a buffer
pub buffered :
    (b : Bool) (s : Section) (n : Option ℕ) {ls : List Line}
    → Plain ls
    → headings (if b then heading s n ∷ ls else []) ≡ on b (s ∷ [])
buffered true s n p = begins p
buffered false s n p = refl

-- The invariant of the collector's tables between the merge and the report. The section on the time
-- of each call site needs a record, unless the report is collective.
pub record IsReady (Good GoodAgg : CallsiteStats → Type 0) (GoodSrc : SrcEntry → Type 0)
    (r : Report) : Type 0 where
  pub stats : IsValid Good r.global_callsite_stats
  pub agg : IsValid GoodAgg r.global_callsite_stats_agg
  pub top : IsValid GoodAgg (summarized r)
  pub sources : IsValid GoodSrc r.src_id_cache
  pub some_stats :
      (r.settings.print_callsite_detail && not r.settings.collective_report) ≡ true
      → entries r.global_callsite_stats ≢ []

-- `qsort` reorders its array, in whatever way.
abbrev pub Reorders : Sort → Type 0
Reorders qsort =
    (cmp : CallsiteStats → CallsiteStats → Ordering) (av : List CallsiteStats)
    → Perm (qsort cmp av) av
