-- ===== src/Merge/Sites.antt =====
-- mpiPi.c: which records the collector merges into one.
use mpi_pv.Prelude.{
  ℕ, ◌≡◌, refl, ap, ◌∙◌, sym, ◌↔◌, true, false, Option, some, List, [], ◌∷◌, ◌==◌, All, All-map,
  arith,
}
use mpi_pv.State.{Settings}
use mpi_pv.Hash.Chain.{same}
use mpi_pv.Callsite.{CallsiteStats, src_id_comparator}
use mpi_pv.Callsite.Keys.{src_id_comparator_iff}
use mpi_pv.Sources.{Location}
use mpi_pv.Sources.Ids.{call_stack, call_stack-NonNull, query_src-same}
use mpi_pv.Sources.Assign.{IsSources, IsStack, id_of}
use mpi_pv.Sources.Unique.{query-id_of}
use mpi_pv.Merge.{Collector, query, insert_queried, insert_callsite_records, insert_all}

module _ (find_src_loc : ℕ → Option Location) where
  -- Each inserted record, and the record that `mpiPi_query_src` makes of it.
  abbrev pub pairs : List CallsiteStats → Collector → List (CallsiteStats × CallsiteStats)
  pairs [] c = []
  pairs (p ∷ ps) c =
      (p, (query find_src_loc p c).1) ∷ pairs ps (insert_callsite_records find_src_loc p c)

  abbrev pub stack_at : Collector → CallsiteStats → List ℕ
  stack_at c p = call_stack c.settings.stack_depth 0 p.pc

  -- The caches of the collector are as its settings want them.
  abbrev pub IsReady : Collector → Type 0
  IsReady c = IsSources find_src_loc c.settings.do_lookup c.settings.stack_depth c.sources

  abbrev pub known_as : Collector → List ℕ → Option ℕ
  known_as c s = id_of find_src_loc c.settings.do_lookup c.settings.stack_depth c.sources s

  pairs-known :
      (ps : List CallsiteStats) (c : Collector)
      → IsReady c
      → (c.settings.stack_depth == 0) ≡ false
      → let d = insert_all find_src_loc ps c in
        IsReady d
        × (d.settings ≡ c.settings)
        × ((t : List ℕ) (n : ℕ) → known_as c t ≡ some n → known_as d t ≡ some n)
        × All (λ r. (r.1.op ≡ r.0.op) × (known_as d (stack_at c r.0) ≡ some r.1.csid)) (pairs ps c)
  unfolding insert_all insert_callsite_records insert_queried
  pairs-known [] c h nz = (h, refl, λ t n e. e, tt)
  pairs-known (p ∷ ps) c h nz =
      let (h', new, old) =
        query-id_of find_src_loc c.settings.do_lookup c.settings.stack_depth c.sources p h nz in
      let (h'', settings, kept, all) =
        pairs-known ps (insert_callsite_records find_src_loc p c) h' nz in
      let same_p =
        query_src-same find_src_loc c.settings.stack_depth c.settings.do_lookup c.sources p in
      (
        h'',
        settings,
        λ t n e. kept t n (old t n e),
        ((ap (λ (q : CallsiteStats). q.op) same_p, kept (stack_at c p) _ new), all),
      )

  -- From caches that are as the settings want them, and at a stack depth that is not 0: of all records
  -- that are inserted, two are merged into one record of all ranks exactly if they are of the same
  -- operation and have the same call stack up to the first NULL and the depth.
  pub one_record_iff :
      (ps : List CallsiteStats) (c : Collector)
      → IsReady c
      → (c.settings.stack_depth == 0) ≡ false
      → All
          (λ a.
            All
              (λ b.
                (same src_id_comparator a.1 b.1 ≡ true)
                ↔ ((a.0.op ≡ b.0.op) × (stack_at c a.0 ≡ stack_at c b.0)))
              (pairs ps c))
          (pairs ps c)
  one_record_iff ps c h nz =
      let d = insert_all find_src_loc ps c in
      let (ready, settings, _, all) = pairs-known ps c h nz in
      All-map
        (λ a ka.
          All-map (λ b kb. one_site c d ready settings a.0 a.1 b.0 b.1 ka kb) (pairs ps c) all)
        (pairs ps c) all
    where
      is_stack :
          (c d : Collector) (p : CallsiteStats)
          → d.settings ≡ c.settings
          → IsStack find_src_loc d.settings.do_lookup d.settings.stack_depth (stack_at c p)
      is_stack c d p e =
          let (nn, short) = call_stack-NonNull c.settings.stack_depth 0 p.pc in
          (nn, omega (arith, short, ap (λ (s : Settings). s.stack_depth) e))

      one_site :
          (c d : Collector)
          → IsReady d
          → d.settings ≡ c.settings
          → (p p' q q' : CallsiteStats)
          → (p'.op ≡ p.op) × (known_as d (stack_at c p) ≡ some p'.csid)
          → (q'.op ≡ q.op) × (known_as d (stack_at c q) ≡ some q'.csid)
          → (same src_id_comparator p' q' ≡ true) ↔ ((p.op ≡ q.op) × (stack_at c p ≡ stack_at c q))
      one_site c d ready e p p' q q' (op, known) (op', known') =
          let (to, from) = src_id_comparator_iff p' q' in
          (
            λ s.
                let k = to s in
                let csid : p'.csid ≡ q'.csid = ap (λ (k : ℕ × ℕ). k.1) k in
                (
                  sym op ∙ ap (λ (k : ℕ × ℕ). k.0) k ∙ op',
                  ready.apart (stack_at c p) (stack_at c q) q'.csid (is_stack c d p e)
                      (is_stack c d q e) (known ∙ ap some csid) known',
                ),
            λ both.
                let r : some p'.csid ≡ some q'.csid = sym known ∙ ap (known_as d) both.1 ∙ known' in
                let csid : p'.csid ≡ q'.csid = cc in
                let o : p'.op ≡ q'.op = op ∙ both.0 ∙ sym op' in from (rw (o, csid)),
          )
