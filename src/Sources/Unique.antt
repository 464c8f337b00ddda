-- ===== src/Sources/Unique.antt =====
-- mpiPi.c: one id for each call stack, and one call stack for each id.
use mpi_pv.Prelude.{
  ℕ, ◌≤◌, ◌≡◌, refl, sym, ◌∙◌, ap, ◌↔◌, Bool, false, Option, none, some, List, [], ◌∷◌, ◌==◌,
  some-ne-none,
}
use mpi_pv.Hash.Invariant.{empty_table, h_open-IsValid}
use mpi_pv.Callsite.{CallsiteStats}
use mpi_pv.Sources.{
  pc_cache_hashkey, pc_cache_comparator, Location, query_frames, src_id_cache_comparator,
  src_id_cache_hashkey, Sources, query_src,
}
use mpi_pv.Sources.Ids.{call_stack, Resolved, call_stack-NonNull, query_frames_lem}
use mpi_pv.Sources.Assign.{IsSources, id_of, Good, entry, assign_id-id_of}

module _ (find_src_loc : ℕ → Option Location) (do_lookup : Bool) (depth : ℕ) where
  -- The stack that a record is accounted to.
  abbrev pub stack_of : CallsiteStats → List ℕ
  stack_of p = call_stack depth 0 p.pc

  abbrev pub query : Sources → CallsiteStats → Sources × CallsiteStats
  query st p = query_src find_src_loc depth do_lookup st p

  -- After a query the cache knows the stack of the record by the id that the record got, and every
  -- other stack by the id that it had.
  pub query-id_of :
      (st : Sources) (p : CallsiteStats)
      → IsSources find_src_loc do_lookup depth st
      → (depth == 0) ≡ false
      → let r = query st p in
        IsSources find_src_loc do_lookup depth r.0
        × (id_of find_src_loc do_lookup depth r.0 (stack_of p) ≡ some r.1.csid)
        × ((t : List ℕ) (n : ℕ)
            → id_of find_src_loc do_lookup depth st t ≡ some n
            → id_of find_src_loc do_lookup depth r.0 t ≡ some n)
  unfolding query_src
  query-id_of st p h nz =
      let (cached, same_p, frames) =
        query_frames_lem find_src_loc depth 0 do_lookup st.pc_cache p h.cached in
      let st' = record st {
        pc_cache = (query_frames find_src_loc depth 0 do_lookup st.pc_cache p).0;
      } in
      let h' : IsSources find_src_loc do_lookup depth st' = record {
        cached = cached;
        hf = h.hf;
        hc = h.hc;
        valid = h.valid;
        below = h.below;
        apart = h.apart;
      } in
      rw frames (
        assign_id-id_of find_src_loc do_lookup depth st' h' nz p.op (stack_of p)
          (call_stack-NonNull depth 0 p.pc))

  -- Queries one after the other.
  abbrev pub query_all : Sources → List CallsiteStats → Sources
  query_all st [] = st
  query_all st (p ∷ ps) = query_all (query st p).0 ps

  query_all_lem :
      (ps : List CallsiteStats) (st : Sources)
      → IsSources find_src_loc do_lookup depth st
      → (depth == 0) ≡ false
      → IsSources find_src_loc do_lookup depth (query_all st ps)
        × ((t : List ℕ) (n : ℕ)
            → id_of find_src_loc do_lookup depth st t ≡ some n
            → id_of find_src_loc do_lookup depth (query_all st ps) t ≡ some n)
  query_all_lem [] st h nz = (h, λ t n o. o)
  query_all_lem (p ∷ ps) st h nz =
      let (h', _, old) = query-id_of st p h nz in
      let (h'', kept) = query_all_lem ps (query st p).0 h' nz in
      (h'', λ t n o. kept t n (old t n o))

  -- At a stack depth that is not 0, two records that the collector queries with the same caches, whatever
  -- it queries between them, get one id exactly if they have the same call stack: the same addresses up
  -- to the first NULL and the stack depth.
  pub query-csid :
      (st : Sources) (p : CallsiteStats) (ps : List CallsiteStats) (q : CallsiteStats)
      → IsSources find_src_loc do_lookup depth st
      → (depth == 0) ≡ false
      → let (st₁, p') = query st p in
        let (_, q') = query (query_all st₁ ps) q in (p'.csid ≡ q'.csid) ↔ (stack_of p ≡ stack_of q)
  query-csid st p ps q h nz =
      let (h₁, new, _) = query-id_of st p h nz in
      let (h₂, kept) = query_all_lem ps (query st p).0 h₁ nz in
      let st₂ = query_all (query st p).0 ps in
      let (h₃, got, old) = query-id_of st₂ q h₂ nz in
      let still = old (stack_of p) _ (kept (stack_of p) _ new) in
      (
        λ e.
            h₃.apart (stack_of p) (stack_of q) _ (call_stack-NonNull depth 0 p.pc)
              (call_stack-NonNull depth 0 q.pc) still (got ∙ ap some (sym e)),
        λ e.
            let r : some (query st p).1.csid ≡ some (query st₂ q).1.csid =
              sym still ∙ ap (id_of find_src_loc do_lookup depth (query st₂ q).0) e ∙ got in
            cc,
      )

  -- The caches as the first merge opens them.
  pub opened-IsSources :
      (n : ℕ)
      → 2 ≤ n
      → IsSources find_src_loc do_lookup depth (record {
        pc_cache = empty_table n pc_cache_hashkey pc_cache_comparator;
        src_id_cache = empty_table n (src_id_cache_hashkey depth) (src_id_cache_comparator depth);
        src_id_counter = 1;
      })
  opened-IsSources n h =
      let (_, pcs_valid, _) =
        h_open-IsValid {Good = Resolved find_src_loc} n pc_cache_hashkey pc_cache_comparator h in
      let (_, ids_valid, empty) =
        h_open-IsValid {Good = Good find_src_loc do_lookup depth} n (src_id_cache_hashkey depth)
          (src_id_cache_comparator depth) h in
      record {
        cached = record { hf = refl; hc = refl; valid = pcs_valid };
        hf = refl;
        hc = refl;
        valid = ids_valid;
        below = λ s m e.
            let q : none ≡ some m = rw (empty (entry find_src_loc do_lookup depth 0 0 s)) at e in
            absurd (some-ne-none (sym q));
        apart = λ s t m is it e f.
            let q : none ≡ some m = rw (empty (entry find_src_loc do_lookup depth 0 0 s)) at e in
            absurd (some-ne-none (sym q));
      }
