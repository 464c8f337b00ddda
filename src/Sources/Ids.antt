-- ===== src/Sources/Ids.antt =====
-- mpiPi.c: the id of a call site stands for its call stack.
use mpi_pv.Prelude.{
  ℕ, zero, suc, ◌≤◌, ◌≡◌, refl, sym, ◌∙◌, ap, Ordering, Bool, true, false, Option, none, some, List,
  [], ◌∷◌, arith, get_or, ◌==◌, if◌then◌else◌, inl, inr, Bool-cases, Option-cases, All, length, map,
}
use mpi_pv.Hash.{HashTable, lookup}
use mpi_pv.Hash.Chain.{same, IsKey}
use mpi_pv.Hash.Invariant.{IsValid, insert-IsValid}
use mpi_pv.Hash.Lookup.{lookup_found}
use mpi_pv.Hash.Upsert.{hf-insert, hc-insert}
use mpi_pv.Callsite.{CallsiteStats}
use mpi_pv.Sources.{
  unknown, PcEntry, pc_cache_comparator, pc_cache_hashkey, Location, located, query_pc, query_frame,
  Frame, query_frames, set_frame, Sources, query_src,
}
use mpi_pv.Sources.Frames.{pc_cache_comparator_iff, pc_cache-IsKey, frame_of, addresses, Described}

-- The addresses of a call stack of at most `left` frames, up to the first NULL.
abbrev pub call_stack : ℕ → ℕ → List ℕ → List ℕ
call_stack zero i pc = []
call_stack (suc left) i pc =
    let rest = call_stack left (suc i) pc in if get_or pc i 0 == 0 then [] else get_or pc i 0 ∷ rest

cons_congr {ℓ} : {A : Type ℓ} {x y : A} {xs ys : List A} → x ≡ y → xs ≡ ys → x ∷ xs ≡ y ∷ ys
cons_congr p q = cc

-- No address of a stack is NULL.
abbrev pub NonNull : List ℕ → Type 0
NonNull = All (λ a. (a == 0) ≡ false)

pub call_stack-NonNull :
    (left i : ℕ) (pc : List ℕ)
    → NonNull (call_stack left i pc) × (length (call_stack left i pc) ≤ left)
call_stack-NonNull zero i pc = (tt, omega arith)
call_stack-NonNull (suc left) i pc =
    let (nn, short) = call_stack-NonNull left (suc i) pc in
    elim (Bool-cases (get_or pc i 0 == 0)) [
      | inl e ↦ rw e (tt, omega arith)
      | inr e ↦ rw e ((e, nn), omega (arith, short))
    ]

addresses-shift :
    (left i : ℕ) (f : Frame) (fs : List Frame)
    → addresses left (suc i) (f ∷ fs) ≡ addresses left i fs
addresses-shift zero i f fs = refl
addresses-shift (suc left) i f fs = cons_congr refl (addresses-shift left (suc i) f fs)

frame_of-pc : (d : ℕ → PcEntry) (pc : ℕ) → (frame_of d pc).pc ≡ pc
frame_of-pc d pc = ground arith

pub map-Described : (d : ℕ → PcEntry) (s : List ℕ) → Described d (map (frame_of d) s)
map-Described d [] i = refl
map-Described d (a ∷ s) zero = rw (frame_of-pc d a)
map-Described d (a ∷ s) (suc i) = map-Described d s i

abbrev first : List ℕ → ℕ
first [] = 0
first (a ∷ s) = a

abbrev others : List ℕ → List ℕ
others [] = []
others (a ∷ s) = s

-- The addresses that a comparator reads determine the stack.
pub addresses_injective :
    (d : ℕ → PcEntry) (left : ℕ) (s t : List ℕ)
    → NonNull s
    → NonNull t
    → length s ≤ left
    → length t ≤ left
    → addresses left 0 (map (frame_of d) s) ≡ addresses left 0 (map (frame_of d) t)
    → s ≡ t
addresses_injective d left [] [] ns nt ls lt e = refl
addresses_injective d zero (a ∷ s) t ns nt ls lt e = absurd (omega arith)
addresses_injective d zero [] (b ∷ t) ns nt ls lt e = absurd (omega arith)
addresses_injective d (suc left) [] (b ∷ t) ns nt ls lt e =
    let h : 0 ≡ b = ap first e ∙ frame_of-pc d b in let z = nt.0 in ground arith
addresses_injective d (suc left) (a ∷ s) [] ns nt ls lt e =
    let h : a ≡ 0 = sym (frame_of-pc d a) ∙ ap first e in let z = ns.0 in ground arith
addresses_injective d (suc left) (a ∷ s) (b ∷ t) ns nt ls lt e =
    let h : a ≡ b = sym (frame_of-pc d a) ∙ ap first e ∙ frame_of-pc d b in
    let r : addresses left 0 (map (frame_of d) s) ≡ addresses left 0 (map (frame_of d) t) =
      sym (addresses-shift left 0 (frame_of d a) (map (frame_of d) s))
      ∙ ap others e
      ∙ addresses-shift left 0 (frame_of d b) (map (frame_of d) t) in
    cons_congr h
      (addresses_injective d left s t ns.1 nt.1 (omega (arith, ls)) (omega (arith, lt)) r)

module _ (find_src_loc : ℕ → Option Location) where
  -- What an address is described by.
  abbrev pub describe : Bool → ℕ → PcEntry
  describe do_lookup pc =
      if do_lookup
      then located pc (find_src_loc pc)
      else record { pc = pc; filename = unknown; functname = unknown; line = 0 }

  -- A cached entry says what a lookup of its address would say.
  abbrev pub Resolved : PcEntry → Type 0
  Resolved e = e ≡ located e.pc (find_src_loc e.pc)

  pub record IsCache (cache : HashTable PcEntry) : Type 0 where
    pub hf : cache.hf ≡ pc_cache_hashkey
    pub hc : cache.hc ≡ pc_cache_comparator
    pub valid : IsValid Resolved cache

  located-pc : (pc : ℕ) (o : Option Location) → (located pc o).pc ≡ pc
  unfolding located
  located-pc pc none = refl
  located-pc pc (some l) = refl

  found :
      (cache : HashTable PcEntry) (key x : PcEntry)
      → IsCache cache
      → lookup cache key ≡ some x
      → x ≡ located key.pc (find_src_loc key.pc)
  found cache key x h e =
      let laws : IsKey cache.hf cache.hc Resolved = rw (h.hf, h.hc) (pc_cache-IsKey Resolved) in
      let (good, one) = lookup_found cache h.valid laws key x e in
      let one' : same pc_cache_comparator x key ≡ true =
        ap (λ (c : PcEntry → PcEntry → Ordering). same c x key) (sym h.hc) ∙ one in
      good ∙ ap (λ n. located n (find_src_loc n)) ((pc_cache_comparator_iff x key).0 one')

  -- A lookup through the cache gives what a lookup without it gives, and leaves the cache such that
  -- this stays so.
  pub query_pc-located :
      (cache : HashTable PcEntry) (pc : ℕ)
      → IsCache cache
      → ((query_pc find_src_loc cache pc).1 ≡ located pc (find_src_loc pc))
        × IsCache (query_pc find_src_loc cache pc).0
  unfolding query_pc
  query_pc-located cache pc h =
      let key : PcEntry = record { pc = pc; filename = []; functname = []; line = 0 } in
      elim (Option-cases (lookup cache key)) [
        | inl e ↦
            let new = located pc (find_src_loc pc) in
            let q = located-pc pc (find_src_loc pc) in
            let good : Resolved new = ap (λ n. located n (find_src_loc n)) (sym q) in
            rw (e, query_pc)
              (
                refl,
                record {
                  hf = hf-insert cache new ∙ h.hf;
                  hc = hc-insert cache new ∙ h.hc;
                  valid = insert-IsValid cache h.valid new good;
                },
              )
        | inr (x, e) ↦ rw (e, query_pc) (found cache key x h e, h)
      ]

  query_frame_lem :
      (do_lookup : Bool) (cache : HashTable PcEntry) (pc : ℕ)
      → IsCache cache
      → ((query_frame find_src_loc do_lookup cache pc).1 ≡ describe do_lookup pc)
        × IsCache (query_frame find_src_loc do_lookup cache pc).0
  unfolding query_frame
  query_frame_lem true cache pc h = query_pc-located cache pc h
  query_frame_lem false cache pc h = (refl, h)

  framed :
      (do_lookup : Bool) (pc : ℕ) (e : PcEntry)
      → (pc == 0) ≡ false
      → e ≡ describe do_lookup pc
      → ◌≡◌ {A = Frame}
          (record { filename = some e.filename; functname = e.functname; line = e.line; pc = pc })
          (frame_of (describe do_lookup) pc)
  framed do_lookup pc e nz q =
      ap
        (λ (d : PcEntry). record {
          filename = some d.filename;
          functname = d.functname;
          line = d.line;
          pc = pc;
        })
        q
      ∙ rw nz

  -- The frames of a key are those of the addresses of the call stack, and of the record only what
  -- describes its source is changed.
  pub query_frames_lem :
      (left i : ℕ) (do_lookup : Bool) (cache : HashTable PcEntry) (p : CallsiteStats)
      → IsCache cache
      → let r = query_frames find_src_loc left i do_lookup cache p in
        IsCache r.0
        × (r.1
            ≡ record p { filename = r.1.filename; functname = r.1.functname; lineno = r.1.lineno })
        × (r.2 ≡ map (frame_of (describe do_lookup)) (call_stack left i p.pc))
  unfolding query_frames
  query_frames_lem zero i do_lookup cache p h = (h, refl, refl)
  query_frames_lem (suc left) i do_lookup cache p h = elim (Bool-cases (get_or p.pc i 0 == 0)) [
    | inl e ↦ rw e (h, refl, refl)
    | inr e ↦
        let (one, h') = query_frame_lem do_lookup cache (get_or p.pc i 0) h in
        let q = query_frame find_src_loc do_lookup cache (get_or p.pc i 0) in
        let (h'', same_p, frames) =
          query_frames_lem left (suc i) do_lookup q.0 (set_frame find_src_loc i q.1 p) h' in
        rw e (h'', same_p, cons_congr (framed do_lookup (get_or p.pc i 0) q.1 e one) frames)
  ]

  -- A query changes of a record only its id and what describes its source.
  query_frames-same :
      (left i : ℕ) (do_lookup : Bool) (cache : HashTable PcEntry) (p : CallsiteStats)
      → let r = query_frames find_src_loc left i do_lookup cache p in
        r.1 ≡ record p { filename = r.1.filename; functname = r.1.functname; lineno = r.1.lineno }
  unfolding query_frames
  query_frames-same zero i do_lookup cache p = refl
  query_frames-same (suc left) i do_lookup cache p =
      let q = query_frame find_src_loc do_lookup cache (get_or p.pc i 0) in
      let same_p = query_frames-same left (suc i) do_lookup q.0 (set_frame find_src_loc i q.1 p) in
      elim (Bool-cases (get_or p.pc i 0 == 0)) [ inl e ↦ rw e refl | inr e ↦ rw e same_p ]

  pub query_src-same :
      (depth : ℕ) (do_lookup : Bool) (st : Sources) (p : CallsiteStats)
      → let q = (query_src find_src_loc depth do_lookup st p).1 in
        q ≡ record p {
          csid = q.csid;
          filename = q.filename;
          functname = q.functname;
          lineno = q.lineno;
        }
  unfolding query_src
  query_src-same depth do_lookup st p =
      ap
        (λ (q : CallsiteStats). record q {
          csid = (query_src find_src_loc depth do_lookup st p).1.csid;
        })
        (query_frames-same depth 0 do_lookup st.pc_cache p)
