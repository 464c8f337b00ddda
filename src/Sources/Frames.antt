-- ===== src/Sources/Frames.antt =====
-- mpiPi.c: what the comparators and hash functions of the two caches tell apart.
use mpi_pv.Prelude.{
  ℕ, zero, suc, ◌≡◌, refl, sym, ◌∙◌, ap, ◌↔◌, Ordering, true, false, some, List, [], ◌∷◌, arith,
  get_or, bit_xor, ◌==◌, if◌then◌else◌, inl, inr, Bool-cases,
}
use mpi_pv.Hash.{is_zero}
use mpi_pv.Hash.Chain.{same, IsKey}
use mpi_pv.Callsite.{express}
use mpi_pv.Callsite.Keys.{IsKey_of_key, express_zero}
use mpi_pv.Sources.{
  strcmp, PcEntry, pc_cache_comparator, pc_cache_hashkey, Frame, no_frame, SrcEntry, compare_frame,
  compare_frames, src_id_cache_comparator, xor_frames, src_id_cache_hashkey,
}

pub pc_cache_comparator_iff :
    (a b : PcEntry) → (same pc_cache_comparator a b ≡ true) ↔ (a.pc ≡ b.pc)
unfolding pc_cache_comparator express
pc_cache_comparator_iff a b = ground arith

pub pc_cache-IsKey : (Good : PcEntry → Type 0) → IsKey pc_cache_hashkey pc_cache_comparator Good
unfolding pc_cache_hashkey
pc_cache-IsKey Good =
    IsKey_of_key (λ e. e.pc) (λ a b _ _. pc_cache_comparator_iff a b) (λ a b _ _ e. rw e)

strcmp_refl : (a : List ℕ) → strcmp a a ≡ Ordering.eq
unfolding strcmp express
strcmp_refl [] = refl
strcmp_refl (a ∷ xs) = ground (arith, strcmp_refl xs)

-- The frame that the address `pc` has: none for NULL.
abbrev pub frame_of : (ℕ → PcEntry) → ℕ → Frame
frame_of describe pc = if pc == 0 then no_frame else record {
  filename = some (describe pc).filename;
  functname = (describe pc).functname;
  line = (describe pc).line;
  pc = pc;
}

-- The addresses of the first frames.
abbrev pub addresses : ℕ → ℕ → List Frame → List ℕ
addresses zero i fs = []
addresses (suc left) i fs = (get_or fs i no_frame).pc ∷ addresses left (suc i) fs

module _ (describe : ℕ → PcEntry) where
  compare_frame-frame_of :
      (a b : ℕ) (r : Ordering)
      → (is_zero (compare_frame (frame_of describe a) (frame_of describe b) r) ≡ true)
        ↔ ((a ≡ b) × (is_zero r ≡ true))
  unfolding compare_frame express
  compare_frame-frame_of a b r = ground (
    arith,
    strcmp_refl (describe a).filename,
    strcmp_refl (describe a).functname,
    ap (λ n. (describe n).filename),
    ap (λ n. (describe n).functname),
    ap (λ n. (describe n).line),
  )

  -- Every frame is the one of its address.
  abbrev pub Described : List Frame → Type 0
  Described fs = (i : ℕ) → get_or fs i no_frame ≡ frame_of describe (get_or fs i no_frame).pc

  compare_frame_iff :
      (f g : Frame) (r : Ordering)
      → f ≡ frame_of describe f.pc
      → g ≡ frame_of describe g.pc
      → (is_zero (compare_frame f g r) ≡ true) ↔ ((f.pc ≡ g.pc) × (is_zero r ≡ true))
  compare_frame_iff f g r df dg =
      let e : is_zero (compare_frame f g r)
          ≡ is_zero (compare_frame (frame_of describe f.pc) (frame_of describe g.pc) r) =
        ap (λ x. is_zero (compare_frame x g r)) df
        ∙ ap (λ y. is_zero (compare_frame (frame_of describe f.pc) y r)) dg in
      let (to, from) = compare_frame-frame_of f.pc g.pc r in (λ h. to (sym e ∙ h), λ h. e ∙ from h)

  compare_frames_iff :
      (left i : ℕ) (fs gs : List Frame)
      → Described fs
      → Described gs
      → (is_zero (compare_frames left i fs gs) ≡ true) ↔ (addresses left i fs ≡ addresses left i gs)
  unfolding compare_frames
  compare_frames_iff zero i fs gs df dg = (λ e. refl, λ e. refl)
  compare_frames_iff (suc left) i fs gs df dg =
      let step =
        compare_frame_iff (get_or fs i no_frame) (get_or gs i no_frame)
          (compare_frames left (suc i) fs gs) (df i) (dg i) in
      let rest = compare_frames_iff left (suc i) fs gs df dg in
      (
        λ e. let (h, t) = step.0 e in let r = rest.0 t in cc,
        λ e.
            let h : (get_or fs i no_frame).pc ≡ (get_or gs i no_frame).pc = cc in
            let t : addresses left (suc i) fs ≡ addresses left (suc i) gs = cc in
            step.1 (h, rest.1 t),
      )

  xor_frames_congr :
      (left i : ℕ) (fs gs : List Frame) (r : ℕ)
      → Described fs
      → Described gs
      → addresses left i fs ≡ addresses left i gs
      → xor_frames left i fs r ≡ xor_frames left i gs r
  unfolding xor_frames
  xor_frames_congr zero i fs gs r df dg e = refl
  xor_frames_congr (suc left) i fs gs r df dg e =
      let h : (get_or fs i no_frame).pc ≡ (get_or gs i no_frame).pc = cc in
      let t : addresses left (suc i) fs ≡ addresses left (suc i) gs = cc in
      let f : get_or fs i no_frame ≡ get_or gs i no_frame =
        df i ∙ ap (frame_of describe) h ∙ sym (dg i) in
      rw f (xor_frames_congr left (suc i) fs gs _ df dg t)

  -- What tells two entries apart: the id at depth 0, and else the addresses.
  abbrev pub entry_key : ℕ → SrcEntry → ℕ × List ℕ
  entry_key depth e = if depth == 0 then (e.id, []) else (0, addresses depth 0 e.frames)

  pub src_id_cache_comparator_iff :
      (depth : ℕ) (a b : SrcEntry)
      → Described a.frames
      → Described b.frames
      → (same (src_id_cache_comparator depth) a b ≡ true) ↔ (entry_key depth a ≡ entry_key depth b)
  unfolding src_id_cache_comparator
  src_id_cache_comparator_iff depth a b da db = elim (Bool-cases (depth == 0)) [
    | inl e ↦ rw e (id_iff a b)
    | inr e ↦
        let (to, from) = compare_frames_iff depth 0 a.frames b.frames da db in
        rw e (
          λ h. ap (λ s. (0, s)) (to h),
          λ h. from (
              let t : addresses depth 0 a.frames ≡ addresses depth 0 b.frames =
                ap (λ (k : ℕ × List ℕ). k.1) h in
              t),
        )
  ]
    where
      id_iff :
          (a b : SrcEntry)
          → (is_zero (express a.id b.id Ordering.eq) ≡ true)
            ↔ (◌≡◌ {A = ℕ × List ℕ} (a.id, []) (b.id, []))
      id_iff a b =
          let (to, from) = express_zero a.id b.id Ordering.eq in
          (λ h. ap (λ n. (n, [])) (to h).0, λ h. from (ap (λ (k : ℕ × List ℕ). k.0) h, refl))

  hash_congr :
      (depth : ℕ) (a b : SrcEntry)
      → Described a.frames
      → Described b.frames
      → entry_key depth a ≡ entry_key depth b
      → src_id_cache_hashkey depth a ≡ src_id_cache_hashkey depth b
  unfolding src_id_cache_hashkey
  hash_congr zero a b da db e = unfold xor_frames in refl
  hash_congr (suc d) a b da db e =
      let z : (suc d == 0) ≡ false = ground arith in
      let k : ◌≡◌ {A = ℕ × List ℕ} (0, addresses (suc d) 0 a.frames)
          (0, addresses (suc d) 0 b.frames) =
        rw z at e in
      ap (bit_xor 662917)
        (xor_frames_congr (suc d) 0 a.frames b.frames 0 da db (ap (λ (k : ℕ × List ℕ). k.1) k))

  -- The cache of ids has a hash function and a comparator that agree, on entries that describe the
  -- frames of their addresses.
  pub src_id_cache-IsKey :
      (depth : ℕ)
      → IsKey (src_id_cache_hashkey depth) (src_id_cache_comparator depth) (λ e. Described e.frames)
  src_id_cache-IsKey depth =
      IsKey_of_key (entry_key depth) (src_id_cache_comparator_iff depth)
        (λ a b da db e. hash_congr depth a b da db e)
