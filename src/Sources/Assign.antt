-- ===== src/Sources/Assign.antt =====
-- mpiPi.c: what holds of the caches between calls, and the assignment of an id.
use mathlib.Core.Option
use mpi_pv.Prelude.{
  ℕ, ◌+◌, ◌-◌, ◌≤◌, ◌<◌, ◌≡◌, refl, sym, ◌∙◌, ap, ◌↔◌, Ordering, Bool, true, false, Option, none,
  some, List, arith, ◌==◌, if◌then◌else◌, ◌⊎◌, inl, inr, Bool-cases, Option-cases, length, map,
}
use mpi_pv.Hash.{lookup, insert}
use mpi_pv.Hash.Chain.{same, IsKey}
use mpi_pv.Hash.Invariant.{IsValid, insert-IsValid}
use mpi_pv.Hash.Lookup.{lookup-insert, lookup_congr, old_or_new}
use mpi_pv.Hash.Upsert.{hf-insert, hc-insert}
use mpi_pv.Callsite.{mpi_base}
use mpi_pv.Sources.{
  Location, SrcEntry, src_id_cache_comparator, src_id_cache_hashkey, Sources, assign_id,
}
use mpi_pv.Sources.Frames.{
  frame_of, addresses, Described, src_id_cache_comparator_iff, src_id_cache-IsKey,
}
use mpi_pv.Sources.Ids.{describe, IsCache, NonNull, addresses_injective, map-Described}

module _ (find_src_loc : ℕ → Option Location) (do_lookup : Bool) (depth : ℕ) where
  -- A call stack: at most `depth` addresses, none of them NULL.
  abbrev pub IsStack : List ℕ → Type 0
  IsStack s = NonNull s × (length s ≤ depth)

  -- A key for a stack, and what the cache of ids knows of it.
  abbrev pub entry : ℕ → ℕ → List ℕ → SrcEntry
  entry id op s = record {
    id = id;
    op = op;
    frames = map (frame_of (describe find_src_loc do_lookup)) s;
  }

  abbrev pub Good : SrcEntry → Type 0
  Good e = Described (describe find_src_loc do_lookup) e.frames

  abbrev pub id_of : Sources → List ℕ → Option ℕ
  id_of st s = Option.map (λ e. e.id) (lookup st.src_id_cache (entry 0 0 s))

  -- What holds of the two caches between calls.
  pub record IsSources (st : Sources) : Type 0 where
    pub cached : IsCache find_src_loc st.pc_cache
    pub hf : st.src_id_cache.hf ≡ src_id_cache_hashkey depth
    pub hc : st.src_id_cache.hc ≡ src_id_cache_comparator depth
    pub valid : IsValid Good st.src_id_cache
    pub below : (s : List ℕ) (n : ℕ) → id_of st s ≡ some n → n < st.src_id_counter
    pub apart :
        (s t : List ℕ) (n : ℕ)
        → IsStack s
        → IsStack t
        → id_of st s ≡ some n
        → id_of st t ≡ some n
        → s ≡ t

  entry-Good : (id op : ℕ) (s : List ℕ) → Good (entry id op s)
  entry-Good id op s = map-Described (describe find_src_loc do_lookup) s

  entry_iff :
      (id op id' op' : ℕ) (s t : List ℕ)
      → (depth == 0) ≡ false
      → IsStack s
      → IsStack t
      → (same (src_id_cache_comparator depth) (entry id op s) (entry id' op' t) ≡ true) ↔ (s ≡ t)
  entry_iff id op id' op' s t nz is it =
      let (to, from) =
        src_id_cache_comparator_iff (describe find_src_loc do_lookup) depth (entry id op s)
          (entry id' op' t) (entry-Good id op s) (entry-Good id' op' t) in
      (
        λ e.
            let k : ◌≡◌ {A = ℕ × List ℕ} (0, addresses depth 0 (entry id op s).frames)
                (0, addresses depth 0 (entry id' op' t).frames) =
              rw nz at to e in
            addresses_injective (describe find_src_loc do_lookup) depth s t is.0 it.0 is.1 it.1
              (ap (λ (k : ℕ × List ℕ). k.1) k),
        λ e. from (rw (e, nz)),
      )

  laws : (st : Sources) → IsSources st → IsKey st.src_id_cache.hf st.src_id_cache.hc Good
  laws st h = rw (h.hf, h.hc) (src_id_cache-IsKey (describe find_src_loc do_lookup) depth)

  -- The id and the operation of a key are not read.
  lookup-entry :
      (st : Sources) (id op : ℕ) (s : List ℕ)
      → IsSources st
      → (depth == 0) ≡ false
      → IsStack s
      → lookup st.src_id_cache (entry id op s) ≡ lookup st.src_id_cache (entry 0 0 s)
  lookup-entry st id op s h nz is =
      lookup_congr st.src_id_cache h.valid (laws st h) (entry id op s) (entry 0 0 s)
        (entry-Good id op s) (entry-Good 0 0 s)
        (rw (h.hc) ((entry_iff id op 0 0 s s nz is is).1 refl))

  module _ (st : Sources) (h : IsSources st) (nz : (depth == 0) ≡ false) where
    -- A stack that has no id gets the counter's.
    abbrev added : ℕ → List ℕ → Sources
    added op s = record st {
      src_id_cache = (insert st.src_id_cache (entry st.src_id_counter op s)).1;
      src_id_counter = st.src_id_counter + 1;
    }

    module _ (op : ℕ) (s : List ℕ) (is : IsStack s)
        (absent : lookup st.src_id_cache (entry 0 0 s) ≡ none) where
      abbrev new : SrcEntry
      new = entry st.src_id_counter op s

      new_absent : lookup st.src_id_cache new ≡ none
      new_absent = lookup-entry st st.src_id_counter op s h nz is ∙ absent

      abbrev is_new : List ℕ → Bool
      is_new t = same (src_id_cache_comparator depth) new (entry 0 0 t)

      lookup-added :
          (t : List ℕ)
          → lookup (added op s).src_id_cache (entry 0 0 t)
            ≡ (if is_new t then some new else lookup st.src_id_cache (entry 0 0 t))
      lookup-added t =
          (lookup-insert st.src_id_cache h.valid (laws st h) new (entry 0 0 t)
            (entry-Good st.src_id_counter op s) (entry-Good 0 0 t)).0
          ∙ ap
              (λ o.
                if same st.src_id_cache.hc new (entry 0 0 t)
                then some (old_or_new o new)
                else lookup st.src_id_cache (entry 0 0 t))
              new_absent
          ∙ ap
              (λ (c : SrcEntry → SrcEntry → Ordering).
                if same c new (entry 0 0 t) then some new else lookup st.src_id_cache (entry 0 0 t))
              h.hc

      is_new_absent : (t : List ℕ) → is_new t ≡ true → lookup st.src_id_cache (entry 0 0 t) ≡ none
      is_new_absent t e =
          sym (
            lookup_congr st.src_id_cache h.valid (laws st h) new (entry 0 0 t)
              (entry-Good st.src_id_counter op s) (entry-Good 0 0 t) (rw (h.hc) e))
          ∙ new_absent

      -- What the new table knows of a stack: what it knew, or that the stack is the new one.
      added-old : (t : List ℕ) (n : ℕ) → id_of st t ≡ some n → id_of (added op s) t ≡ some n
      added-old t n e = rw (lookup-added t) (ground (arith, e, is_new_absent t))

      added-new : id_of (added op s) s ≡ some st.src_id_counter
      added-new =
          rw (lookup-added s) (rw ((entry_iff st.src_id_counter op 0 0 s s nz is is).1 refl))

      added-either :
          (t : List ℕ) (n : ℕ)
          → id_of (added op s) t ≡ some n
          → (id_of st t ≡ some n) ⊎ ((is_new t ≡ true) × (n ≡ st.src_id_counter))
      added-either t n e = elim (Bool-cases (is_new t)) [
        | inl q ↦
            (let r : some st.src_id_counter ≡ some n = rw (lookup-added t, q) at e in inr (q, cc))
        | inr q ↦ inl (let r = rw (lookup-added t, q) at e in r)
      ]

      added-IsSources : IsSources (added op s)
      added-IsSources = record {
        cached = h.cached;
        hf = hf-insert st.src_id_cache new ∙ h.hf;
        hc = hc-insert st.src_id_cache new ∙ h.hc;
        valid = insert-IsValid st.src_id_cache h.valid new (entry-Good st.src_id_counter op s);
        below = λ t n e. elim (added-either t n e) [
          | inl o ↦ (let b = h.below t n o in omega arith)
          | inr (_, q) ↦ omega (arith, q)
        ];
        apart = λ t u n it iu e f. both t u n it iu (added-either t n e) (added-either u n f);
      }
        where
          is_s : (t : List ℕ) → IsStack t → is_new t ≡ true → s ≡ t
          is_s t it e = (entry_iff st.src_id_counter op 0 0 s t nz is it).0 e

          both :
              (t u : List ℕ) (n : ℕ)
              → IsStack t
              → IsStack u
              → (id_of st t ≡ some n) ⊎ ((is_new t ≡ true) × (n ≡ st.src_id_counter))
              → (id_of st u ≡ some n) ⊎ ((is_new u ≡ true) × (n ≡ st.src_id_counter))
              → t ≡ u
          both t u n it iu (inl e) (inl f) = h.apart t u n it iu e f
          both t u n it iu (inl e) (inr (_, q)) =
              (let b = h.below t n e in absurd (omega (arith, q)))
          both t u n it iu (inr (_, q)) (inl f) =
              (let b = h.below u n f in absurd (omega (arith, q)))
          both t u n it iu (inr (e, _)) (inr (f, _)) = sym (is_s t it e) ∙ is_s u iu f

    -- After a search for an id the stack has that id, and every other stack the id that it had.
    pub assign_id-id_of :
        (op : ℕ) (s : List ℕ)
        → IsStack s
        → let r = assign_id depth op st (entry 0 0 s).frames in
          IsSources r.0
          × (id_of r.0 s ≡ some r.1)
          × ((t : List ℕ) (n : ℕ) → id_of st t ≡ some n → id_of r.0 t ≡ some n)
    unfolding assign_id
    assign_id-id_of op s is =
        elim (Option-cases (lookup st.src_id_cache (entry (op - mpi_base) 0 s))) [
          | inl e ↦
              let absent = sym (lookup-entry st (op - mpi_base) 0 s h nz is) ∙ e in
              rw (e, nz, assign_id)
                (
                  added-IsSources op s is absent,
                  added-new op s is absent,
                  λ t n o. added-old op s is absent t n o,
                )
          | inr (x, e) ↦
              let there = sym (lookup-entry st (op - mpi_base) 0 s h nz is) ∙ e in
              rw (e, assign_id) (h, rw there, λ t n o. o)
        ]
