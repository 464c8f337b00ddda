-- ===== src/Stack/Walk.antt =====
-- record_stack.c: which addresses are stored, and where.
use mpi_pv.Prelude.{
  ℕ, zero, suc, ◌+◌, ◌≤◌, ◌≡◌, refl, ap, ◌∙◌, Bool, true, false, Option, List, [], ◌∷◌, ◌++◌, arith,
  if◌then◌else◌, set, map, min, length, ◌&&◌,
}
use mathlib.Core.List.{append_assoc}
use mpi_pv.Stack.{drop, called_from, record_frames, record_trace_back}

-- The first `n` members, and NULL for those that are missing.
abbrev pub padded : ℕ → List ℕ → List ℕ
padded zero xs = []
padded (suc n) [] = 0 ∷ padded n []
padded (suc n) (x ∷ xs) = x ∷ padded n xs

set-append :
    (front : List ℕ) (a v : ℕ) (rest : List ℕ)
    → set (front ++ (a ∷ rest)) (length front) v ≡ (front ++ (v ∷ [])) ++ rest
set-append [] a v rest = refl
set-append (x ∷ front) a v rest = ap (λ xs. x ∷ xs) (set-append front a v rest)

length-snoc : (front : List ℕ) (v : ℕ) → length (front ++ (v ∷ [])) ≡ suc (length front)
length-snoc [] v = refl
length-snoc (x ∷ front) v = ap suc (length-snoc front v)

-- The frames that the cursor still reaches.
abbrev reached : Bool → List (Option ℕ) → List (Option ℕ)
reached true frames = frames
reached false frames = []

pair_congr : {m n : ℕ} {xs ys : List ℕ} → m ≡ n → xs ≡ ys → ◌≡◌ {A = ℕ × List ℕ} (m, xs) (n, ys)
pair_congr p q = cc

one_round :
    (left : ℕ) (valid : Bool) (frames : List (Option ℕ)) (n : ℕ) (front : List ℕ) (a v : ℕ)
    (rest : List ℕ)
    → record_frames left
        (suc (length front))
        valid
        frames
        n
        (set (front ++ (a ∷ rest)) (length front) v)
      ≡ record_frames left (length (front ++ (v ∷ []))) valid frames n ((front ++ (v ∷ [])) ++ rest)
one_round left valid frames n front a v rest = rw (set-append front a v rest, length-snoc front v)

record_frames_lem :
    (left : ℕ) (valid : Bool) (frames : List (Option ℕ)) (n : ℕ) (front rest : List ℕ)
    → left ≤ length rest
    → record_frames left (length front) valid frames n (front ++ rest) ≡ (
      n + min left (length (reached valid frames)),
      front ++ (padded left (map called_from (reached valid frames)) ++ drop left rest),
    )
unfolding record_frames
record_frames_lem zero valid frames n front rest h = pair_congr (omega arith) refl
record_frames_lem (suc left) valid frames n front [] h = absurd (omega arith)
record_frames_lem (suc left) true (f ∷ frames) n front (a ∷ rest) h =
    one_round left true frames (n + 1) front a (called_from f) rest
    ∙ record_frames_lem left true frames (n + 1) (front ++ ((called_from f) ∷ [])) rest
        (omega (arith, h))
    ∙ pair_congr (omega arith) (append_assoc front ((called_from f) ∷ []) _)
record_frames_lem (suc left) true [] n front (a ∷ rest) h =
    one_round left false [] n front a 0 rest
    ∙ record_frames_lem left false [] n (front ++ (0 ∷ [])) rest (omega (arith, h))
    ∙ pair_congr (omega arith) (append_assoc front (0 ∷ []) _)
record_frames_lem (suc left) false frames n front (a ∷ rest) h =
    one_round left false frames n front a 0 rest
    ∙ record_frames_lem left false frames n (front ++ (0 ∷ [])) rest (omega (arith, h))
    ∙ pair_congr (omega arith) (append_assoc front (0 ∷ []) _)

-- With a stack depth that the array has room for, the array gets, in order, the address before that to
-- which each frame returns, from the first frame outside the profiler on, then NULL up to the depth,
-- and is left as it was after that; the result is the number of the frames. If the walk cannot be
-- started, nothing is stored.
pub record_trace_back-frames :
    (in_api getcontext init_local : Bool) (frames : List (Option ℕ)) (max_back : ℕ)
    (pc_array : List ℕ)
    → max_back ≤ length pc_array
    → record_trace_back in_api getcontext init_local frames max_back pc_array ≡ (
        if getcontext && init_local
        then (let user = drop (if in_api then 1 else 2) frames in
            (
              min max_back (length user),
              padded max_back (map called_from user) ++ drop max_back pc_array,
            ))
        else (0, pc_array))
unfolding record_trace_back
record_trace_back-frames in_api false init_local frames max_back pc_array h = refl
record_trace_back-frames in_api true false frames max_back pc_array h = refl
record_trace_back-frames in_api true true frames max_back pc_array h =
    record_frames_lem max_back true (drop (if in_api then 1 else 2) frames) 0 [] pc_array h
    ∙ pair_congr (omega arith) refl
