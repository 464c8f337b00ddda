-- ===== src/Stack.antt =====
-- record_stack.c: `mpiPi_RecordTraceBack` on libunwind.
-- Each successful `unw_step` brings the cursor to the next frame of a list, for which `unw_get_reg`
-- gives the instruction pointer or `none` if it fails; past the end of the list `unw_step` fails.
pub mod Walk
use mpi_pv.Prelude.{
  ℕ, zero, suc, ◌+◌, ◌-◌, ◌%◌, ◌^◌, Bool, true, false, Option, none, some, List, [], ◌∷◌,
  if◌then◌else◌, set,
}

abbrev pub drop {ℓ} : {A : Type ℓ} → ℕ → List A → List A
drop zero xs = xs
drop (suc n) [] = []
drop (suc n) (x ∷ xs) = drop n xs

-- `(char *) pc - 1` on 64-bit addresses, or NULL
abbrev pub called_from : Option ℕ → ℕ
called_from none = 0
called_from (some pc) = (pc + (2 ^ 64 - 1)) % 2 ^ 64

-- `for (i = 0, valid_cursor = 1; i < max_back; i++)`, with the rounds left first: `frame_count` and
-- `pc_array`
unfoldable pub record_frames : ℕ → ℕ → Bool → List (Option ℕ) → ℕ → List ℕ → ℕ × List ℕ
record_frames zero i valid_cursor frames frame_count pc_array = (frame_count, pc_array)
record_frames (suc left) i true (f ∷ frames) frame_count pc_array =
    record_frames left (suc i) true frames (frame_count + 1) (set pc_array i (called_from f))
record_frames (suc left) i true [] frame_count pc_array =
    record_frames left (suc i) false [] frame_count (set pc_array i 0)
record_frames (suc left) i false frames frame_count pc_array =
    record_frames left (suc i) false frames frame_count (set pc_array i 0)

-- `getcontext` and `init_local` tell whether `unw_getcontext` and `unw_init_local` succeed.
unfoldable pub record_trace_back : Bool → Bool → Bool → List (Option ℕ) → ℕ → List ℕ → ℕ × List ℕ
record_trace_back in_api getcontext init_local frames max_back pc_array =
    let parent_frame_start = if in_api then 1 else 2 in
    if getcontext
    then (if init_local
        then record_frames max_back 0 true (drop parent_frame_start frames) 0 pc_array
        else (0, pc_array))
    else (0, pc_array)
