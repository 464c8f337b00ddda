-- ===== src/Sources.antt =====
-- mpiPi.c: the two caches by which the collector finds the source of an address and gives a call
-- stack its id: `mpiPi_query_pc` and `mpiPi_query_src`.
-- `mpiP_find_src_loc`, which asks the BFD library, is a function from an address to the location that
-- it stores, or to `none` where it does not return 0. The parallel arrays of an entry are one list
-- of frames; what is past its end is zero, as `bzero` leaves it.
pub mod Frames
pub mod Ids
pub mod Assign
pub mod Unique
use mpi_pv.Prelude.{
  ℕ, zero, suc, ◌+◌, ◌-◌, ◌%◌, ◌^◌, bit_xor, Ordering, compare, Bool, true, false, Option, none,
  some, List, [], ◌∷◌, ltb, ◌==◌, if◌then◌else◌, get_or, set,
}
use mpi_pv.Hash.{HashTable, lookup, insert}
use mpi_pv.Callsite.{Text, CallsiteStats, mpi_base, to_unsigned, express}

-- "[unknown]" and "??"
abbrev pub unknown : Text
unknown = 0x5b ∷ 0x75 ∷ 0x6e ∷ 0x6b ∷ 0x6e ∷ 0x6f ∷ 0x77 ∷ 0x6e ∷ 0x5d ∷ []

abbrev pub question_marks : Text
question_marks = 0x3f ∷ 0x3f ∷ []

-- `strcmp`, on the bytes before the final 0
unfoldable pub strcmp : Text → Text → Ordering
strcmp [] [] = Ordering.eq
strcmp [] (b ∷ ys) = Ordering.lt
strcmp (a ∷ xs) [] = Ordering.gt
strcmp (a ∷ xs) (b ∷ ys) = express a b (strcmp xs ys)

-- `callsite_pc_cache_entry_t`
pub record PcEntry : Type 0 where
  pub pc : ℕ
  pub filename : Text
  pub functname : Text
  pub line : ℕ

unfoldable pub pc_cache_comparator : PcEntry → PcEntry → Ordering
pc_cache_comparator cs1 cs2 = express cs1.pc cs2.pc Ordering.eq

unfoldable pub pc_cache_hashkey : PcEntry → ℕ
pc_cache_hashkey cs1 = to_unsigned (bit_xor 662917 cs1.pc)

-- What `mpiP_find_src_loc` stores: a file and a function, or NULL, and a line.
pub record Location : Type 0 where
  pub filename : Option Text
  pub functname : Option Text
  pub lineno : ℕ

abbrev is_unknown : Text → Bool
is_unknown name = elim (strcmp name question_marks) [ Ordering.eq ↦ true | _ ↦ false ]

unfoldable pub known_file : Option Text → Text
known_file none = unknown
known_file (some name) = if is_unknown name then unknown else name

unfoldable pub known_function : Option Text → Text
known_function none = unknown
known_function (some name) = name

-- The entry that is made for an address.
unfoldable pub located : ℕ → Option Location → PcEntry
located pc none = record { pc = pc; filename = unknown; functname = unknown; line = 0 }
located pc (some l) = record {
  pc = pc;
  filename = known_file l.filename;
  functname = known_function l.functname;
  line = l.lineno;
}

-- One stack frame of a `callsite_src_id_cache_entry_t`
pub record Frame : Type 0 where
  pub filename : Option Text
  pub functname : Text
  pub line : ℕ
  pub pc : ℕ

abbrev pub no_frame : Frame
no_frame = record { filename = none; functname = []; line = 0; pc = 0 }

pub record SrcEntry : Type 0 where
  pub id : ℕ
  pub op : ℕ
  pub frames : List Frame

-- The body of the comparator's loop, with what follows it
unfoldable pub compare_frame : Frame → Frame → Ordering → Ordering
compare_frame f g rest = elim f.filename [
  | none ↦ express f.pc g.pc rest
  | some a ↦ elim g.filename [
    | none ↦ express f.pc g.pc rest
    | some b ↦ elim (strcmp a b) [
      | Ordering.gt ↦ Ordering.gt
      | Ordering.lt ↦ Ordering.lt
      | Ordering.eq ↦ express f.line g.line (elim (strcmp f.functname g.functname) [
        | Ordering.gt ↦ Ordering.gt
        | Ordering.lt ↦ Ordering.lt
        | Ordering.eq ↦ express f.pc g.pc rest
      ])
    ]
  ]
]

unfoldable pub compare_frames : ℕ → ℕ → List Frame → List Frame → Ordering
compare_frames zero i fs gs = Ordering.eq
compare_frames (suc left) i fs gs =
    compare_frame (get_or fs i no_frame) (get_or gs i no_frame) (compare_frames left (suc i) fs gs)

unfoldable pub src_id_cache_comparator : ℕ → SrcEntry → SrcEntry → Ordering
src_id_cache_comparator depth csp_1 csp_2 =
    if depth == 0
    then express csp_1.id csp_2.id Ordering.eq
    else compare_frames depth 0 csp_1.frames csp_2.frames

-- `res ^= (unsigned) c;` over a string of signed `char`
unfoldable pub xor_text : Text → ℕ → ℕ
xor_text [] res = res
xor_text (c ∷ cs) res = xor_text cs (bit_xor res (if ltb c 128 then c else 2 ^ 32 - 256 + c))

unfoldable pub xor_frame : Frame → ℕ → ℕ
xor_frame f res = elim f.filename [
  | none ↦ bit_xor res f.line
  | some name ↦ bit_xor (xor_text f.functname (xor_text name res)) f.line
]

unfoldable pub xor_frames : ℕ → ℕ → List Frame → ℕ → ℕ
xor_frames zero i fs res = res
xor_frames (suc left) i fs res = xor_frames left (suc i) fs (xor_frame (get_or fs i no_frame) res)

unfoldable pub src_id_cache_hashkey : ℕ → SrcEntry → ℕ
src_id_cache_hashkey depth cs1 = bit_xor 662917 (xor_frames depth 0 cs1.frames 0)

-- What the collector keeps between calls.
pub record Sources : Type 0 where
  pub pc_cache : HashTable PcEntry
  pub src_id_cache : HashTable SrcEntry
  pub src_id_counter : ℕ

-- The id that a new entry gets, and the counter after it
abbrev new_id : ℕ → ℕ → ℕ → ℕ × ℕ
new_id depth op counter = if depth == 0 then (op - mpi_base, counter) else (counter, counter + 1)

-- The search for an id by a key with these frames, and the entry that is made if there is none, whose
-- frames are copies of those of the key. An operation is at least `mpiPi_BASE`.
unfoldable pub assign_id : ℕ → ℕ → Sources → List Frame → Sources × ℕ
assign_id depth op st frames =
    elim (lookup st.src_id_cache (record { id = op - mpi_base; op = 0; frames = frames })) [
      | some csp ↦ (st, csp.id)
      | none ↦
          (let (id, counter) = new_id depth op st.src_id_counter in
            (
              record st {
                src_id_cache =
                    (insert st.src_id_cache (record { id = id; op = op; frames = frames })).1;
                src_id_counter = counter;
              },
              id,
            ))
    ]

module _ (find_src_loc : ℕ → Option Location) where
  -- The entry is what the three results are read from; the fields of the search key that are not set
  -- are not read.
  unfoldable pub query_pc : HashTable PcEntry → ℕ → HashTable PcEntry × PcEntry
  query_pc cache pc =
      elim (lookup cache (record { pc = pc; filename = []; functname = []; line = 0 })) [
        | some csp ↦ (cache, csp)
        | none ↦ (let csp = located pc (find_src_loc pc) in ((insert cache csp).1, csp))
      ]

  -- `if (mpiPi.do_lookup == 1) .. else ..`
  unfoldable pub query_frame : Bool → HashTable PcEntry → ℕ → HashTable PcEntry × PcEntry
  query_frame do_lookup cache pc =
      if do_lookup
      then query_pc cache pc
      else (cache, record { pc = pc; filename = unknown; functname = unknown; line = 0 })

  abbrev set_frame : ℕ → PcEntry → CallsiteStats → CallsiteStats
  set_frame i e p = record p {
    filename = set p.filename i (some e.filename);
    functname = set p.functname i e.functname;
    lineno = set p.lineno i e.line;
  }

  -- `for (i = 0; (i < MPIP_CALLSITE_STACK_DEPTH) && (p->pc[i] != NULL); i++)`, with the rounds left
  -- first: the cache, the record and the frames of the key
  unfoldable pub query_frames :
      ℕ
      → ℕ
      → Bool
      → HashTable PcEntry
      → CallsiteStats
      → HashTable PcEntry × CallsiteStats × List Frame
  query_frames zero i do_lookup cache p = (cache, p, [])
  query_frames (suc left) i do_lookup cache p =
      let pc = get_or p.pc i 0 in
      let (cache', e) = query_frame do_lookup cache pc in
      let (cache'', p', frames) = query_frames left (suc i) do_lookup cache' (set_frame i e p) in
      if pc == 0 then (cache, p, []) else (
        cache'',
        p',
        record { filename = some e.filename; functname = e.functname; line = e.line; pc = pc }
            ∷ frames,
      )

  -- `mpiPi_query_src`
  unfoldable pub query_src : ℕ → Bool → Sources → CallsiteStats → Sources × CallsiteStats
  query_src depth do_lookup st p =
      let (cache, p', frames) = query_frames depth 0 do_lookup st.pc_cache p in
      let (st', id) = assign_id depth p.op (record st { pc_cache = cache }) frames in
      (st', record p' { csid = id })
