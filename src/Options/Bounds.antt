-- ===== src/Options/Bounds.antt =====
-- util.c: whatever the environment variable says, the settings stay within their bounds.
use mpi_pv.Prelude.{
  ◌⊎◌, ℕ, zero, suc, ◌+◌, ◌*◌, ◌≤◌, ◌<◌, ◌≡◌, ◌↔◌, refl, ap, false, Option, none, some, List, [],
  ◌∷◌, arith, if◌then◌else◌, length, min, All, ◌++◌, ◌/◌, Bool-cases, inl, inr, ltb, ◌==◌, ==_iff,
}
use mpi_pv.Prelude.Int.{ℤ, pos, negsuc}
use mpi_pv.Callsite.{Text, stack_depth_max}
use mpi_pv.State.{Settings, default_settings}
use mpi_pv.Options.{
  after_last_slash, get_base_app_name, fill_av, last_index, Configured, configured, checked_size,
  checked_depth, checked_threshold, set_stack_depth, Parsed, flag, with_argument, apply_flag,
  apply_argument, apply_option, apply_options,
}

-- The settings are in their ranges, and the coefficient of variation is off at depth 0.
pub record InBounds (c : Configured) : Type 0 where
  pub size : 2 ≤ c.settings.table_size
  pub depth : c.settings.stack_depth ≤ stack_depth_max
  pub cov : (1 ≤ c.settings.stack_depth) ⊎ (c.settings.calc_cov ≡ false)
  pub threshold : c.report_print_threshold < 100000000
  pub counts : c.enabled_count ≡ (if c.enabled then 1 else 0)

configured-InBounds : (name : Text) (full : Option Text) → InBounds (configured name full)
unfolding configured default_settings
configured-InBounds name full = record {
  size = omega arith;
  depth = omega arith;
  cov = inl (omega arith);
  threshold = omega arith;
  counts = refl;
}

checked_size_lem : (default : ℕ) (n : ℤ) → 2 ≤ default → 2 ≤ checked_size default n
unfolding checked_size
checked_size_lem default (pos n) h = ground arith
checked_size_lem default (negsuc n) h = h

checked_depth_lem : (n : ℤ) → checked_depth n ≤ stack_depth_max
unfolding checked_depth
checked_depth_lem (pos n) = ground arith
checked_depth_lem (negsuc n) = omega arith

checked_threshold_lem :
    (default : ℕ) (x : ℤ) → default < 100000000 → checked_threshold default x < 100000000
unfolding checked_threshold
checked_threshold_lem default (pos n) h = ground arith
checked_threshold_lem default (negsuc n) h = ground arith

apply_flag-InBounds : (letter : ℕ) (c : Configured) → InBounds c → InBounds (apply_flag letter c)
unfolding apply_flag
apply_flag-InBounds letter c h =
    let a = h.size in
    let b = h.depth in
    let d = h.cov in
    let e = h.threshold in
    let f = h.counts in
    record {
      size = ground arith;
      depth = ground arith;
      cov = ground arith;
      threshold = ground arith;
      counts = ground arith;
    }

set_stack_depth-cov :
    (n : ℤ) (s : Settings)
    → (1 ≤ s.stack_depth) ⊎ (s.calc_cov ≡ false)
    → let t = set_stack_depth n s in (1 ≤ t.stack_depth) ⊎ (t.calc_cov ≡ false)
unfolding set_stack_depth
set_stack_depth-cov n s h = ground arith

set_stack_depth-size :
    (n : ℤ) (s : Settings)
    → ((set_stack_depth n s).table_size ≡ s.table_size)
      × ((set_stack_depth n s).stack_depth ≤ stack_depth_max)
unfolding set_stack_depth
set_stack_depth-size n s = (refl, checked_depth_lem n)

apply_argument-InBounds :
    (letter : ℕ) (optarg : Text) (n x : ℤ) (c : Configured)
    → InBounds c
    → InBounds (apply_argument letter optarg n x c)
unfolding apply_argument
apply_argument-InBounds letter optarg n x c h =
    let a = h.size in
    let b = h.depth in
    let d = h.cov in
    let e = h.threshold in
    let f = h.counts in
    let (g, i) = set_stack_depth-size n c.settings in
    let j = set_stack_depth-cov n c.settings d in
    let k = checked_size_lem c.settings.table_size n a in
    let l =
      checked_threshold_lem (c.report_print_threshold / 1000000 * 1000000) x (omega (arith, e)) in
    record {
      size = ground arith;
      depth = ground arith;
      cov = ground arith;
      threshold = ground arith;
      counts = ground arith;
    }

apply_option-InBounds : (o : Parsed) (c : Configured) → InBounds c → InBounds (apply_option o c)
unfolding apply_option
apply_option-InBounds (flag letter) c h = apply_flag-InBounds letter c h
apply_option-InBounds (with_argument letter optarg n x) c h =
    apply_argument-InBounds letter optarg n x c h

keep_InBounds : (os : List Parsed) (c : Configured) → InBounds c → InBounds (apply_options os c)
unfolding apply_options
keep_InBounds [] c h = h
keep_InBounds (o ∷ os) c h = keep_InBounds os (apply_option o c) (apply_option-InBounds o c h)

-- Whatever options the environment variable has, in whatever order and with whatever arguments, the
-- call site table gets at least two buckets, the stack depth is at most the 8 that the arrays hold,
-- the coefficient of variation is off at depth 0, the print threshold is below 100 percent, and the
-- enabled count tells whether the profiler is on.
pub apply_options-InBounds :
    (os : List Parsed) (name : Text) (full : Option Text)
    → InBounds (apply_options os (configured name full))
apply_options-InBounds os name full =
    keep_InBounds os (configured name full) (configured-InBounds name full)

fill_av-length :
    (left ac : ℕ) (words : List Text)
    → left + ac ≡ 65
    → 1 ≤ ac
    → length (fill_av left ac words) + ac ≡ min (length words + ac) (if ltb ac 64 then 64 else ac)
unfolding fill_av
fill_av-length zero ac words e h = ground arith
fill_av-length (suc left) ac [] e h = ground arith
fill_av-length (suc left) ac (w ∷ words) e h =
    ground (arith, fill_av-length left (suc ac) words (omega arith) (omega arith))

-- The final `av[ac] = NULL` stays within the 64 entries of `av` exactly if the variable has fewer than
-- 63 words; with 63 or more it writes to `av[64]`.
pub last_index_iff : (words : List Text) → (last_index words < 64) ↔ (length words < 63)
unfolding last_index
last_index_iff words = ground (arith, fill_av-length 64 1 words (omega arith) (omega arith))

abbrev NoSlash : Text → Type 0
NoSlash = All (λ c. (c == 0x2f) ≡ false)

-- What `rindex` gives for a path.
abbrev LastSlash : Text → Option Text → Type 0
LastSlash raw none = NoSlash raw
LastSlash raw (some rest) = NoSlash rest × ((front : Text) × (raw ≡ front ++ (0x2f ∷ rest)))

after_last_slash-LastSlash : (raw : Text) → LastSlash raw (after_last_slash raw)
unfolding after_last_slash
after_last_slash-LastSlash [] = tt
after_last_slash-LastSlash (c ∷ cs) = step (after_last_slash cs) (after_last_slash-LastSlash cs)
  where
    step :
        (o : Option Text)
        → LastSlash cs o
        → LastSlash
            (c ∷ cs)
            (elim o [ some rest ↦ some rest | none ↦ if c == 0x2f then some cs else none ])
    step (some rest) (ns, (front, e)) = (ns, (c ∷ front, ap (λ t. c ∷ t) e))
    step none ns = elim (Bool-cases (c == 0x2f)) [
      | inl e ↦ rw e (ns, ([], ap (λ d. d ∷ cs) ((==_iff c 0x2f).0 e)))
      | inr e ↦ rw e (e, ns)
    ]

-- The base name of a path is its longest end that has no slash.
pub get_base_app_name-suffix :
    (raw : Text)
    → let base : Text = get_base_app_name (some raw) in
      All (λ c. (c == 0x2f) ≡ false) base
      × ((base ≡ raw) ⊎ ((front : Text) × (raw ≡ front ++ (0x2f ∷ base))))
unfolding get_base_app_name
get_base_app_name-suffix raw = step (after_last_slash raw) (after_last_slash-LastSlash raw)
  where
    step :
        (o : Option Text)
        → LastSlash raw o
        → let base : Text = elim o [ none ↦ raw | some rest ↦ rest ] in
          NoSlash base × ((base ≡ raw) ⊎ ((front : Text) × (raw ≡ front ++ (0x2f ∷ base))))
    step none ns = (ns, inl refl)
    step (some rest) (ns, e) = (ns, inr e)
