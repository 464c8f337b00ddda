-- ===== src/Task/Account.antt =====
-- mpiPi.c: what one record holds after the calls that were accounted to it.
use mpi_pv.Prelude.{
  ℕ, ◌+◌, ◌*◌, min, max, ◌≡◌, refl, ◌∙◌, List, [], ◌∷◌, arith, leb, if◌then◌else◌, length,
}
use mpi_pv.Prelude.Int.{ℤ, pos, negsuc}
use mpi_pv.Callsite.{CallsiteStats}
use mpi_pv.Task.{Event, is_counted, account}

-- A number of a call summed, and its greatest and least value, over calls and a value before them.
abbrev pub sum_of : (Event → ℕ) → List Event → ℕ
sum_of f [] = 0
sum_of f (e ∷ es) = f e + sum_of f es

abbrev pub max_of : (Event → ℕ) → ℕ → List Event → ℕ
max_of f m [] = m
max_of f m (e ∷ es) = max (f e) (max_of f m es)

abbrev pub min_of : (Event → ℕ) → ℕ → List Event → ℕ
min_of f m [] = m
min_of f m (e ∷ es) = min (f e) (min_of f m es)

-- How many calls sent at least `threshold` bytes, if that is not negative.
abbrev pub counted_of : ℤ → List Event → ℕ
counted_of (pos threshold) [] = 0
counted_of (pos threshold) (e ∷ es) =
    (if leb threshold e.send_size then 1 else 0) + counted_of (pos threshold) es
counted_of (negsuc n) es = 0

abbrev pub account_all : ℤ → List Event → CallsiteStats → CallsiteStats
account_all threshold [] csp = csp
account_all threshold (e ∷ es) csp = account_all threshold es (account threshold e csp)

-- What a record `csp'` holds when the calls `es` were accounted to `csp`.
pub record Accounted (threshold : ℤ) (csp : CallsiteStats) (es : List Event) (csp' : CallsiteStats)
    : Type 0 where
  pub counted : csp'.count ≡ csp.count + length es
  pub time : csp'.cumulative_time ≡ csp.cumulative_time + sum_of (λ e. e.dur) es
  pub squares :
      csp'.cumulative_time_squared ≡ csp.cumulative_time_squared + sum_of (λ e. e.dur * e.dur) es
  pub longest : csp'.max_dur ≡ max_of (λ e. e.dur) csp.max_dur es
  pub shortest : csp'.min_dur ≡ min_of (λ e. e.dur) csp.min_dur es
  pub sent : csp'.cumulative_data_sent ≡ csp.cumulative_data_sent + sum_of (λ e. e.send_size) es
  pub most_sent : csp'.max_data_sent ≡ max_of (λ e. e.send_size) csp.max_data_sent es
  pub least_sent : csp'.min_data_sent ≡ min_of (λ e. e.send_size) csp.min_data_sent es
  pub io : csp'.cumulative_io ≡ csp.cumulative_io + sum_of (λ e. e.io_size) es
  pub most_io : csp'.max_io ≡ max_of (λ e. e.io_size) csp.max_io es
  pub least_io : csp'.min_io ≡ min_of (λ e. e.io_size) csp.min_io es
  pub rma : csp'.cumulative_rma ≡ csp.cumulative_rma + sum_of (λ e. e.rma_size) es
  pub most_rma : csp'.max_rma ≡ max_of (λ e. e.rma_size) csp.max_rma es
  pub least_rma : csp'.min_rma ≡ min_of (λ e. e.rma_size) csp.min_rma es
  pub messages :
      csp'.arbitrary_message_count ≡ csp.arbitrary_message_count + counted_of threshold es
  pub same_site :
      (csp'.op ≡ csp.op) × (csp'.rank ≡ csp.rank) × (csp'.pc ≡ csp.pc) × (csp'.cookie ≡ csp.cookie)

max_of_shift :
    (f : Event → ℕ) (m n : ℕ) (es : List Event) → max_of f (max m n) es ≡ max n (max_of f m es)
max_of_shift f m n [] = omega arith
max_of_shift f m n (e ∷ es) = omega (arith, max_of_shift f m n es)

min_of_shift :
    (f : Event → ℕ) (m n : ℕ) (es : List Event) → min_of f (min m n) es ≡ min n (min_of f m es)
min_of_shift f m n [] = omega arith
min_of_shift f m n (e ∷ es) = omega (arith, min_of_shift f m n es)

counted_step :
    (threshold : ℤ) (e : Event) (es : List Event) (n : ℕ)
    → (if is_counted threshold e.send_size then n + 1 else n) + counted_of threshold es
      ≡ n + counted_of threshold (e ∷ es)
unfolding is_counted
counted_step (pos t) e es n = ground arith
counted_step (negsuc t) e es n = refl

pub account_all-Accounted :
    (threshold : ℤ) (es : List Event) (csp : CallsiteStats)
    → Accounted threshold csp es (account_all threshold es csp)
unfolding account
account_all-Accounted (pos t) [] csp = ground arith
account_all-Accounted (negsuc t) [] csp = ground arith
account_all-Accounted threshold (e ∷ es) csp =
    let ih = account_all-Accounted threshold es (account threshold e csp) in
    record {
      counted = omega (arith, ih.counted);
      time = omega (arith, ih.time);
      squares = omega (arith, ih.squares);
      longest = ih.longest ∙ max_of_shift _ csp.max_dur e.dur es;
      shortest = ih.shortest ∙ min_of_shift _ csp.min_dur e.dur es;
      sent = omega (arith, ih.sent);
      most_sent = ih.most_sent ∙ max_of_shift _ csp.max_data_sent e.send_size es;
      least_sent = ih.least_sent ∙ min_of_shift _ csp.min_data_sent e.send_size es;
      io = omega (arith, ih.io);
      most_io = ih.most_io ∙ max_of_shift _ csp.max_io e.io_size es;
      least_io = ih.least_io ∙ min_of_shift _ csp.min_io e.io_size es;
      rma = omega (arith, ih.rma);
      most_rma = ih.most_rma ∙ max_of_shift _ csp.max_rma e.rma_size es;
      least_rma = ih.least_rma ∙ min_of_shift _ csp.min_rma e.rma_size es;
      messages = ih.messages ∙ counted_step threshold e es csp.arbitrary_message_count;
      same_site = ih.same_site;
    }
