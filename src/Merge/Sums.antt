-- ===== src/Merge/Sums.antt =====
-- mpiPi.c: what a record holds after others were merged into it, and what the totals hold.
use mpi_pv.Prelude.{
  ℕ, ◌+◌, ◌≡◌, refl, ◌∙◌, max, min, Bool, List, [], ◌∷◌, arith, ltb, if◌then◌else◌,
}
use mpi_pv.Callsite.{CallsiteStats}
use mpi_pv.State.{Totals}
use mpi_pv.Merge.{merge_individual, add_totals}

abbrev pub sum_of : (CallsiteStats → ℕ) → List CallsiteStats → ℕ
sum_of f [] = 0
sum_of f (p ∷ ps) = f p + sum_of f ps

abbrev pub max_of : (CallsiteStats → ℕ) → ℕ → List CallsiteStats → ℕ
max_of f m [] = m
max_of f m (p ∷ ps) = max (f p) (max_of f m ps)

abbrev pub min_of : (CallsiteStats → ℕ) → ℕ → List CallsiteStats → ℕ
min_of f m [] = m
min_of f m (p ∷ ps) = min (f p) (min_of f m ps)

-- What a record `s` holds when the records `ps` were merged into `a`.
pub record Merged (a : CallsiteStats) (ps : List CallsiteStats) (s : CallsiteStats) : Type 0 where
  pub count : s.count ≡ a.count + sum_of (λ p. p.count) ps
  pub time : s.cumulative_time ≡ a.cumulative_time + sum_of (λ p. p.cumulative_time) ps
  pub squares :
      s.cumulative_time_squared
      ≡ a.cumulative_time_squared + sum_of (λ p. p.cumulative_time_squared) ps
  pub longest : s.max_dur ≡ max_of (λ p. p.max_dur) a.max_dur ps
  pub shortest : s.min_dur ≡ min_of (λ p. p.min_dur) a.min_dur ps
  pub sent :
      s.cumulative_data_sent ≡ a.cumulative_data_sent + sum_of (λ p. p.cumulative_data_sent) ps
  pub most_sent : s.max_data_sent ≡ max_of (λ p. p.max_data_sent) a.max_data_sent ps
  pub least_sent : s.min_data_sent ≡ min_of (λ p. p.min_data_sent) a.min_data_sent ps
  pub io : s.cumulative_io ≡ a.cumulative_io + sum_of (λ p. p.cumulative_io) ps
  pub most_io : s.max_io ≡ max_of (λ p. p.max_io) a.max_io ps
  pub least_io : s.min_io ≡ min_of (λ p. p.min_io) a.min_io ps
  pub rma : s.cumulative_rma ≡ a.cumulative_rma + sum_of (λ p. p.cumulative_rma) ps
  -- the extremes of remote memory access are those of the first record
  pub rma_extremes : (s.max_rma ≡ a.max_rma) × (s.min_rma ≡ a.min_rma)
  pub messages :
      s.arbitrary_message_count
      ≡ a.arbitrary_message_count + sum_of (λ p. p.arbitrary_message_count) ps
  pub site : (s.op ≡ a.op) × (s.rank ≡ a.rank) × (s.csid ≡ a.csid)

max_of_shift :
    (f : CallsiteStats → ℕ) (m n : ℕ) (ps : List CallsiteStats)
    → max_of f (max m n) ps ≡ max n (max_of f m ps)
max_of_shift f m n [] = omega arith
max_of_shift f m n (p ∷ ps) = omega (arith, max_of_shift f m n ps)

min_of_shift :
    (f : CallsiteStats → ℕ) (m n : ℕ) (ps : List CallsiteStats)
    → min_of f (min m n) ps ≡ min n (min_of f m ps)
min_of_shift f m n [] = omega arith
min_of_shift f m n (p ∷ ps) = omega (arith, min_of_shift f m n ps)

pub Merged-nil : (a : CallsiteStats) → Merged a [] a
Merged-nil a = record {
  count = omega arith;
  time = omega arith;
  squares = omega arith;
  longest = refl;
  shortest = refl;
  sent = omega arith;
  most_sent = refl;
  least_sent = refl;
  io = omega arith;
  most_io = refl;
  least_io = refl;
  rma = omega arith;
  rma_extremes = (refl, refl);
  messages = omega arith;
  site = (refl, refl, refl);
}

-- One more record at the front, for any merge that agrees with `merge_individual` on what is summed.
pub Merged-cons :
    (a p s : CallsiteStats) (ps : List CallsiteStats)
    → Merged (merge_individual p a) ps s
    → Merged a (p ∷ ps) s
unfolding merge_individual
Merged-cons a p s ps ih = record {
  count = omega (arith, ih.count);
  time = omega (arith, ih.time);
  squares = omega (arith, ih.squares);
  longest = ih.longest ∙ max_of_shift _ a.max_dur p.max_dur ps;
  shortest = ih.shortest ∙ min_of_shift _ a.min_dur p.min_dur ps;
  sent = omega (arith, ih.sent);
  most_sent = ih.most_sent ∙ max_of_shift _ a.max_data_sent p.max_data_sent ps;
  least_sent = ih.least_sent ∙ min_of_shift _ a.min_data_sent p.min_data_sent ps;
  io = omega (arith, ih.io);
  most_io = ih.most_io ∙ max_of_shift _ a.max_io p.max_io ps;
  least_io = ih.least_io ∙ min_of_shift _ a.min_io p.min_io ps;
  rma = omega (arith, ih.rma);
  rma_extremes = ih.rma_extremes;
  messages = omega (arith, ih.messages);
  site = ih.site;
}

-- A number that is counted only for the records that pass a test.
abbrev pub sum_if : (CallsiteStats → Bool) → (CallsiteStats → ℕ) → List CallsiteStats → ℕ
sum_if test f [] = 0
sum_if test f (p ∷ ps) = (if test p then f p else 0) + sum_if test f ps

abbrev pub took_time : CallsiteStats → Bool
took_time p = ltb 0 p.cumulative_time

abbrev pub sent_data : CallsiteStats → Bool
sent_data p = ltb 0 p.cumulative_data_sent

-- What the totals `t'` are when the records `ps` were added to `t`.
pub record Totalled (t : Totals) (ps : List CallsiteStats) (t' : Totals) : Type 0 where
  pub time : t'.global_mpi_time ≡ t.global_mpi_time + sum_of (λ p. p.cumulative_time) ps
  pub size : t'.global_mpi_size ≡ t.global_mpi_size + sum_of (λ p. p.cumulative_data_sent) ps
  pub io : t'.global_mpi_io ≡ t.global_mpi_io + sum_of (λ p. p.cumulative_io) ps
  pub rma : t'.global_mpi_rma ≡ t.global_mpi_rma + sum_of (λ p. p.cumulative_rma) ps
  pub callsites :
      t'.global_time_callsite_count ≡ t.global_time_callsite_count + sum_if took_time (λ p. 1) ps
  pub messages :
      t'.global_mpi_msize_threshold_count
      ≡ t.global_mpi_msize_threshold_count + sum_if sent_data (λ p. p.arbitrary_message_count) ps
  pub calls :
      t'.global_mpi_sent_count ≡ t.global_mpi_sent_count + sum_if sent_data (λ p. p.count) ps

pub Totalled-nil : (t : Totals) → Totalled t [] t
Totalled-nil t = ground arith

pub Totalled-cons :
    (p : CallsiteStats) (ps : List CallsiteStats) (t t' : Totals)
    → Totalled (add_totals p t) ps t'
    → Totalled t (p ∷ ps) t'
unfolding add_totals
Totalled-cons p ps t t' h =
    let a = h.time in
    let b = h.size in
    let c = h.io in
    let d = h.rma in
    let e = h.callsites in
    let f = h.messages in
    let g = h.calls in
    record {
      time = omega (arith, a);
      size = omega (arith, b);
      io = omega (arith, c);
      rma = omega (arith, d);
      callsites = ground arith;
      messages = ground arith;
      calls = ground arith;
    }
