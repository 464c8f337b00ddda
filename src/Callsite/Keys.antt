-- ===== src/Callsite/Keys.antt =====
-- mpiPi.c: each comparator is an equality of keys, and its hash function agrees with it.
use mpi_pv.Prelude.{
  ℕ, zero, suc, ◌≡◌, refl, sym, ◌∙◌, ap, ◌↔◌, Ordering, true, List, [], ◌∷◌, arith, get_or, bit_xor,
}
use mpi_pv.Hash.{is_zero}
use mpi_pv.Hash.Chain.{same, IsKey}
use mpi_pv.Callsite.{
  CallsiteStats, xor_pcs, pc_hashkey, express, compare_pcs, pc_comparator, src_hashkey,
  src_comparator, mpi_id_hashkey, op_comparator, src_id_hashkey, src_id_comparator,
}

-- A comparator that compares keys, with a hash function of the key, has the laws.
pub IsKey_of_key {ℓ κ} :
    {A : Type ℓ} {K : Type κ} {hf : A → ℕ} {hc : A → A → Ordering} {Good : A → Type 0} (key : A → K)
    → ((a b : A) → Good a → Good b → (same hc a b ≡ true) ↔ (key a ≡ key b))
    → ((a b : A) → Good a → Good b → key a ≡ key b → hf a ≡ hf b)
    → IsKey hf hc Good
IsKey_of_key key eq hash = record {
  same_refl = λ a g. (eq a a g g).1 refl;
  same_symm = λ a b ga gb e. (eq b a gb ga).1 (sym ((eq a b ga gb).0 e));
  same_trans = λ a b c ga gb gc e f. (eq a c ga gc).1 ((eq a b ga gb).0 e ∙ (eq b c gb gc).0 f);
  hf-same = λ a b ga gb e. hash a b ga gb ((eq a b ga gb).0 e);
}

pub express_zero :
    (a b : ℕ) (r : Ordering) → (is_zero (express a b r) ≡ true) ↔ ((a ≡ b) × (is_zero r ≡ true))
unfolding express
express_zero a b r = ground arith

-- The addresses that a comparator of depth `depth` reads.
abbrev pub pcs : ℕ → ℕ → List ℕ → List ℕ
pcs zero i pc = []
pcs (suc left) i pc = get_or pc i 0 ∷ pcs left (suc i) pc

pcs_zero :
    (left i : ℕ) (p q : List ℕ)
    → (is_zero (compare_pcs left i p q) ≡ true) ↔ (pcs left i p ≡ pcs left i q)
unfolding compare_pcs
pcs_zero zero i p q = (λ e. refl, λ e. refl)
pcs_zero (suc left) i p q =
    let step = express_zero (get_or p i 0) (get_or q i 0) (compare_pcs left (suc i) p q) in
    let rest = pcs_zero left (suc i) p q in
    (
      λ e. let (h, t) = step.0 e in let r = rest.0 t in cc,
      λ e.
          let h : get_or p i 0 ≡ get_or q i 0 = cc in
          let t : pcs left (suc i) p ≡ pcs left (suc i) q = cc in step.1 (h, rest.1 t),
    )

xor_pcs_congr :
    (left i : ℕ) (p q : List ℕ) (r : ℕ)
    → pcs left i p ≡ pcs left i q
    → xor_pcs left i p r ≡ xor_pcs left i q r
unfolding xor_pcs
xor_pcs_congr zero i p q r e = refl
xor_pcs_congr (suc left) i p q r e =
    let h : get_or p i 0 ≡ get_or q i 0 = cc in
    let t : pcs left (suc i) p ≡ pcs left (suc i) q = cc in
    rw h (xor_pcs_congr left (suc i) p q _ t)

abbrev pub Total {ℓ} : (A : Type ℓ) → A → Type 0
Total A a = Unit

abbrev pub pc_key : ℕ → CallsiteStats → ℕ × ℕ × List ℕ
pc_key depth s = (s.op, s.rank, pcs depth 0 s.pc)

abbrev pub src_key : CallsiteStats → ℕ × ℕ × ℕ
src_key s = (s.op, s.csid, s.rank)

abbrev pub src_id_key : CallsiteStats → ℕ × ℕ
src_id_key s = (s.op, s.csid)

-- Two records of one task are one key to the task's table exactly if the operation, the rank and the
-- first `depth` addresses agree.
pub pc_comparator_iff :
    (depth : ℕ) (a b : CallsiteStats)
    → (same (pc_comparator depth) a b ≡ true) ↔ (pc_key depth a ≡ pc_key depth b)
unfolding pc_comparator
pc_comparator_iff depth a b =
    let rest = compare_pcs depth 0 a.pc b.pc in
    let outer = express_zero a.op b.op (express a.rank b.rank rest) in
    let inner = express_zero a.rank b.rank rest in
    let list = pcs_zero depth 0 a.pc b.pc in
    (
      λ e. let (o, e') = outer.0 e in let (r, e'') = inner.0 e' in let l = list.0 e'' in cc,
      λ e.
          let o : a.op ≡ b.op = cc in
          let r : a.rank ≡ b.rank = cc in
          let l : pcs depth 0 a.pc ≡ pcs depth 0 b.pc = cc in outer.1 (o, inner.1 (r, list.1 l)),
    )

pub pc-IsKey : (depth : ℕ) → IsKey (pc_hashkey depth) (pc_comparator depth) (Total CallsiteStats)
unfolding pc_hashkey
pc-IsKey depth =
    IsKey_of_key (pc_key depth) (λ a b _ _. pc_comparator_iff depth a b)
      (λ a b _ _ e.
        let o : a.op ≡ b.op = cc in
        let r : a.rank ≡ b.rank = cc in
        let l : pcs depth 0 a.pc ≡ pcs depth 0 b.pc = cc in
        rw (o, r, xor_pcs_congr depth 0 a.pc b.pc 0 l))

pub src_comparator_iff :
    (a b : CallsiteStats) → (same src_comparator a b ≡ true) ↔ (src_key a ≡ src_key b)
unfolding src_comparator express
src_comparator_iff a b = ground arith

pub src-IsKey : IsKey src_hashkey src_comparator (Total CallsiteStats)
unfolding src_hashkey
src-IsKey =
    IsKey_of_key src_key (λ a b _ _. src_comparator_iff a b)
      (λ a b _ _ e.
        let o : a.op ≡ b.op = cc in
        let c : a.csid ≡ b.csid = cc in let r : a.rank ≡ b.rank = cc in rw (o, c, r))

pub src_id_comparator_iff :
    (a b : CallsiteStats) → (same src_id_comparator a b ≡ true) ↔ (src_id_key a ≡ src_id_key b)
unfolding src_id_comparator express
src_id_comparator_iff a b = ground arith

pub src_id-IsKey : IsKey src_id_hashkey src_id_comparator (Total CallsiteStats)
unfolding src_id_hashkey
src_id-IsKey =
    IsKey_of_key src_id_key (λ a b _ _. src_id_comparator_iff a b)
      (λ a b _ _ e. let o : a.op ≡ b.op = cc in let c : a.csid ≡ b.csid = cc in rw (o, c))

pub op_comparator_iff : (a b : CallsiteStats) → (same op_comparator a b ≡ true) ↔ (a.op ≡ b.op)
unfolding op_comparator express
op_comparator_iff a b = ground arith

pub op-IsKey : IsKey mpi_id_hashkey op_comparator (Total CallsiteStats)
unfolding mpi_id_hashkey
op-IsKey =
    IsKey_of_key (λ s. s.op) (λ a b _ _. op_comparator_iff a b) (λ a b _ _ e. ap (bit_xor 52271) e)

-- Each of the four pairs that the profiler opens a table with is a hash function and a comparator
-- that agree: the comparator is an equivalence, and what it takes for one key has one hash.
pub callsite-IsKey :
    ((depth : ℕ) → IsKey (pc_hashkey depth) (pc_comparator depth) (Total CallsiteStats))
    × IsKey src_hashkey src_comparator (Total CallsiteStats)
    × IsKey src_id_hashkey src_id_comparator (Total CallsiteStats)
    × IsKey mpi_id_hashkey op_comparator (Total CallsiteStats)
callsite-IsKey = (pc-IsKey, src-IsKey, src_id-IsKey, op-IsKey)
