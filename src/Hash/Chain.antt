-- ===== src/Hash/Chain.antt =====
-- mpiP-hash.c: one bucket. What the loops over a list of entries do, under the laws of a key.
use mpi_pv.Prelude.{
  ℕ, suc, ◌≡◌, refl, Ordering, Bool, true, false, none, some, List, [], ◌∷◌, arith, if◌then◌else◌,
  length, All, Bool-cases, inl, inr, sym, some-ne-none, All-map,
}
use mathlib.Core.Option
use mathlib.Core.Path.{subst}
use mpi_pv.Hash.{is_zero, find, unlink, write_first}

-- Two elements are one key to the comparator.
abbrev pub same {ℓ} : {A : Type ℓ} → (A → A → Ordering) → A → A → Bool
same hc a b = is_zero (hc a b)

-- What a hash function and a comparator owe the table, on the elements that are `Good`.
pub record IsKey {ℓ} {A : Type ℓ} (hf : A → ℕ) (hc : A → A → Ordering) (Good : A → Type 0)
    : Type ℓ where
  pub same_refl : (a : A) → Good a → same hc a a ≡ true
  pub same_symm : (a b : A) → Good a → Good b → same hc a b ≡ true → same hc b a ≡ true
  pub same_trans :
      (a b c : A)
      → Good a
      → Good b
      → Good c
      → same hc a b ≡ true
      → same hc b c ≡ true
      → same hc a c ≡ true
  pub hf-same : (a b : A) → Good a → Good b → same hc a b ≡ true → hf a ≡ hf b

-- No two entries are one key.
abbrev pub Distinct {ℓ} : {A : Type ℓ} → (A → A → Ordering) → List A → Type 0
Distinct hc [] = Unit
Distinct hc (x ∷ xs) = All (λ y. same hc y x ≡ false) xs × Distinct hc xs

module _ {ℓ} {A : Type ℓ} (hc : A → A → Ordering) where
  -- A search that fails has compared every entry.
  pub find-none :
      (key : A) (xs : List A) → find hc key xs ≡ none → All (λ y. same hc y key ≡ false) xs
  unfolding find
  find-none key [] h = tt
  find-none key (y ∷ ys) h = elim (Bool-cases (is_zero (hc y key))) [
    | inl e ↦ absurd (some-ne-none (rw e at h))
    | inr e ↦ (e, find-none key ys (rw e at h))
  ]

  pub find_absent :
      (key : A) (xs : List A) → All (λ y. same hc y key ≡ false) xs → find hc key xs ≡ none
  unfolding find
  find_absent key [] h = refl
  find_absent key (y ∷ ys) h = rw (h.0) (find_absent key ys h.1)

  pub find-same : (key : A) (xs : List A) (x : A) → find hc key xs ≡ some x → same hc x key ≡ true
  unfolding find
  find-same key [] x h = cc
  find-same key (y ∷ ys) x h = ground (arith, find-same key ys x)

  -- A search that succeeds finds an entry with what all entries have.
  pub find-All {κ} :
      (P : A → Type κ) (key : A) (xs : List A) (x : A) → All P xs → find hc key xs ≡ some x → P x
  unfolding find
  find-All P key [] x a h = absurd (some-ne-none (sym h))
  find-All P key (y ∷ ys) x a h = elim (Bool-cases (is_zero (hc y key))) [
    | inl e ↦ let q : some y ≡ some x = rw e at h in let r : y ≡ x = cc in subst P r a.0
    | inr e ↦ find-All P key ys x a.1 (rw e at h)
  ]

  pub length-unlink :
      (key : A) (xs : List A) (x : A)
      → find hc key xs ≡ some x
      → suc (length (unlink hc key xs)) ≡ length xs
  unfolding find unlink
  length-unlink key [] x h = absurd (some-ne-none (sym h))
  length-unlink key (y ∷ ys) x h = ground (arith, length-unlink key ys x)

  pub length-write_first :
      (key : A) (f : A → A) (xs : List A) → length (write_first hc key f xs) ≡ length xs
  unfolding write_first
  length-write_first key f [] = refl
  length-write_first key f (y ∷ ys) = ground (arith, length-write_first key f ys)

  pub All-unlink {κ} :
      (P : A → Type κ) (key : A) (xs : List A) → All P xs → All P (unlink hc key xs)
  unfolding unlink
  All-unlink P key [] h = tt
  All-unlink P key (y ∷ ys) h = elim (Bool-cases (is_zero (hc y key))) [
    | inl e ↦ rw e h.1
    | inr e ↦ rw e (h.0, All-unlink P key ys h.1)
  ]

  pub Distinct-unlink : (key : A) (xs : List A) → Distinct hc xs → Distinct hc (unlink hc key xs)
  unfolding unlink
  Distinct-unlink key [] d = tt
  Distinct-unlink key (y ∷ ys) d = elim (Bool-cases (is_zero (hc y key))) [
    | inl e ↦ rw e d.1
    | inr e ↦ rw e (All-unlink _ key ys d.0, Distinct-unlink key ys d.1)
  ]

  -- A write that keeps what every element has.
  pub All-write_first {κ} :
      (P : A → Type κ) (key : A) (f : A → A)
      → ((a : A) → P a → P (f a))
      → (xs : List A) → All P xs
      → All P (write_first hc key f xs)
  unfolding write_first
  All-write_first P key f keeps [] h = tt
  All-write_first P key f keeps (y ∷ ys) h = elim (Bool-cases (is_zero (hc y key))) [
    | inl e ↦ rw e (keeps y h.0, h.1)
    | inr e ↦ rw e (h.0, All-write_first P key f keeps ys h.1)
  ]

  -- A write that the comparator does not see.
  abbrev pub Unseen : (A → A) → Type ℓ
  Unseen f = ((a b : A) → hc (f a) b ≡ hc a b) × ((a b : A) → hc a (f b) ≡ hc a b)

  -- At most one entry matches the key.
  abbrev pub Once : A → List A → Type 0
  Once key [] = Unit
  Once key (y ∷ ys) = (same hc y key ≡ true → All (λ z. same hc z key ≡ false) ys) × Once key ys

  find_untouched :
      (key k : A) (f : A → A) (xs : List A)
      → All (λ y. same hc y key ≡ false) xs
      → find hc k xs ≡ Option.map (λ x. if same hc x key then f x else x) (find hc k xs)
  unfolding find
  find_untouched key k f [] a = refl
  find_untouched key k f (y ∷ ys) a = elim (Bool-cases (is_zero (hc y k))) [
    | inl e ↦ rw e (rw (a.0))
    | inr e ↦ rw e (find_untouched key k f ys a.1)
  ]

  -- After a write, a search finds the written entry where it found the old one.
  pub find-write_first :
      (key k : A) (f : A → A)
      → Unseen f
      → (xs : List A) → Once key xs
      → find hc k (write_first hc key f xs)
        ≡ Option.map (λ x. if same hc x key then f x else x) (find hc k xs)
  unfolding find write_first
  find-write_first key k f u [] o = refl
  find-write_first key k f u (y ∷ ys) o = elim (Bool-cases (is_zero (hc y key))) [
    | inl e ↦ rw e (
        rw (u.0) (elim (Bool-cases (is_zero (hc y k))) [
          | inl m ↦ rw m (rw e)
          | inr m ↦ rw m (find_untouched key k f ys (o.0 e))
        ]))
    | inr e ↦ rw e (elim (Bool-cases (is_zero (hc y k))) [
      | inl m ↦ rw m (rw e)
      | inr m ↦ rw m (find-write_first key k f u ys o.1)
    ])
  ]

  Distinct-write_first_head :
      (key y : A) (f : A → A)
      → Unseen f
      → (xs : List A) → All (λ z. same hc z y ≡ false) xs
      → All (λ z. same hc z y ≡ false) (write_first hc key f xs)
  Distinct-write_first_head key y f u = All-write_first _ key f (λ a e. rw (u.0) e)

  pub Distinct-write_first :
      (key : A) (f : A → A)
      → Unseen f
      → (xs : List A) → Distinct hc xs
      → Distinct hc (write_first hc key f xs)
  unfolding write_first
  Distinct-write_first key f u [] d = tt
  Distinct-write_first key f u (y ∷ ys) d = elim (Bool-cases (is_zero (hc y key))) [
    | inl e ↦ rw e (All-map (λ a q. rw (u.1) q) ys d.0, d.1)
    | inr e ↦ rw e (Distinct-write_first_head key y f u ys d.0, Distinct-write_first key f u ys d.1)
  ]

module _ {ℓ} {A : Type ℓ} {hf : A → ℕ} {hc : A → A → Ordering} {Good : A → Type 0}
    (laws : IsKey hf hc Good) where
  -- An entry that is one key with `a` matches what `a` matches.
  same_congr :
      (y a b : A) → Good y → Good a → Good b → same hc a b ≡ true → same hc y a ≡ same hc y b
  same_congr y a b gy ga gb e = ground (
    arith,
    laws.same_trans y a b gy ga gb,
    laws.same_trans y b a gy gb ga,
    laws.same_symm a b ga gb,
  )

  not_same_of :
      (x key y : A)
      → Good x
      → Good key
      → Good y
      → same hc x key ≡ true
      → same hc y x ≡ false
      → same hc y key ≡ false
  not_same_of x key y gx gk gy e n = rw (← same_congr y x key gy gx gk e) n

  apart_of :
      (x key : A) (xs : List A)
      → Good x
      → Good key
      → All Good xs
      → same hc x key ≡ true
      → All (λ y. same hc y x ≡ false) xs
      → All (λ y. same hc y key ≡ false) xs
  apart_of x key [] gx gk g e a = tt
  apart_of x key (y ∷ ys) gx gk g e a =
      (not_same_of x key y gx gk g.0 e a.0, apart_of x key ys gx gk g.1 e a.1)

  pub Distinct-Once :
      (key : A) → Good key → (xs : List A) → All Good xs → Distinct hc xs → Once hc key xs
  Distinct-Once key gk [] g d = tt
  Distinct-Once key gk (y ∷ ys) g d =
      (λ e. apart_of y key ys g.0 gk g.1 e d.0, Distinct-Once key gk ys g.1 d.1)

  -- A search by another element that is the same key.
  pub find_congr :
      (a b : A)
      → Good a
      → Good b
      → (xs : List A) → All Good xs
      → same hc a b ≡ true
      → find hc a xs ≡ find hc b xs
  unfolding find
  find_congr a b ga gb [] g e = refl
  find_congr a b ga gb (y ∷ ys) g e =
      rw (same_congr y a b g.0 ga gb e, find_congr a b ga gb ys g.1 e)

  pub find-unlink :
      (key k : A)
      → Good key
      → Good k
      → (xs : List A) → All Good xs
      → Once hc key xs
      → find hc k (unlink hc key xs) ≡ (if same hc key k then none else find hc k xs)
  unfolding find unlink
  find-unlink key k gk g' [] g o = ground arith
  find-unlink key k gk g' (y ∷ ys) g o = elim (Bool-cases (is_zero (hc y key))) [
    | inl e ↦ ground (
      arith,
      find_absent hc key ys (o.0 e),
      laws.same_symm y key g.0 gk e,
      laws.same_trans key y k gk g.0 g',
      find_congr key k gk g' ys g.1,
    )
    | inr e ↦ ground (arith, same_congr y key k g.0 gk g', find-unlink key k gk g' ys g.1 o.1)
  ]
