-- ===== src/Router/Registry/Slots.antt =====
-- Searching the node table and writing one slot of it.
use klippylink.Common.{
  ℕ, zero, suc, ◌+◌, ◌<◌, ◌≡◌, refl, ap, ◌≢◌, ◌⊎◌, inl, inr, Bool, true, false, none, some, List,
  [], ◌∷◌, ◌++◌, arith, ==_refl, Bool-cases, length, get_elem?,
}
use klippylink.Router.Registry.{Node, Registry, find_slot, modify, bytes_eq}

-- Slot `i` is the first slot that passes the test.
pub record IsFirst (p : Node → Bool) (r : Registry) (i : ℕ) : Type 0 where
  pub slot : Node
  pub there : get_elem? r i ≡ some slot
  pub passes : p slot ≡ true
  pub earlier : (j : ℕ) (n : Node) → j < i → get_elem? r j ≡ some n → p n ≡ false

IsFirst-cons :
    (p : Node → Bool) (n : Node) (r : Registry) (i : ℕ)
    → p n ≡ false
    → IsFirst p r i
    → IsFirst p (n ∷ r) (suc i)
IsFirst-cons p n r i h f = record {
  slot = f.slot;
  there = f.there;
  passes = f.passes;
  earlier = go;
}
  where
    go : (j : ℕ) (m : Node) → j < suc i → get_elem? (n ∷ r) j ≡ some m → p m ≡ false
    go zero m lt e = cc
    go (suc j) m lt e = f.earlier j m (omega arith) e

-- What a search returns, counted from `k`.
find_slot-cases :
    (p : Node → Bool) (r : Registry) (k : ℕ)
    → ((i : ℕ) × (find_slot p r k ≡ some (i + k)) × IsFirst p r i)
      ⊎ ((find_slot p r k ≡ none) × ((j : ℕ) (n : Node) → get_elem? r j ≡ some n → p n ≡ false))
unfolding find_slot
find_slot-cases p [] k = inr (refl, λ j n e. cc)
find_slot-cases p (n ∷ r) k = elim (Bool-cases (p n)) [
  | inl h ↦ inl (
    0,
    rw h (ap some (omega arith)),
    record { slot = n; there = refl; passes = h; earlier = λ j m lt e. absurd (omega arith) },
  )
  | inr h ↦ elim (find_slot-cases p r (suc k)) [
    | inl (i, e, f) ↦ inl (suc i, rw h (rw e (ap some (omega arith))), IsFirst-cons p n r i h f)
    | inr (e, all) ↦ inr (rw h e, none_at h all)
  ]
]
  where
    none_at :
        p n ≡ false
        → ((j : ℕ) (m : Node) → get_elem? r j ≡ some m → p m ≡ false)
        → (j : ℕ) (m : Node) → get_elem? (n ∷ r) j ≡ some m
        → p m ≡ false
    none_at h all zero m e = cc
    none_at h all (suc j) m e = all j m e

-- A search from slot 0 finds the first slot that passes, or none passes.
pub find-cases :
    (p : Node → Bool) (r : Registry)
    → ((i : ℕ) × (find_slot p r 0 ≡ some i) × IsFirst p r i)
      ⊎ ((find_slot p r 0 ≡ none) × ((j : ℕ) (n : Node) → get_elem? r j ≡ some n → p n ≡ false))
find-cases p r = elim (find_slot-cases p r 0) [
  | inl (i, e, f) ↦ inl (i, rw e (ap some (omega arith)), f)
  | inr other ↦ inr other
]

pub find-IsFirst :
    (p : Node → Bool) (r : Registry) (i : ℕ) → find_slot p r 0 ≡ some i → IsFirst p r i
find-IsFirst p r i h = elim (find-cases p r) [
  | inl (j, e, f) ↦ let q : j ≡ i = ground arith in rw (← q) f
  | inr (e, all) ↦ cc
]

pub find-none :
    (p : Node → Bool) (r : Registry) (j : ℕ) (n : Node)
    → find_slot p r 0 ≡ none
    → get_elem? r j ≡ some n
    → p n ≡ false
find-none p r j n h e = elim (find-cases p r) [ inl (i, e', f) ↦ cc | inr (e', all) ↦ all j n e ]

-- The first slot that passes is what the search returns.
pub IsFirst-find :
    (p : Node → Bool) (r : Registry) (i : ℕ) → IsFirst p r i → find_slot p r 0 ≡ some i
IsFirst-find p r i f = elim (find-cases p r) [
  | inl (j, e, g) ↦ rw e (
      ap some (
        eq_of_not_lt j i (λ lt. clash (f.earlier j g.slot lt g.there) g.passes)
          (λ lt. clash (g.earlier i f.slot lt f.there) f.passes)))
  | inr (e, all) ↦ absurd (clash (all i f.slot f.there) f.passes)
]
  where
    clash : {b : Bool} → b ≡ false → b ≡ true → ⊥
    clash p q = cc

    eq_of_not_lt : (a b : ℕ) → ¬ (a < b) → ¬ (b < a) → a ≡ b
    eq_of_not_lt a b p q = omega arith

pub lt_of_get_elem? : (r : Registry) (i : ℕ) (n : Node) → get_elem? r i ≡ some n → i < length r
lt_of_get_elem? [] i n e = cc
lt_of_get_elem? (m ∷ r) zero n e = omega arith
lt_of_get_elem? (m ∷ r) (suc i) n e = omega (arith, lt_of_get_elem? r i n e)

pub length-modify : (f : Node → Node) (i : ℕ) (r : Registry) → length (modify f i r) ≡ length r
unfolding modify
length-modify f i [] = refl
length-modify f zero (n ∷ r) = refl
length-modify f (suc i) (n ∷ r) = ap suc (length-modify f i r)

pub get_elem?-modify_self :
    (f : Node → Node) (i : ℕ) (r : Registry) (n : Node)
    → get_elem? r i ≡ some n
    → get_elem? (modify f i r) i ≡ some (f n)
unfolding modify
get_elem?-modify_self f i [] n e = cc
get_elem?-modify_self f zero (m ∷ r) n e = ground arith
get_elem?-modify_self f (suc i) (m ∷ r) n e = get_elem?-modify_self f i r n e

pub get_elem?-modify_ne :
    (f : Node → Node) (i j : ℕ) (r : Registry) → i ≢ j → get_elem? (modify f i r) j ≡ get_elem? r j
unfolding modify
get_elem?-modify_ne f i j [] h = refl
get_elem?-modify_ne f zero zero (n ∷ r) h = absurd (h refl)
get_elem?-modify_ne f zero (suc j) (n ∷ r) h = refl
get_elem?-modify_ne f (suc i) zero (n ∷ r) h = refl
get_elem?-modify_ne f (suc i) (suc j) (n ∷ r) h = get_elem?-modify_ne f i j r (λ e. h (ap suc e))

pub get_elem?-append_left :
    (r s : Registry) (i : ℕ) (n : Node) → get_elem? r i ≡ some n → get_elem? (r ++ s) i ≡ some n
get_elem?-append_left [] s i n e = cc
get_elem?-append_left (m ∷ r) s zero n e = e
get_elem?-append_left (m ∷ r) s (suc i) n e = get_elem?-append_left r s i n e

-- Writing back what a slot holds changes nothing.
pub modify_same :
    (f : Node → Node) (i : ℕ) (r : Registry) (n : Node)
    → get_elem? r i ≡ some n
    → f n ≡ n
    → modify f i r ≡ r
unfolding modify
modify_same f i [] n e h = refl
modify_same f zero (m ∷ r) n e h = let q : m ≡ n = ground arith in rw q (ap (λ k. k ∷ r) h)
modify_same f (suc i) (m ∷ r) n e h = ap (λ l. m ∷ l) (modify_same f i r n e h)

-- A slot behind the last one of `r` in `r ++ (n ∷ [])` is not there.
pub get_elem?-append_cases :
    (r : Registry) (n m : Node) (j : ℕ)
    → get_elem? (r ++ (n ∷ [])) j ≡ some m
    → (get_elem? r j ≡ some m) ⊎ ((j ≡ length r) × (m ≡ n))
get_elem?-append_cases [] n m zero e = inr (refl, ground arith)
get_elem?-append_cases [] n m (suc j) e = cc
get_elem?-append_cases (k ∷ r) n m zero e = inl e
get_elem?-append_cases (k ∷ r) n m (suc j) e = elim (get_elem?-append_cases r n m j e) [
  | inl h ↦ inl h
  | inr (h, q) ↦ inr (ap suc h, q)
]

pub bytes_eq_refl : (xs : List ℕ) → bytes_eq xs xs ≡ true
unfolding bytes_eq
bytes_eq_refl [] = refl
bytes_eq_refl (x ∷ xs) = rw ==_refl (bytes_eq_refl xs)

pub eq_of_bytes_eq : (xs ys : List ℕ) → bytes_eq xs ys ≡ true → xs ≡ ys
unfolding bytes_eq
eq_of_bytes_eq [] [] h = refl
eq_of_bytes_eq [] (y ∷ ys) h = cc
eq_of_bytes_eq (x ∷ xs) [] h = cc
eq_of_bytes_eq (x ∷ xs) (y ∷ ys) h = ground (arith, eq_of_bytes_eq xs ys)
