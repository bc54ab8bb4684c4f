-- ===== src/Latency/Sorted.antt =====
-- Sorting samples (`sort.Slice` in main.go), and elements of a sorted list by index.
use ztna_lab_appliance.Common.{
  ℕ, zero, suc, ◌≤◌, ◌<◌, List, [], ◌∷◌, some, ◌≡◌, refl, arith, length, get_elem?, leb,
  if◌then◌else◌, Bool-cases, inl, inr,
}

unfoldable pub insert_sample : ℕ → List ℕ → List ℕ
insert_sample x [] = x ∷ []
insert_sample x (y ∷ ys) = if leb x y then x ∷ y ∷ ys else y ∷ insert_sample x ys

unfoldable pub sort : List ℕ → List ℕ
unfolding insert_sample
sort [] = []
sort (x ∷ xs) = insert_sample x (sort xs)

abbrev pub AllAbove : ℕ → List ℕ → Type 0
AllAbove b [] = Unit
AllAbove b (x ∷ xs) = (b ≤ x) × AllAbove b xs

abbrev pub IsSorted : List ℕ → Type 0
IsSorted [] = Unit
IsSorted (x ∷ xs) = AllAbove x xs × IsSorted xs

AllAbove-weaken : (a b : ℕ) (xs : List ℕ) → a ≤ b → AllAbove b xs → AllAbove a xs
AllAbove-weaken a b [] h above = tt
AllAbove-weaken a b (x ∷ xs) h above = (omega arith, AllAbove-weaken a b xs h above.1)

AllAbove-insert : (b x : ℕ) (ys : List ℕ) → b ≤ x → AllAbove b ys → AllAbove b (insert_sample x ys)
unfolding insert_sample
AllAbove-insert b x [] h above = (h, tt)
AllAbove-insert b x (y ∷ ys) h above = ground (arith, AllAbove-insert b x ys h above.1)

insert_sample-IsSorted : (x : ℕ) (ys : List ℕ) → IsSorted ys → IsSorted (insert_sample x ys)
unfolding insert_sample
insert_sample-IsSorted x [] s = (tt, tt)
insert_sample-IsSorted x (y ∷ ys) s = elim (Bool-cases (leb x y)) [
  | inl below ↦ let h : x ≤ y = ground arith in rw below ((h, AllAbove-weaken x y ys h s.0), s)
  | inr above ↦
      rw above (AllAbove-insert y x ys (ground arith) s.0, insert_sample-IsSorted x ys s.1)
]

pub sort-IsSorted : (xs : List ℕ) → IsSorted (sort xs)
unfolding sort
sort-IsSorted [] = tt
sort-IsSorted (x ∷ xs) = insert_sample-IsSorted x (sort xs) (sort-IsSorted xs)

length-insert_sample : (x : ℕ) (ys : List ℕ) → length (insert_sample x ys) ≡ suc (length ys)
unfolding insert_sample
length-insert_sample x [] = refl
length-insert_sample x (y ∷ ys) = ground (arith, length-insert_sample x ys)

pub length-sort : (xs : List ℕ) → length (sort xs) ≡ length xs
unfolding sort
length-sort [] = refl
length-sort (x ∷ xs) = omega (arith, length-insert_sample x (sort xs), length-sort xs)

pub get_elem?_total : (xs : List ℕ) (i : ℕ) → i < length xs → (x : ℕ) × (get_elem? xs i ≡ some x)
get_elem?_total [] i h = absurd (omega arith)
get_elem?_total (x ∷ xs) zero h = (x, refl)
get_elem?_total (x ∷ xs) (suc i) h = get_elem?_total xs i (omega arith)

get_elem?-above :
    (b : ℕ) (xs : List ℕ) (i : ℕ) {x : ℕ} → AllAbove b xs → get_elem? xs i ≡ some x → b ≤ x
get_elem?-above b [] i above e = cc
get_elem?-above b (y ∷ ys) zero {x} above e = ground arith
get_elem?-above b (y ∷ ys) (suc i) above e = get_elem?-above b ys i above.1 e

-- Elements of a sorted list are in the order of their indices.
pub get_elem?_mono :
    (xs : List ℕ) (i j : ℕ) {x y : ℕ}
    → IsSorted xs
    → i ≤ j
    → get_elem? xs i ≡ some x
    → get_elem? xs j ≡ some y
    → x ≤ y
get_elem?_mono [] i j s h e f = cc
get_elem?_mono (z ∷ zs) zero zero s h e f = ground arith
get_elem?_mono (z ∷ zs) zero (suc j) {x} {y} s h e f =
    ground (arith, get_elem?-above z zs j {x = y} s.0 f)
get_elem?_mono (z ∷ zs) (suc i) zero s h e f = absurd (omega arith)
get_elem?_mono (z ∷ zs) (suc i) (suc j) s h e f = get_elem?_mono zs i j s.1 (omega arith) e f
