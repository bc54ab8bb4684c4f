-- ===== src/Logger/Lines.antt =====
-- logger/logger.go: the lines of a log file, and the last of them.
use ztna_lab_appliance.Common.{
  ℕ, suc, ◌+◌, ◌-◌, ◌≤◌, ◌<◌, List, [], ◌∷◌, ◌++◌, Text, ◌≡◌, ◌≢◌, refl, arith, ap, length, drop,
  split_byte, split_step, trim_suffix_byte, ◌==◌, if◌then◌else◌, Bool-cases, inl, inr, ◌∙◌, sym,
  ◌≡⟨◌⟩◌, ◌∎,
}

abbrev pub newline : ℕ
newline = 10

-- `bytes.Count(buf, []byte{'\n'})`
unfoldable pub count_newlines : Text → ℕ
count_newlines [] = 0
count_newlines (c ∷ s) = (if c == newline then 1 else 0) + count_newlines s

module _ {ℓ} {A : Type ℓ} where
  -- `xs[len(xs)-n:]`, and all of `xs` if it is shorter.
  abbrev pub last_n : ℕ → List A → List A
  last_n n xs = drop (length xs - n) xs

  pub last_n-cons : (n : ℕ) (x : A) (xs : List A) → n ≤ length xs → last_n n (x ∷ xs) ≡ last_n n xs
  last_n-cons n x xs h =
      let e : length (x ∷ xs) - n ≡ suc (length xs - n) = omega arith in ap (λ k. drop k (x ∷ xs)) e

-- The lines of a file: none for an empty file, and a final newline ends the last line.
abbrev pub lines_of_trimmed : Text → List Text
lines_of_trimmed [] = []
lines_of_trimmed (c ∷ s) = split_byte newline (c ∷ s)

abbrev pub file_lines : Text → List Text
file_lines bytes = lines_of_trimmed (trim_suffix_byte newline bytes)

length-split_step :
    (c : ℕ) (xs : List Text)
    → 0 < length xs
    → length (split_step newline c xs) ≡ length xs + (if c == newline then 1 else 0)
unfolding split_step
length-split_step c [] h = absurd (omega arith)
length-split_step c (x ∷ xs) h = ground arith

last_n-split_step :
    (n c : ℕ) (xs : List Text) → n < length xs → last_n n (split_step newline c xs) ≡ last_n n xs
unfolding split_step
last_n-split_step n c [] h = absurd (omega arith)
last_n-split_step n c (x ∷ xs) h = elim (Bool-cases (c == newline)) [
  | inl e ↦ rw e (last_n-cons n [] (x ∷ xs) (omega arith))
  | inr e ↦ rw e (last_n-cons n (c ∷ x) xs (omega arith) ∙ sym (last_n-cons n x xs (omega arith)))
]

pub length-split_byte : (s : Text) → length (split_byte newline s) ≡ count_newlines s + 1
unfolding split_byte count_newlines
length-split_byte [] = omega arith
length-split_byte (c ∷ s) =
    omega (arith, length-split_step c (split_byte newline s), length-split_byte s)

count_newlines-append : (a b : Text) → count_newlines (a ++ b) ≡ count_newlines a + count_newlines b
unfolding count_newlines
count_newlines-append [] b = omega arith
count_newlines-append (c ∷ a) b = omega (arith, count_newlines-append a b)

-- Text in front of the last `n` newlines does not change the last `n` lines.
last_n-split :
    (n : ℕ) (a t : Text)
    → n ≤ count_newlines t
    → last_n n (split_byte newline (a ++ t)) ≡ last_n n (split_byte newline t)
unfolding split_byte
last_n-split n [] t h = refl
last_n-split n (c ∷ a) t h =
    last_n-split_step n c (split_byte newline (a ++ t))
      (omega (arith, length-split_byte (a ++ t), count_newlines-append a t))
    ∙ last_n-split n a t h

trim-cons :
    (c : ℕ) (s : Text) → s ≢ [] → trim_suffix_byte newline (c ∷ s) ≡ c ∷ trim_suffix_byte newline s
unfolding trim_suffix_byte
trim-cons c [] h = absurd (h refl)
trim-cons c (d ∷ s) h = refl

append-ne-nil : (a b : Text) → b ≢ [] → a ++ b ≢ []
append-ne-nil [] b h = h
append-ne-nil (c ∷ a) b h = λ e. cc

trim-append :
    (a b : Text) → b ≢ [] → trim_suffix_byte newline (a ++ b) ≡ a ++ trim_suffix_byte newline b
trim-append [] b h = refl
trim-append (c ∷ a) b h =
    trim-cons c (a ++ b) (append-ne-nil a b h) ∙ ap (λ s. c ∷ s) (trim-append a b h)

count_newlines-trim :
    (b : Text) → count_newlines b ≤ count_newlines (trim_suffix_byte newline b) + 1
unfolding trim_suffix_byte count_newlines
count_newlines-trim [] = omega arith
count_newlines-trim (c ∷ []) = ground arith
count_newlines-trim (c ∷ d ∷ s) = omega (arith, count_newlines-trim (d ∷ s))

lines_of_trimmed_ne : (t : Text) → t ≢ [] → lines_of_trimmed t ≡ split_byte newline t
lines_of_trimmed_ne [] h = absurd (h refl)
lines_of_trimmed_ne (c ∷ t) h = refl

has_newline-ne : (t : Text) → 0 < count_newlines t → t ≢ []
unfolding count_newlines
has_newline-ne [] h = absurd (omega arith)
has_newline-ne (c ∷ t) h = λ e. cc

-- More than `n` newlines in the end of a file hold its last `n` lines.
pub last_n-file_lines :
    (n : ℕ) (a b : Text)
    → 0 < n
    → n < count_newlines b
    → last_n n (file_lines (a ++ b)) ≡ last_n n (file_lines b)
last_n-file_lines n a b pos h =
    let t = trim_suffix_byte newline b in
    let many : n ≤ count_newlines t = omega (arith, count_newlines-trim b) in
    let t_ne : t ≢ [] = has_newline-ne t (omega arith) in
    let b_ne : b ≢ [] = has_newline-ne b (omega arith) in
    last_n n (file_lines (a ++ b))
    ≡⟨ ap (λ s. last_n n (lines_of_trimmed s)) (trim-append a b b_ne) ⟩
      last_n n (lines_of_trimmed (a ++ t))
    ≡⟨ ap (last_n n) (lines_of_trimmed_ne (a ++ t) (append-ne-nil a t t_ne)) ⟩
      last_n n (split_byte newline (a ++ t))
    ≡⟨ last_n-split n a t many ⟩ last_n n (split_byte newline t)
    ≡⟨ ap (last_n n) (sym (lines_of_trimmed_ne t t_ne)) ⟩ last_n n (file_lines b) ∎
