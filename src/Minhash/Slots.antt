-- ===== src/Minhash/Slots.antt =====
-- Generate of internal/minhash/minhash.go, slot by slot.
use mathlib.Core.List.{mem-cons_self, mem-cons_of_mem}
use Prim.Native.Nat.{bit_xor}
use subnet_benchmark.Prelude.{
  ℕ, zero, suc, ◌+◌, ◌*◌, ◌%◌, ◌^◌, ◌-◌, ◌≤◌, ◌<◌, ◌≡◌, refl, ap, subst, ◌∙◌, ◌⊎◌, inl, inr, List,
  [], ◌∷◌, Mem, All, some, arith, ltb, length, take, drop, replicate, foldl, get_elem?, Bool-cases,
  true, false,
}
use subnet_benchmark.Minhash.{
  num_hashes, ngram_size, max_uint64, to_utf8, windows, extract_ngrams, fnv_loop, hash_with_seed,
  generate,
}
use subnet_benchmark.Minhash.Minimum.{slot_min, slot_mins, lower_all-slot_mins, slot_min-le_of_mem}

-- Three characters of the text in a row, or all of a text of one or two.
pub data Ngram (text : List ℕ) : List ℕ → Type 0 where
  window : (k : ℕ) → k + 3 ≤ length text → Ngram text (take 3 (drop k text))
  whole : 0 < length text → length text < 3 → Ngram text text

-- FNV-1a on 64 bits, with a seed in its basis.
abbrev pub fnv1a : ℕ → List ℕ → ℕ
fnv1a seed bytes =
    foldl (λ h b. bit_xor h b * 1099511628211 % 2 ^ 64) (bit_xor 14695981039346656037 seed) bytes

-- The value of a slot: no n-gram of the text has a smaller hash, and one has this hash unless the
-- value is the greatest of a uint64.
pub record Least (text : List ℕ) (seed slot : ℕ) : Type 0 where
  pub below : (ng : List ℕ) → Ngram text ng → slot ≤ fnv1a seed (to_utf8 ng)
  pub attained :
      (slot ≡ 2 ^ 64 - 1) ⊎ ((ng : List ℕ) × Ngram text ng × (slot ≡ fnv1a seed (to_utf8 ng)))

fnv_loop-foldl :
    (h : ℕ) (bytes : List ℕ)
    → fnv_loop h bytes ≡ foldl (λ h b. bit_xor h b * 1099511628211 % 2 ^ 64) h bytes
fnv_loop-foldl h [] = refl
fnv_loop-foldl h (b ∷ bytes) = fnv_loop-foldl (bit_xor h b * 1099511628211 % 2 ^ 64) bytes

hash-fnv1a : (bytes : List ℕ) (seed : ℕ) → hash_with_seed bytes seed ≡ fnv1a seed bytes
unfolding hash_with_seed
hash-fnv1a bytes seed = fnv_loop-foldl (bit_xor 14695981039346656037 seed) bytes

windows-Mem :
    (rounds i n k : ℕ) (text : List ℕ)
    → k < rounds
    → Mem (take n (drop (i + k) text)) (windows rounds i n text)
unfolding windows
windows-Mem zero i n k text h = absurd (omega (arith, h))
windows-Mem (suc rounds) i n zero text h =
    subst (λ (j : ℕ). Mem (take n (drop j text)) (windows (suc rounds) i n text)) (omega arith)
      (mem-cons_self {a = take n (drop i text)})
windows-Mem (suc rounds) i n (suc k) text h = mem-cons_of_mem _ (
    subst (λ (j : ℕ). Mem (take n (drop j text)) (windows rounds (i + 1) n text)) (omega arith)
      (windows-Mem rounds (i + 1) n k text (omega (arith, h))))

windows-All :
    (rounds i : ℕ) (text : List ℕ)
    → i + rounds + 2 ≤ length text
    → All (Ngram text) (windows rounds i 3 text)
unfolding windows
windows-All zero i text h = tt
windows-All (suc rounds) i text h =
    (Ngram.window i (omega (arith, h)), windows-All rounds (i + 1) text (omega (arith, h)))

Ngram-Mem : (text ng : List ℕ) → Ngram text ng → Mem ng (extract_ngrams text ngram_size)
unfolding extract_ngrams
Ngram-Mem text _ (Ngram.window k h) =
    let long : ltb (length text) 3 ≡ false = ground (arith, h) in
    rw long (
      subst (λ (j : ℕ). Mem (take 3 (drop j text)) (windows (length text - 3 + 1) 0 3 text))
        (omega arith) (windows-Mem (length text - 3 + 1) 0 3 k text (omega (arith, h))))
Ngram-Mem text _ (Ngram.whole some_ short) =
    let a : ltb (length text) 3 ≡ true = ground (arith, short) in
    let b : ltb 0 (length text) ≡ true = ground (arith, some_) in rw (a, b) mem-cons_self

extract_ngrams-All : (text : List ℕ) → All (Ngram text) (extract_ngrams text ngram_size)
unfolding extract_ngrams
extract_ngrams-All text = elim (Bool-cases (ltb (length text) 3)) [
  | inl short ↦ elim (Bool-cases (ltb 0 (length text))) [
    | inl one ↦ rw (short, one) (Ngram.whole (ground (arith, one)) (ground (arith, short)), tt)
    | inr none_ ↦ rw (short, none_) tt
  ]
  | inr long ↦ rw long (windows-All (length text - 3 + 1) 0 text (ground (arith, long)))
]

module _ (hash : List ℕ → ℕ → ℕ) (i : ℕ) (P : List ℕ → Type 0) where
  -- The minimum is the first value, or is of an n-gram in the list.
  slot_min-attained_by :
      (ngs : List (List ℕ)) (m : ℕ)
      → All P ngs
      → (slot_min hash i ngs m ≡ m)
        ⊎ ((ng : List ℕ) × P ng × (slot_min hash i ngs m ≡ hash (to_utf8 ng) i))
  slot_min-attained_by [] m all = inl refl
  slot_min-attained_by (g ∷ ngs) m all = elim (Bool-cases (ltb (hash (to_utf8 g) i) m)) [
    | inl less ↦ elim (slot_min-attained_by ngs (hash (to_utf8 g) i) all.1) [
      | inl e ↦ inr (g, all.0, rw less e)
      | inr found ↦ inr (found.0, found.1, rw less found.2)
    ]
    | inr not_less ↦ elim (slot_min-attained_by ngs m all.1) [
      | inl e ↦ inl (rw not_less e)
      | inr found ↦ inr (found.0, found.1, rw not_less found.2)
    ]
  ]

get_elem-slot_mins :
    (hash : List ℕ → ℕ → ℕ) (ngs : List (List ℕ)) (m n i j : ℕ)
    → i < n
    → get_elem? (slot_mins hash j ngs (replicate n m)) i ≡ some (slot_min hash (j + i) ngs m)
get_elem-slot_mins hash ngs m zero i j h = absurd (omega (arith, h))
get_elem-slot_mins hash ngs m (suc n) zero j h =
    ap (λ k. some (slot_min hash k ngs m)) (omega arith)
get_elem-slot_mins hash ngs m (suc n) (suc i) j h =
    get_elem-slot_mins hash ngs m n i (j + 1) (omega (arith, h))
    ∙ ap (λ k. some (slot_min hash k ngs m)) (omega arith)

-- Each of the 128 slots is the least FNV-1a hash, with the slot's number as the seed, over the
-- 3-grams of the text (of a shorter text, the text itself), or the greatest uint64 where no hash is
-- smaller.
pub generate_lem :
    (text : List ℕ) (i : ℕ)
    → i < 128
    → (slot : ℕ) × (get_elem? (generate text) i ≡ some slot) × Least text i slot
unfolding generate
generate_lem text i h =
    let ngs = extract_ngrams text ngram_size in
    let slot = slot_min hash_with_seed i ngs max_uint64 in
    (
      slot,
      rw (lower_all-slot_mins hash_with_seed ngs (replicate num_hashes max_uint64)) (
          get_elem-slot_mins hash_with_seed ngs max_uint64 128 i 0 h
          ∙ ap (λ k. some (slot_min hash_with_seed k ngs max_uint64)) (omega arith)),
      record {
        below = λ ng is.
            rw⁻¹ (hash-fnv1a (to_utf8 ng) i)
              (slot_min-le_of_mem hash_with_seed i ngs max_uint64 ng (Ngram-Mem text ng is));
        attained =
            elim (slot_min-attained_by hash_with_seed i (Ngram text) ngs max_uint64
              (extract_ngrams-All text)) [
                | inl e ↦ inl e
                | inr found ↦ inr (found.0, found.1, found.2 ∙ hash-fnv1a (to_utf8 found.0) i)
              ];
      },
    )
