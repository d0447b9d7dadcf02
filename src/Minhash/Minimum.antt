-- ===== src/Minhash/Minimum.antt =====
-- Each slot of a signature is the minimum of its hash over the n-grams, so a signature depends on
-- the set of the n-grams only.
use mathlib.Core.List.{mem-cons, not-mem-nil, mem-cons_self, mem-cons_of_mem}
use mathlib.Core.Logic.Or
use mathlib.Core.Path.{ap₂}
use native.Mathlib.Bridge.{le_prop}
use subnet_benchmark.Prelude.{
  ℕ, zero, suc, ◌+◌, ◌^◌, ◌≤◌, ◌<◌, ◌≡◌, refl, ap, ◌∙◌, ◌⊎◌, inl, inr, List, [], ◌∷◌, Mem, arith,
  ltb, length, replicate, if◌then◌else◌, length-replicate, Bool-cases, true, false,
}
use subnet_benchmark.Minhash.{
  Signature, num_hashes, ngram_size, max_uint64, to_utf8, extract_ngrams, hash_with_seed,
  lower_slots, lower_all, generate,
}
use subnet_benchmark.Minhash.Codec.{AllBelow, IsSignature}

module _ (hash : List ℕ → ℕ → ℕ) where
  -- The least value of slot `i` over the n-grams, from the slot's first value.
  abbrev pub slot_min : ℕ → List (List ℕ) → ℕ → ℕ
  slot_min i [] m = m
  slot_min i (ng ∷ ngs) m =
      slot_min i ngs (if ltb (hash (to_utf8 ng) i) m then hash (to_utf8 ng) i else m)

  abbrev pub slot_mins : ℕ → List (List ℕ) → Signature → Signature
  slot_mins i ngs [] = []
  slot_mins i ngs (slot ∷ slots) = slot_min i ngs slot ∷ slot_mins (i + 1) ngs slots

  slot_mins-lower_slots :
      (ng : List ℕ) (ngs : List (List ℕ)) (i : ℕ) (sig : Signature)
      → slot_mins i ngs (lower_slots hash (to_utf8 ng) i sig) ≡ slot_mins i (ng ∷ ngs) sig
  unfolding lower_slots
  slot_mins-lower_slots ng ngs i [] = refl
  slot_mins-lower_slots ng ngs i (slot ∷ slots) =
      ap (◌∷◌ (slot_min i (ng ∷ ngs) slot)) (slot_mins-lower_slots ng ngs (i + 1) slots)

  slot_mins-nil : (i : ℕ) (sig : Signature) → slot_mins i [] sig ≡ sig
  slot_mins-nil i [] = refl
  slot_mins-nil i (slot ∷ slots) = ap (◌∷◌ slot) (slot_mins-nil (i + 1) slots)

  -- The loops of Generate compute the minimum of every slot.
  pub lower_all-slot_mins :
      (ngs : List (List ℕ)) (sig : Signature) → lower_all hash ngs sig ≡ slot_mins 0 ngs sig
  unfolding lower_all
  lower_all-slot_mins [] sig = rw (slot_mins-nil 0 sig)
  lower_all-slot_mins (ng ∷ ngs) sig =
      lower_all-slot_mins ngs (lower_slots hash (to_utf8 ng) 0 sig)
      ∙ slot_mins-lower_slots ng ngs 0 sig

  pub slot_min-le : (i : ℕ) (ngs : List (List ℕ)) (m : ℕ) → slot_min i ngs m ≤ m
  slot_min-le i [] m = omega arith
  slot_min-le i (ng ∷ ngs) m =
      ground (arith, slot_min-le i ngs (hash (to_utf8 ng) i), slot_min-le i ngs m)

  pub slot_min-le_of_mem :
      (i : ℕ) (ngs : List (List ℕ)) (m : ℕ) (ng : List ℕ)
      → Mem ng ngs
      → slot_min i ngs m ≤ hash (to_utf8 ng) i
  slot_min-le_of_mem i [] m ng there = absurd (not-mem-nil there)
  slot_min-le_of_mem i (g ∷ ngs) m ng there =
      Or.elim le_prop (mem-cons.0 there)
        (λ same.
          rw same (ground (arith, slot_min-le i ngs (hash (to_utf8 g) i), slot_min-le i ngs m)))
        (λ later. slot_min-le_of_mem i ngs _ ng later)

  pub slot_min-attained :
      (i : ℕ) (ngs : List (List ℕ)) (m : ℕ)
      → (slot_min i ngs m ≡ m)
        ⊎ ((ng : List ℕ) × Mem ng ngs × (slot_min i ngs m ≡ hash (to_utf8 ng) i))
  slot_min-attained i [] m = inl refl
  slot_min-attained i (g ∷ ngs) m =
      weigh (Bool-cases (ltb (hash (to_utf8 g) i) m)) (slot_min-attained i ngs next)
    where
      next : ℕ
      next = if ltb (hash (to_utf8 g) i) m then hash (to_utf8 g) i else m

      weigh :
          (ltb (hash (to_utf8 g) i) m ≡ true) ⊎ (ltb (hash (to_utf8 g) i) m ≡ false)
          → (slot_min i ngs next ≡ next)
            ⊎ ((ng : List ℕ) × Mem ng ngs × (slot_min i ngs next ≡ hash (to_utf8 ng) i))
          → (slot_min i ngs next ≡ m)
            ⊎ ((ng : List ℕ) × Mem ng (g ∷ ngs) × (slot_min i ngs next ≡ hash (to_utf8 ng) i))
      weigh _ (inr (ng, there, e)) = inr (ng, mem-cons_of_mem g there, e)
      weigh (inl less) (inl e) = inr (g, mem-cons_self, e ∙ ground arith)
      weigh (inr not_less) (inl e) = inl (e ∙ ground arith)

  -- More n-grams can only lower a slot.
  slot_min_anti :
      (i : ℕ) (xs ys : List (List ℕ)) (m : ℕ)
      → ((ng : List ℕ) → Mem ng ys → Mem ng xs)
      → slot_min i xs m ≤ slot_min i ys m
  slot_min_anti i xs ys m sub = elim (slot_min-attained i ys m) [
    | inl e ↦ rw e (slot_min-le i xs m)
    | inr (ng, there, e) ↦ rw e (slot_min-le_of_mem i xs m ng (sub ng there))
  ]

  slot_mins_ext :
      (i : ℕ) (xs ys : List (List ℕ)) (sig : Signature)
      → ((ng : List ℕ) → Mem ng xs → Mem ng ys)
      → ((ng : List ℕ) → Mem ng ys → Mem ng xs)
      → slot_mins i xs sig ≡ slot_mins i ys sig
  slot_mins_ext i xs ys [] f g = refl
  slot_mins_ext i xs ys (m ∷ sig) f g =
      ap₂ ◌∷◌ (omega (arith, slot_min_anti i xs ys m g, slot_min_anti i ys xs m f))
        (slot_mins_ext (i + 1) xs ys sig f g)

  length-slot_mins :
      (i : ℕ) (ngs : List (List ℕ)) (sig : Signature) → length (slot_mins i ngs sig) ≡ length sig
  length-slot_mins i ngs [] = refl
  length-slot_mins i ngs (m ∷ sig) = ap suc (length-slot_mins (i + 1) ngs sig)

  slot_mins-AllBelow :
      (i n : ℕ) (ngs : List (List ℕ)) (sig : Signature)
      → AllBelow n sig
      → AllBelow n (slot_mins i ngs sig)
  slot_mins-AllBelow i n ngs [] h = tt
  slot_mins-AllBelow i n ngs (m ∷ sig) h =
      (omega (arith, slot_min-le i ngs m), slot_mins-AllBelow (i + 1) n ngs sig h.1)

pub replicate-AllBelow : (n k x : ℕ) → x < n → AllBelow n (replicate k x)
replicate-AllBelow n zero x h = tt
replicate-AllBelow n (suc k) x h = (h, replicate-AllBelow n k x h)

-- Generate returns 128 values of uint64, whatever the text.
pub generate-IsSignature : (text : List ℕ) → IsSignature (generate text)
unfolding generate
generate-IsSignature text =
    let ngs = extract_ngrams text ngram_size in
    let start : Signature = replicate num_hashes max_uint64 in
    rw (lower_all-slot_mins hash_with_seed ngs start) (record {
      slots = length-slot_mins hash_with_seed 0 ngs start ∙ length-replicate num_hashes max_uint64;
      fits =
          slot_mins-AllBelow hash_with_seed 0 (2 ^ 64) ngs start
            (replicate-AllBelow (2 ^ 64) num_hashes max_uint64 (omega arith));
    })

-- Texts with the same set of 3-grams, in whatever order and number, have the same signature.
pub generate-eq_of_same_ngrams :
    (a b : List ℕ)
    → ((ng : List ℕ) → Mem ng (extract_ngrams a ngram_size) → Mem ng (extract_ngrams b ngram_size))
    → ((ng : List ℕ) → Mem ng (extract_ngrams b ngram_size) → Mem ng (extract_ngrams a ngram_size))
    → generate a ≡ generate b
unfolding generate
generate-eq_of_same_ngrams a b f g =
    let start : Signature = replicate num_hashes max_uint64 in
    rw
      (
        lower_all-slot_mins hash_with_seed (extract_ngrams a ngram_size) start,
        lower_all-slot_mins hash_with_seed (extract_ngrams b ngram_size) start,
      )
      (slot_mins_ext hash_with_seed 0 (extract_ngrams a ngram_size) (extract_ngrams b ngram_size)
        start f g)
