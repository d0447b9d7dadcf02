-- ===== src/Examples/Signatures.antt =====
-- minhash/minhash.go at short texts.
use mathlib.Core.List.{Mem-prop, mem-cons, mem-cons_self, mem-cons_of_mem}
use mathlib.Core.Logic.Or
use subnet_benchmark.Prelude.{ℕ, ◌≡◌, ◌↔◌, true, List, [], ◌∷◌, Mem, some, get_elem?, arith}
use subnet_benchmark.Minhash.{
  generate, to_bytes, from_bytes, jaccard_reaches, extract_ngrams, windows, ngram_size,
}
use subnet_benchmark.Minhash.Codec.{from_bytes-to_bytes}
use subnet_benchmark.Minhash.Minimum.{generate-IsSignature, generate-eq_of_same_ngrams}
use subnet_benchmark.Minhash.Slots.{Least, generate_lem}
use subnet_benchmark.Minhash.Similarity.{jaccard_reaches_one_iff}

-- "aaaa" and "aaaaa"
abbrev four : List ℕ
four = 97 ∷ 97 ∷ 97 ∷ 97 ∷ []

abbrev five : List ℕ
five = 97 ∷ 97 ∷ 97 ∷ 97 ∷ 97 ∷ []

from_bytes-to_bytes_example : from_bytes (to_bytes (generate five)) ≡ generate five
from_bytes-to_bytes_example = from_bytes-to_bytes (generate five) (generate-IsSignature five)

generate_lem_example : (slot : ℕ) × (get_elem? (generate four) 5 ≡ some slot) × Least four 5 slot
generate_lem_example = generate_lem four 5 (omega arith)

jaccard_reaches_one_iff_example :
    (jaccard_reaches 10000 (generate four) (generate five) ≡ true) ↔ (generate four ≡ generate five)
jaccard_reaches_one_iff_example =
    jaccard_reaches_one_iff (generate four) (generate five) (generate-IsSignature four)
      (generate-IsSignature five)

fewer :
    (ng : List ℕ)
    → Mem ng (extract_ngrams four ngram_size)
    → Mem ng (extract_ngrams five ngram_size)
unfolding extract_ngrams windows
fewer ng m = mem-cons_of_mem _ m

more :
    (ng : List ℕ)
    → Mem ng (extract_ngrams five ngram_size)
    → Mem ng (extract_ngrams four ngram_size)
unfolding extract_ngrams windows
more ng m = Or.elim Mem-prop (mem-cons.0 m) (λ same. rw same mem-cons_self) (λ there. there)

generate-eq_of_same_ngrams_example : generate four ≡ generate five
generate-eq_of_same_ngrams_example = generate-eq_of_same_ngrams four five fewer more
