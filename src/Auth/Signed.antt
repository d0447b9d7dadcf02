-- ===== src/Auth/Signed.antt =====
-- A signed request, in the terms of EIP-191: what internal/auth/auth.go and
-- internal/handler/worker_auth.go are to check.
use subnet_benchmark.Prelude.{
  ℕ, ◌≡◌, refl, inl, inr, true, false, List, [], ◌∷◌, ◌++◌, length, ◌==◌, ==_iff, Option, none,
  some, String, Bool-cases,
}
use subnet_benchmark.Service.Rootnet.{to_lower}
use mathlib.Core.Option
use subnet_benchmark.Merkle.Hex.{encode_hex, decode_hex, trim_prefix}
use subnet_benchmark.Auth.{
  Crypto, bytes_of, decimal, normalized, personal_text, recover_from, verify_signature,
  address_from_hex,
}
use subnet_benchmark.Auth.Timestamps.{Stamp, parse_int, expired}
use subnet_benchmark.Auth.Worker.{Request, WorkerAuthConfig, max_diff, is_empty}

-- What a worker signs: the method, the path, the timestamp and the hash of the body.
abbrev pub signed_text : WorkerAuthConfig → Request → List ℕ → List ℕ
signed_text cfg r text = r.method ++ r.path ++ r.timestamp ++ encode_hex (cfg.crypto.sha256 text)

-- EIP-191: the text that is hashed and signed in place of a message.
abbrev pub eip191 : List ℕ → List ℕ
eip191 message =
    25 ∷ bytes_of "Ethereum Signed Message:" ++ 10 ∷ decimal (length message) ++ message

abbrev pub IsGiven : List ℕ → Type 0
IsGiven text = ¬ (text ≡ [])

-- The request has its headers, its timestamp is `Fresh`, and it is signed, over its method, path,
-- timestamp and body, by the key of the address that it names, with a signature of 65 bytes in
-- hexadecimal.
pub record SignedWith (Fresh : Stamp → Type 0) (cfg : WorkerAuthConfig) (r : Request)
    (address : String) : Type 0 where
  pub ts : Stamp
  pub text : List ℕ
  pub signature : List ℕ
  pub key : List ℕ
  pub headers : IsGiven r.worker_address × IsGiven r.signature × IsGiven r.timestamp
  pub read : parse_int r.timestamp ≡ some ts
  pub fresh : Fresh ts
  pub has_body : r.body ≡ some text
  pub decoded : decode_hex (trim_prefix r.signature) ≡ some signature
  pub size : length signature ≡ 65
  pub recovered :
      cfg.crypto.recover
        (cfg.crypto.keccak256 (eip191 (signed_text cfg r text)))
        (normalized signature)
      ≡ some key
  pub is_address : cfg.crypto.is_hex_address r.worker_address ≡ true
  pub claimed : cfg.crypto.hex_to_address r.worker_address ≡ key
  pub named : to_lower (cfg.crypto.address_text key) ≡ address

-- Signed, with a timestamp that is not expired.
abbrev pub Signed : WorkerAuthConfig → ℕ → Request → String → Type 0
Signed cfg now r address =
    SignedWith (λ ts. expired now (max_diff cfg cfg.rt_config) ts ≡ false) cfg r address

module _ (c : Crypto) where
  -- A signature that verifies, taken apart.
  abbrev pub Recovers : List ℕ → List ℕ → List ℕ → List ℕ → Type 0
  Recovers message key signature text =
      (decode_hex (trim_prefix text) ≡ some signature)
      × (length signature ≡ 65)
      × (c.recover (c.keccak256 (eip191 message)) (normalized signature) ≡ some key)

  pub verify_signature-Recovers :
      (message key text : List ℕ)
      → verify_signature c message text ≡ some key
      → (signature : List ℕ) × Recovers message key signature text
  unfolding verify_signature personal_text
  verify_signature-Recovers message key text e = split (decode_hex (trim_prefix text)) refl e
    where
      none_ : {A : Type 0} → (a : A) → none ≡ some a → ⊥
      none_ a e = cc

      split :
          (o : Option (List ℕ))
          → decode_hex (trim_prefix text) ≡ o
          → recover_from c message o ≡ some key
          → (signature : List ℕ) × Recovers message key signature text
      split none d e = absurd (none_ key e)
      split (some signature) d e = elim (Bool-cases (length signature == 65)) [
        | inl fits ↦ (signature, (d, (==_iff (length signature) 65).0 fits, rw fits at e))
        | inr other ↦ absurd (none_ key (rw other at e))
      ]

  pub Recovers-verify_signature :
      (message key signature text : List ℕ)
      → Recovers message key signature text
      → verify_signature c message text ≡ some key
  unfolding verify_signature personal_text
  Recovers-verify_signature message key signature text (d, size, e) =
      rw (d, (==_iff (length signature) 65).1 size) e

  pub address_from_hex-some :
      (text key : List ℕ)
      → address_from_hex c text ≡ some key
      → (c.is_hex_address text ≡ true) × (c.hex_to_address text ≡ key)
  unfolding address_from_hex
  address_from_hex-some text key e = elim (Bool-cases (c.is_hex_address text)) [
    | inl is ↦ (is, Option.some-injective _ _ (rw is at e))
    | inr is_not ↦ absurd (no (rw is_not at e))
  ]
    where
      no : none ≡ some key → ⊥
      no e = cc

pub true_not_false : true ≡ false → ⊥
true_not_false e = cc

pub given : (text : List ℕ) → is_empty text ≡ false → IsGiven text
given text some_ e = true_not_false (rw e at some_)

pub is_empty-given : (text : List ℕ) → IsGiven text → is_empty text ≡ false
is_empty-given [] some_ = absurd (some_ refl)
is_empty-given (c ∷ text) some_ = refl
