-- ===== src/Auth/Checks.antt =====
-- WorkerAuth of internal/handler/worker_auth.go: which requests pass.
use subnet_benchmark.Prelude.{
  ℕ, ◌≡◌, refl, sym, ap, ◌↔◌, inl, inr, Bool, true, false, List, ◌<◌, ◌-◌, ◌^◌, Option, none, some,
  String, Bool-cases, if◌then◌else◌,
}
use subnet_benchmark.Merkle.Hash.{hash_eq}
use subnet_benchmark.Merkle.Proofs.{hash_eq_refl, hash_eq-true}
use subnet_benchmark.Service.Rootnet.{to_lower}
use subnet_benchmark.Auth.{verify_signature, build_sign_message, hash_body, address_from_hex}
use subnet_benchmark.Auth.Timestamps.{Stamp, Passes, parse_int, expired, expired_lem}
use subnet_benchmark.Auth.Worker.{
  Request, WorkerAuthConfig, max_diff, is_empty, lacks_headers, rejected, signed, compare_addresses,
  check_signer, check_body, check_time, authenticate,
}
use subnet_benchmark.Auth.Signed.{
  IsGiven, SignedWith, Signed, verify_signature-Recovers, Recovers-verify_signature,
  address_from_hex-some, given, is_empty-given, true_not_false,
}

not_signed : (n : ℕ) (a : String) → rejected n ≡ signed a → ⊥
not_signed n a e = cc

signed-injective : (a b : String) → signed a ≡ signed b → a ≡ b
signed-injective a b e = cc

module _ (cfg : WorkerAuthConfig) (now : ℕ) (r : Request) (address : String) where
  abbrev Claims : List ℕ → Option (List ℕ) → Type 0
  Claims key claimed = (claimed ≡ some key) × (to_lower (cfg.crypto.address_text key) ≡ address)

  same_address :
      (key : List ℕ) (claimed : Option (List ℕ))
      → compare_addresses cfg.crypto key claimed ≡ signed address
      → Claims key claimed
  same_address key none e = absurd (not_signed 401 address e)
  same_address key (some claimed) e = elim (Bool-cases (hash_eq key claimed)) [
    | inl same ↦
        (ap some (sym (hash_eq-true key claimed same)), signed-injective _ _ (rw same at e))
    | inr other ↦ absurd (not_signed 401 address (rw other at e))
  ]

  signer :
      (recovered : Option (List ℕ))
      → check_signer cfg.crypto r recovered ≡ signed address
      → (key : List ℕ) × (recovered ≡ some key)
        × Claims key (address_from_hex cfg.crypto r.worker_address)
  signer none e = absurd (not_signed 401 address e)
  signer (some key) e =
      (key, refl, same_address key (address_from_hex cfg.crypto r.worker_address) e)

  abbrev signature_of : List ℕ → Option (List ℕ)
  signature_of text =
      verify_signature cfg.crypto
        (build_sign_message r.method r.path r.timestamp (hash_body cfg.crypto text)) r.signature

  signed_body :
      (body : Option (List ℕ))
      → check_body cfg.crypto r body ≡ signed address
      → (text : List ℕ) × (key : List ℕ) × (body ≡ some text)
        × (signature_of text ≡ some key)
        × Claims key (address_from_hex cfg.crypto r.worker_address)
  signed_body none e = absurd (not_signed 400 address e)
  signed_body (some text) e =
      let (key, found, claims) = signer (signature_of text) e in (text, key, refl, found, claims)

  abbrev fresh_at : Stamp → Bool
  fresh_at ts = expired now (max_diff cfg cfg.rt_config) ts

  in_time :
      (o : Option Stamp)
      → check_time cfg now r o ≡ signed address
      → (ts : Stamp) × (o ≡ some ts)
        × (fresh_at ts ≡ false)
        × (check_body cfg.crypto r r.body ≡ signed address)
  in_time none e = absurd (not_signed 401 address e)
  in_time (some ts) e = elim (Bool-cases (fresh_at ts)) [
    | inl late ↦ absurd (not_signed 401 address (rw late at e))
    | inr fresh ↦ (ts, refl, fresh, rw fresh at e)
  ]

  has_headers :
      lacks_headers r ≡ false → IsGiven r.worker_address × IsGiven r.signature × IsGiven r.timestamp
  has_headers h = elim (Bool-cases (is_empty r.worker_address)) [
    | inl lacks ↦ absurd (true_not_false (rw lacks at h))
    | inr one ↦ elim (Bool-cases (is_empty r.signature)) [
      | inl lacks ↦ absurd (true_not_false (rw (one, lacks) at h))
      | inr two ↦ (given _ one, given _ two, given _ (rw (one, two) at h))
    ]
  ]

  module _ {Fresh : Stamp → Type 0} (s : SignedWith Fresh cfg r address) where
    all_headers : lacks_headers r ≡ false
    all_headers =
        let (one, two, three) = s.headers in
        rw (is_empty-given _ one, is_empty-given _ two, is_empty-given _ three) refl

    has_signature : signature_of s.text ≡ some s.key
    unfolding build_sign_message hash_body
    has_signature =
        Recovers-verify_signature cfg.crypto _ s.key s.signature r.signature
          (s.decoded, s.size, s.recovered)

    has_claimed : address_from_hex cfg.crypto r.worker_address ≡ some s.key
    unfolding address_from_hex
    has_claimed = rw s.is_address (ap some s.claimed)

    passes-check_body : check_body cfg.crypto r r.body ≡ signed address
    passes-check_body =
        rw (s.has_body, has_signature, has_claimed, hash_eq_refl s.key) (ap signed s.named)

  complete :
      (b : Bool)
      → lacks_headers r ≡ b
      → (if b then rejected 401 else check_time cfg now r (parse_int r.timestamp)) ≡ signed address
      → Signed cfg now r address
  unfolding build_sign_message hash_body
  complete true none_ e = absurd (not_signed 401 address e)
  complete false all e =
      let (ts, read, fresh, rest) = in_time (parse_int r.timestamp) e in
      let (text, key, body, recovered, (claimed, named)) = signed_body r.body rest in
      let (signature, (decoded, size, found)) =
        verify_signature-Recovers cfg.crypto _ key r.signature recovered in
      let (is, the) = address_from_hex-some cfg.crypto r.worker_address key claimed in
      record {
        ts = ts;
        text = text;
        signature = signature;
        key = key;
        headers = has_headers all;
        read = read;
        fresh = fresh;
        has_body = body;
        decoded = decoded;
        size = size;
        recovered = found;
        is_address = is;
        claimed = the;
        named = named;
      }

  pub authenticate-Signed : authenticate cfg now r ≡ signed address → Signed cfg now r address
  unfolding authenticate
  authenticate-Signed e = complete (lacks_headers r) refl e

  pub Signed-authenticate : Signed cfg now r address → authenticate cfg now r ≡ signed address
  unfolding authenticate
  Signed-authenticate s = rw (all_headers s, s.read, s.fresh) (passes-check_body s)

  module _ {F G : Stamp → Type 0} (f : (ts : Stamp) → F ts → G ts) where
    with_fresh : SignedWith F cfg r address → SignedWith G cfg r address
    with_fresh s = record {
      ts = s.ts;
      text = s.text;
      signature = s.signature;
      key = s.key;
      headers = s.headers;
      read = s.read;
      fresh = f s.ts s.fresh;
      has_body = s.has_body;
      decoded = s.decoded;
      size = s.size;
      recovered = s.recovered;
      is_address = s.is_address;
      claimed = s.claimed;
      named = s.named;
    }

  -- Where now and the limit are below 2 ^ 63 - 1 nanoseconds: the checks before the database pass
  -- exactly the requests with all headers that are signed by the key of the address that they name,
  -- over the method, the path, the timestamp and the hash of the body, and whose timestamp is no
  -- further from now than the limit, or 2 ^ 63 nanoseconds or more ahead of it.
  pub authenticate_lem :
      now < 2 ^ 63 - 1
      → max_diff cfg cfg.rt_config < 2 ^ 63 - 1
      → (authenticate cfg now r ≡ signed address)
        ↔ SignedWith (Passes now (max_diff cfg cfg.rt_config)) cfg r address
  authenticate_lem t m = (
    λ e.
        with_fresh (λ ts. (expired_lem now (max_diff cfg cfg.rt_config) t m ts).0)
          (authenticate-Signed e),
    λ s.
        Signed-authenticate
          (with_fresh (λ ts. (expired_lem now (max_diff cfg cfg.rt_config) t m ts).1) s),
  )
