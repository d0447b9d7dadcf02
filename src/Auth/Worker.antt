-- ===== src/Auth/Worker.antt =====
-- WorkerAuth of internal/handler/worker_auth.go and AdminAuth of internal/handler/middleware.go.
-- A header that is missing is the empty text, and a body that cannot be read is none. The clock is
-- read once.
use subnet_benchmark.Prelude.{
  ℕ, ◌*◌, Bool, true, false, ◌&&◌, ◌||◌, not, List, [], ◌∷◌, Option, none, some, String, ◌==◌,
  if◌then◌else◌,
}
use subnet_benchmark.Model.{Worker, is_suspended, internal_error, Result, ok, err}
use subnet_benchmark.Merkle.Hash.{hash_eq}
use subnet_benchmark.Store.{World, M, ◌>>=◌, ◌>>◌, pure, fail, ignore}
use subnet_benchmark.Store.Assignments.{is_some}
use subnet_benchmark.Store.Workers.{get_worker, create_worker, unsuspend_worker}
use subnet_benchmark.Service.Config.{RuntimeConfig, second}
use subnet_benchmark.Service.Rootnet.{to_lower}
use subnet_benchmark.Auth.{
  Crypto, bytes_of, verify_signature, build_sign_message, hash_body, address_from_hex,
}
use subnet_benchmark.Auth.Timestamps.{Stamp, parse_int, expired}

pub record Request : Type 0 where
  pub worker_address : List ℕ
  pub signature : List ℕ
  pub timestamp : List ℕ
  pub method : List ℕ
  pub path : List ℕ
  pub body : Option (List ℕ)

-- `register_check` is the RootNet's answer; none lets everyone register.
pub record WorkerAuthConfig : Type 0 where
  pub crypto : Crypto
  pub timestamp_max_diff : ℕ
  pub check_suspension : Bool
  pub signature_only : Bool
  pub register_check : Option (String → Result Bool)
  pub rt_config : Option RuntimeConfig

-- A response with a status, or the next handler for a worker.
pub data Reply : Type 0 where
  refused : ℕ → Reply
  passed : String → Reply

abbrev pub fallback : ℕ → ℕ
fallback limit = if limit == 0 then 30 * second else limit

abbrev pub max_diff : WorkerAuthConfig → Option RuntimeConfig → ℕ
max_diff cfg none = fallback cfg.timestamp_max_diff
max_diff cfg (some rt) = rt.timestamp_max_diff

abbrev pub is_empty : List ℕ → Bool
is_empty [] = true
is_empty (c ∷ text) = false

abbrev pub lacks_headers : Request → Bool
lacks_headers r = is_empty r.worker_address || is_empty r.signature || is_empty r.timestamp

-- The checks before the database: a status, or the signer's address in lower case.
pub data Checked : Type 0 where
  rejected : ℕ → Checked
  signed : String → Checked

-- The steps of the handler, from the last to the first; an address is its 20 bytes.
abbrev pub compare_addresses : Crypto → List ℕ → Option (List ℕ) → Checked
compare_addresses c recovered none = rejected 401
compare_addresses c recovered (some claimed) =
    if hash_eq recovered claimed then signed (to_lower (c.address_text recovered)) else rejected 401

abbrev pub check_signer : Crypto → Request → Option (List ℕ) → Checked
check_signer c r none = rejected 401
check_signer c r (some recovered) =
    compare_addresses c recovered (address_from_hex c r.worker_address)

abbrev pub check_body : Crypto → Request → Option (List ℕ) → Checked
check_body c r none = rejected 400
check_body c r (some body) = check_signer c r (
    verify_signature c (build_sign_message r.method r.path r.timestamp (hash_body c body))
      r.signature)

abbrev pub check_time : WorkerAuthConfig → ℕ → Request → Option Stamp → Checked
check_time cfg now r none = rejected 401
check_time cfg now r (some ts) =
    if expired now (max_diff cfg cfg.rt_config) ts
    then rejected 401
    else check_body cfg.crypto r r.body

unfoldable pub authenticate : WorkerAuthConfig → ℕ → Request → Checked
unfolding parse_int expired verify_signature build_sign_message hash_body address_from_hex hash_eq
    to_lower
authenticate cfg now r =
    if lacks_headers r then rejected 401 else check_time cfg now r (parse_int r.timestamp)

abbrev pub caught_result : {A : Type 0} → Result A × World → Result (Option A) × World
caught_result (ok a, w) = (ok (some a), w)
caught_result (err e, w) = (ok none, w)

-- An error that the caller turns into a response.
unfoldable pub caught : {A : Type 0} → M A → M (Option A)
caught m w = caught_result (m w)

-- A suspension that is over is lifted; an error is dropped.
abbrev pub lift_suspension : ℕ → String → Worker → M (Unit {0})
lift_suspension now address worker =
    if is_some worker.suspended_until && not (is_suspended now worker)
    then ignore (unsuspend_worker address)
    else pure tt

abbrev pub serve : WorkerAuthConfig → ℕ → String → Worker → M Reply
serve cfg now address worker =
    if cfg.check_suspension && is_suspended now worker
    then pure (refused 403)
    else lift_suspension now address worker >> pure (passed address)

-- Without a row after CreateWorker the handler panics.
abbrev pub serve_created : WorkerAuthConfig → ℕ → String → Option (Option Worker) → M Reply
serve_created cfg now address none = pure (refused 500)
serve_created cfg now address (some none) = fail internal_error
serve_created cfg now address (some (some worker)) = serve cfg now address worker

abbrev pub may_register : Option (String → Result Bool) → String → Result Bool
may_register none address = ok true
may_register (some check) address = check address

abbrev pub register : WorkerAuthConfig → ℕ → String → Result Bool → M Reply
register cfg now address (err e) = pure (refused 500)
register cfg now address (ok false) = pure (refused 403)
register cfg now address (ok true) = do
  created ← caught (create_worker address now)
  serve_created cfg now address created

abbrev pub look_up : WorkerAuthConfig → ℕ → String → Option (Option Worker) → M Reply
look_up cfg now address none = pure (refused 500)
look_up cfg now address (some none) =
    register cfg now address (may_register cfg.register_check address)
look_up cfg now address (some (some worker)) = serve cfg now address worker

unfoldable pub admit : WorkerAuthConfig → ℕ → String → M Reply
unfolding get_worker create_worker unsuspend_worker is_suspended ignore caught
admit cfg now address =
    if cfg.signature_only
    then pure (passed address)
    else (do found ← caught (get_worker address); look_up cfg now address found)

abbrev pub reply_to : WorkerAuthConfig → ℕ → Checked → M Reply
reply_to cfg now (rejected status) = pure (refused status)
reply_to cfg now (signed address) = admit cfg now address

-- WorkerAuth
unfoldable pub worker_auth : WorkerAuthConfig → ℕ → Request → M Reply
unfolding authenticate admit
worker_auth cfg now r = reply_to cfg now (authenticate cfg now r)

-- What follows "Bearer ", if the header begins with it.
unfoldable pub after_prefix : List ℕ → List ℕ → Option (List ℕ)
after_prefix [] text = some text
after_prefix (p ∷ prefix) [] = none
after_prefix (p ∷ prefix) (c ∷ text) =
    let rest = after_prefix prefix text in if p == c then rest else none

abbrev pub is_token : List ℕ → Option (List ℕ) → Bool
is_token token none = false
is_token token (some provided) = hash_eq provided token

-- AdminAuth: whether the next handler runs; the answer is 401 otherwise.
unfoldable pub admin_auth : List ℕ → List ℕ → Bool
unfolding after_prefix hash_eq
admin_auth token header = is_token token (after_prefix (bytes_of "Bearer ") header)
