-- ===== src/Examples/Requests.antt =====
-- internal/auth and the middleware at a signed request, and the times of settlements.
use subnet_benchmark.Prelude.{
  ℕ, ◌+◌, ◌*◌, ◌≤◌, ◌<◌, ◌≡◌, ◌↔◌, refl, true, false, [], ◌∷◌, length, replicate, some, none, ◌==◌,
  arith,
}
use subnet_benchmark.Store.Meets.{Ends}
use subnet_benchmark.Service.Config.{second}
use subnet_benchmark.Service.Onchain.{day_length, date_of, date_to_epoch_uint32}
use subnet_benchmark.Auth.{Crypto, bytes_of}
use subnet_benchmark.Auth.Timestamps.{Stamp, Passes, since, expired, expired_lem}
use subnet_benchmark.Auth.Worker.{
  Request, WorkerAuthConfig, Checked, signed, authenticate, worker_auth, admin_auth,
}
use subnet_benchmark.Auth.Signed.{SignedWith}
use subnet_benchmark.Auth.Checks.{authenticate-Signed, authenticate_lem}
use subnet_benchmark.Auth.Admission.{Justified, worker_auth-Justified}
use subnet_benchmark.Auth.Entry.{calm, Entering, worker_auth-Entering}
use subnet_benchmark.System.Schedule.{hour, next_settlement, epoch_to_settle, next_settlement_lem}
use subnet_benchmark.Examples.Tables.{small_db, world_of}

-- Every signature is of one address.
abbrev pub toy_crypto : Crypto
toy_crypto = record {
  sha256 = λ text. replicate 32 (length text);
  keccak256 = λ text. replicate 32 (length text);
  recover = λ hash signature. some (replicate 20 7);
  is_hex_address = λ text. length text == 42;
  hex_to_address = λ text. replicate 20 7;
  address_text = λ address. "Miner";
}

abbrev miner_auth : WorkerAuthConfig
miner_auth = record {
  crypto = toy_crypto;
  timestamp_max_diff = 0;
  check_suspension = true;
  signature_only = false;
  register_check = none;
  rt_config = none;
}

abbrev pub poll_request : Request
poll_request = record {
  worker_address = 48 ∷ 120 ∷ replicate 40 55;
  signature = replicate 130 48;
  timestamp = bytes_of "100";
  method = bytes_of "GET";
  path = bytes_of "/api/v1/poll";
  body = some [];
}

authenticate_lem_example :
    (authenticate miner_auth (120 * second) poll_request ≡ signed "miner")
    ↔ SignedWith (Passes (120 * second) (30 * second)) miner_auth poll_request "miner"
authenticate_lem_example =
    authenticate_lem miner_auth (120 * second) poll_request "miner" (omega arith) (omega arith)

authenticated : authenticate miner_auth (120 * second) poll_request ≡ signed "miner"
unfolding authenticate
authenticated = refl

-- After 31 seconds it is too late.
late : authenticate miner_auth (131 * second) poll_request ≡ Checked.rejected 401
unfolding authenticate
late = refl

worker_auth-Justified_example :
    Ends
      (λ reply _. Justified miner_auth (120 * second) poll_request small_db reply)
      (λ _. Unit {0})
      (worker_auth miner_auth (120 * second) poll_request (world_of small_db))
worker_auth-Justified_example =
    worker_auth-Justified miner_auth (120 * second) poll_request (world_of small_db)

worker_auth-Entering_example :
    Entering miner_auth
      (120 * second)
      "miner"
      small_db
      (worker_auth miner_auth (120 * second) poll_request (calm small_db [] [])).0
      (worker_auth miner_auth (120 * second) poll_request (calm small_db [] [])).1.db
worker_auth-Entering_example =
    worker_auth-Entering miner_auth (120 * second) small_db [] [] poll_request "miner"
      (authenticate-Signed miner_auth (120 * second) poll_request "miner" authenticated) refl

expired_lem_example :
    (expired (1800000000 * second) (30 * second) (Stamp.after 99999999999) ≡ false)
    ↔ Passes (1800000000 * second) (30 * second) (Stamp.after 99999999999)
expired_lem_example =
    expired_lem (1800000000 * second) (30 * second) (omega arith) (omega arith)
      (Stamp.after 99999999999)

-- A timestamp of the year 5138 passes in 2027.
far_ahead : expired (1800000000 * second) (30 * second) (Stamp.after 99999999999) ≡ false
unfolding expired since
far_ahead = refl

admin_passes : admin_auth (bytes_of "secret") (bytes_of "Bearer secret") ≡ true
unfolding admin_auth
admin_passes = refl

-- 6 October 2026, 12:00, and half an hour after the settlement that is due next.
abbrev noon : ℕ
noon = 1791288000 * second

next_settlement_lem_example :
    (noon < next_settlement noon)
    × (next_settlement noon ≤ noon + day_length)
    × (next_settlement (1791336600 * second) ≡ next_settlement noon + day_length)
    × (epoch_to_settle (next_settlement (1791336600 * second))
        ≡ epoch_to_settle (next_settlement noon) + day_length)
    × (epoch_to_settle (next_settlement noon) + (day_length + hour) ≡ next_settlement noon)
unfolding next_settlement
next_settlement_lem_example =
    next_settlement_lem noon (1791336600 * second) (omega arith) (omega arith) (omega arith)

-- The epoch that is settled then.
noon-epoch : date_to_epoch_uint32 (date_of (epoch_to_settle (next_settlement noon))) ≡ 20261006
unfolding next_settlement epoch_to_settle date_of date_to_epoch_uint32
noon-epoch = refl
