-- ===== src/Service/Suspension.antt =====
-- maybeSuspend of internal/service/scoring.go: exponential suspension of low scorers. Minutes are
-- an int, durations an int64 of nanoseconds: both wrap at 2 ^ 64, and from 2 ^ 63 they are negative.
use native.Mathlib.Nat.{pow-suc, one-le-pow}
use subnet_benchmark.Prelude.{
  ℕ, zero, suc, ◌+◌, ◌-◌, ◌*◌, ◌%◌, ◌^◌, ◌≤◌, ◌<◌, max, ◌≡◌, ap, Option, none, some, String, arith,
  ltb, lt→ltb, if◌then◌else◌, ◌==◌,
}
use subnet_benchmark.Model.{Worker, is_suspended}
use subnet_benchmark.Store.{M, ◌>>=◌, pure, ignore}
use subnet_benchmark.Store.Workers.{get_worker, suspend_worker}
use subnet_benchmark.Service.Config.{RuntimeConfig, minute, suspension_threshold, base_susp_minutes}

-- `for i := 1; i < violations; i++ { minutes *= 2 }`, with the rounds left.
unfoldable pub double_minutes : ℕ → ℕ → ℕ
double_minutes zero minutes = minutes
double_minutes (suc rounds) minutes = double_minutes rounds (minutes * 2 % 2 ^ 64)

-- time.Duration(minutes) * time.Minute
unfoldable pub in_minutes : ℕ → ℕ
in_minutes minutes = minutes * minute % 2 ^ 64

-- t.Add(d). A time before 1970 is 1970 here; both are over at any later time.
unfoldable pub add_duration : ℕ → ℕ → ℕ
add_duration t d = if ltb d (2 ^ 63) then t + d else t - (2 ^ 64 - d)

abbrev from_until : Option ℕ → ℕ → ℕ
from_until none now = now
from_until (some until) now = until

-- The end of the suspension, counted from `now`, or from the end of the one that still runs.
unfoldable pub suspended_until : ℕ → ℕ → Worker → ℕ
unfolding double_minutes in_minutes add_duration is_suspended
suspended_until now base w =
    add_duration (if is_suspended now w then from_until w.suspended_until now else now)
      (in_minutes (double_minutes w.epoch_violations base))

abbrev pub suspend_found : ℕ → ℕ → String → Option Worker → M (Unit {0})
suspend_found now base address none = pure tt
suspend_found now base address (some w) =
    ignore (suspend_worker address (suspended_until now base w) (w.epoch_violations + 1))

-- Errors of either statement are dropped; a threshold of 0 turns suspension off.
unfoldable pub maybe_suspend : Option RuntimeConfig → ℕ → ℕ → String → M (Unit {0})
unfolding suspended_until get_worker suspend_worker ignore
maybe_suspend config fallback now address =
    if suspension_threshold config == 0
    then pure tt
    else ignore
        (do w ← get_worker address; suspend_found now (base_susp_minutes config fallback) address w)

double_step : (minutes rounds : ℕ) → minutes * 2 ^ suc rounds ≡ minutes * 2 * 2 ^ rounds
double_step minutes rounds = omega (arith, ap (λ (t : ℕ). minutes * t) (pow-suc 2 rounds))

-- Without overflow the loop doubles once a round.
double_minutes_lem :
    (rounds minutes : ℕ)
    → minutes * 2 ^ rounds < 2 ^ 64
    → double_minutes rounds minutes ≡ minutes * 2 ^ rounds
unfolding double_minutes
double_minutes_lem zero minutes h = omega arith
double_minutes_lem (suc rounds) minutes h =
    let step = double_step minutes rounds in
    let doubled : minutes * 2 ≤ minutes * 2 * 2 ^ rounds = grind (arith, one-le-pow rounds 2) in
    let fits : minutes * 2 % 2 ^ 64 ≡ minutes * 2 = omega arith in
    rw (fits, step) (double_minutes_lem rounds (minutes * 2) (omega arith))

-- The later of now and the end of the last suspension, if any.
abbrev pub later_of : ℕ → Option ℕ → ℕ
later_of now none = now
later_of now (some until) = max now until

start_of :
    (now : ℕ) (w : Worker)
    → (if is_suspended now w then from_until w.suspended_until now else now)
      ≡ later_of now w.suspended_until
unfolding is_suspended
start_of now w = ground arith

-- A worker with `v` violations so far is suspended for base · 2 ^ v minutes, counted from the later
-- of now and the end of the last suspension, as long as that is a duration of int64.
pub suspended_until_lem :
    (now base : ℕ) (w : Worker)
    → base * 2 ^ w.epoch_violations * minute < 2 ^ 63
    → suspended_until now base w
      ≡ later_of now w.suspended_until + base * 2 ^ w.epoch_violations * minute
unfolding suspended_until
suspended_until_lem now base w h =
    let small : base * 2 ^ w.epoch_violations < 2 ^ 64 = omega arith in
    let wrap : base * 2 ^ w.epoch_violations * minute % 2 ^ 64
        ≡ base * 2 ^ w.epoch_violations * minute =
      omega arith in
    let positive = lt→ltb (base * 2 ^ w.epoch_violations * minute) (2 ^ 63) h in
    rw (double_minutes_lem w.epoch_violations base small, wrap, positive, start_of now w)
