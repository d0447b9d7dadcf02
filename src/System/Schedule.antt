-- ===== src/System/Schedule.antt =====
-- startSettlementScheduler of cmd/benchmarkd/main.go: the times of the daily settlements.
use subnet_benchmark.Prelude.{ℕ, ◌+◌, ◌-◌, ◌*◌, ◌/◌, ◌≤◌, ◌<◌, ◌≡◌, arith, ltb, if◌then◌else◌}
use subnet_benchmark.Service.Config.{second}
use subnet_benchmark.Service.Onchain.{day_length}

abbrev pub hour : ℕ
hour = 3600 * second

-- time.Date of the day of `t`, in UTC
abbrev pub midnight : ℕ → ℕ
midnight t = t / day_length * day_length

-- The next 01:00.
unfoldable pub next_settlement : ℕ → ℕ
next_settlement now =
    let today = midnight now + hour in if ltb now today then today else today + day_length

-- The day before.
unfoldable pub epoch_to_settle : ℕ → ℕ
epoch_to_settle next = midnight (next - day_length)

-- From 2 January 1970 on, a settlement is due later than now and within a day; if it starts at its time and the next round of
-- the loop begins less than a day later, the next settlement is due a day after it, and the epochs of
-- the two are a day apart; the first of them begins 25 hours before its settlement.
pub next_settlement_lem :
    (now later : ℕ)
    → day_length ≤ now
    → next_settlement now ≤ later
    → later < next_settlement now + day_length
    → (now < next_settlement now)
      × (next_settlement now ≤ now + day_length)
      × (next_settlement later ≡ next_settlement now + day_length)
      × (epoch_to_settle (next_settlement later)
          ≡ epoch_to_settle (next_settlement now) + day_length)
      × (epoch_to_settle (next_settlement now) + (day_length + hour) ≡ next_settlement now)
unfolding next_settlement epoch_to_settle
next_settlement_lem now later past from until = (
  ground (arith, past, from, until),
  ground (arith, past, from, until),
  ground (arith, past, from, until),
  ground (arith, past, from, until),
  ground (arith, past, from, until),
)
