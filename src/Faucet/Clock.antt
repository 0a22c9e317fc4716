-- ===== src/Faucet/Clock.antt =====
-- Times are epoch times in ticks of 2^-22 of a second. That is the distance of neighbouring doubles
-- between 2^30 and 2^31 (the years 2004 to 2038) and divides that of later ones, so the sums, the
-- differences and the floor divisions that the code takes of `time.time()` are exact on ticks.
use bitcoin_argus.Common.{ℕ, ◌*◌, ◌/◌, ◌^◌}

abbrev pub second : ℕ
second = 2 ^ 22

-- `DAY_SECONDS`, of store.py and of rules.py.
abbrev pub day_seconds : ℕ
day_seconds = 86_400

abbrev pub day_ticks : ℕ
day_ticks = day_seconds * second

-- The UTC day number of a time.
abbrev pub day_ordinal : ℕ → ℕ
day_ordinal ts = ts / day_ticks

-- `int(ts)`, for a time.
abbrev pub whole_seconds : ℕ → ℕ
whole_seconds ts = ts / second
