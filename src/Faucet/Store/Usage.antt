-- ===== src/Faucet/Store/Usage.antt =====
-- `increment_usage`: what one call counts, and what calls that run at the same time count, each of
-- them two statements that other workers may run between.
use bitcoin_argus.Common.{
  ℕ, zero, suc, ◌+◌, String, ◌≡◌, refl, inl, inr, Bool, List, [], ◌∷◌, arith, ◌==◌, if◌then◌else◌,
  Bool-cases,
}
use bitcoin_argus.Common.Table.{count}
use bitcoin_argus.Faucet.Clock.{day_ordinal}
use bitcoin_argus.Faucet.Store.{
  Database, DailyUsage, usage_key, usage_update, usage_insert, usage_on, uses_of, usage_today,
  increment_usage,
}
use bitcoin_argus.Faucet.Store.Keys.{
  same_day, same_day-eq, uses-insert_self, uses-update_self, usage_update_absent,
  usage_on-insert_ne, usage_on-update_ne,
}

increment_self :
    (net : String) (ts : ℕ) (db : Database)
    → uses_of (usage_on net (day_ordinal ts) (increment_usage net ts db).usage)
      ≡ uses_of (usage_on net (day_ordinal ts) db.usage) + 1
unfolding increment_usage
increment_self net ts db =
    let day = day_ordinal ts in
    elim (Bool-cases (count (usage_key net day) db.usage == 0)) [
      | inl e ↦
          rw (e, usage_update_absent net day db.usage (ground arith))
            (uses-insert_self net day db.usage)
      | inr e ↦ rw e (uses-update_self net day db.usage (ground arith))
    ]

increment_ne :
    (net : String) (ts : ℕ) (net' : String) (day' : ℕ) (db : Database)
    → same_day net (day_ordinal ts) net' day' ≡ Bool.false
    → usage_on net' day' (increment_usage net ts db).usage ≡ usage_on net' day' db.usage
unfolding increment_usage
increment_ne net ts net' day' db d =
    let day = day_ordinal ts in
    elim (Bool-cases (count (usage_key net day) db.usage == 0)) [
      | inl e ↦
          rw (e, usage_update_absent net day db.usage (ground arith))
            (usage_on-insert_ne net day db.usage net' day' d)
      | inr e ↦ rw e (usage_on-update_ne net day db.usage net' day' d)
    ]

-- A call of `increment_usage` adds one to the count of its network on its UTC day, and leaves the
-- count of every other network and day as it is.
pub usage_today-increment_usage :
    (net : String) (ts : ℕ) (net' : String) (now' : ℕ) (db : Database)
    → usage_today net' now' (increment_usage net ts db)
      ≡ usage_today net' now' db
        + (if same_day net (day_ordinal ts) net' (day_ordinal now') then 1 else 0)
unfolding usage_today
usage_today-increment_usage net ts net' now' db =
    let day' = day_ordinal now' in
    elim (Bool-cases (same_day net (day_ordinal ts) net' day')) [
      | inl e ↦
          let (p, q) = same_day-eq net (day_ordinal ts) net' day' e in
          rw (e, ← p, ← q) (increment_self net ts db)
      | inr e ↦ rw (e, increment_ne net ts net' day' db e) (omega arith)
    ]

-- Where a worker stands in its call of `increment_usage`: before the UPDATE, between an UPDATE
-- that changed no row and the INSERT, and after the call.
pub data Worker : Type 0 where
  ready missed finished : Worker

-- One statement of one worker.
unfoldable pub worker_step : String → ℕ → Worker → List DailyUsage → List DailyUsage × Worker
worker_step net day Worker.ready rows =
    if count (usage_key net day) rows == 0
    then (usage_update net day rows, Worker.missed)
    else (usage_update net day rows, Worker.finished)
worker_step net day Worker.missed rows = (usage_insert net day rows, Worker.finished)
worker_step net day Worker.finished rows = (rows, Worker.finished)

-- The worker that the schedule names runs one statement.
unfoldable pub run_worker :
    String → ℕ → ℕ → List Worker → List DailyUsage → List DailyUsage × List Worker
unfolding worker_step
run_worker net day i [] rows = (rows, [])
run_worker net day zero (w ∷ ws) rows =
    let (rows', w') = worker_step net day w rows in (rows', w' ∷ ws)
run_worker net day (suc i) (w ∷ ws) rows =
    let (rows', ws') = run_worker net day i ws rows in (rows', w ∷ ws')

unfoldable pub run_schedule :
    String → ℕ → List ℕ → List Worker → List DailyUsage → List DailyUsage × List Worker
run_schedule net day [] ws rows = (rows, ws)
run_schedule net day (i ∷ is) ws rows =
    let (rows', ws') = run_worker net day i ws rows in run_schedule net day is ws' rows'

abbrev pub is_finished : Worker → ℕ
is_finished Worker.finished = 1
is_finished _ = 0

abbrev pub finished_count : List Worker → ℕ
finished_count [] = 0
finished_count (w ∷ ws) = is_finished w + finished_count ws

module _ (net : String) (day : ℕ) where
  -- The count less the finished calls.
  abbrev Balance : List DailyUsage × List Worker → List DailyUsage × List Worker → Type 0
  Balance (rows, ws) (rows', ws') =
      uses_of (usage_on net day rows') + finished_count ws
      ≡ uses_of (usage_on net day rows) + finished_count ws'

  worker_step-Balance :
      (w : Worker) (rows : List DailyUsage)
      → let (rows', w') = worker_step net day w rows in
        uses_of (usage_on net day rows') + is_finished w
        ≡ uses_of (usage_on net day rows) + is_finished w'
  unfolding worker_step
  worker_step-Balance Worker.ready rows = elim (Bool-cases (count (usage_key net day) rows == 0)) [
    | inl e ↦ rw (e, usage_update_absent net day rows (ground arith))
    | inr e ↦ rw e (omega (arith, uses-update_self net day rows (ground arith)))
  ]
  worker_step-Balance Worker.missed rows = omega (arith, uses-insert_self net day rows)
  worker_step-Balance Worker.finished rows = refl

  run_worker-Balance :
      (i : ℕ) (ws : List Worker) (rows : List DailyUsage)
      → Balance (rows, ws) (run_worker net day i ws rows)
  unfolding run_worker
  run_worker-Balance i [] rows = refl
  run_worker-Balance zero (w ∷ ws) rows = omega (arith, worker_step-Balance w rows)
  run_worker-Balance (suc i) (w ∷ ws) rows = omega (arith, run_worker-Balance i ws rows)

  -- Whatever the order in which the statements of any number of workers run, the count of the day
  -- has grown by exactly the number of calls that have finished.
  pub run_schedule_counts :
      (is : List ℕ) (ws : List Worker) (rows : List DailyUsage)
      → let (rows', ws') = run_schedule net day is ws rows in
        uses_of (usage_on net day rows') + finished_count ws
        ≡ uses_of (usage_on net day rows) + finished_count ws'
  unfolding run_schedule
  run_schedule_counts [] ws rows = refl
  run_schedule_counts (i ∷ is) ws rows =
      let (rows', ws') = run_worker net day i ws rows in
      omega (arith, run_worker-Balance i ws rows, run_schedule_counts is ws' rows')
