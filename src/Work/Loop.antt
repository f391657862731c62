-- ===== src/Work/Loop.antt =====
-- src/worker.ts: the loop of a worker between the calls that others make on it. One event is what
-- happens between two awaits; the clock enters as whether the rest of the interval is worth a delay.
use bun_boss.Base.{
  ℕ, suc, ◌≡◌, refl, Bool, true, false, not, ◌&&◌, if◌then◌else◌, List, [], ◌∷◌, ◌⊎◌, inl, arith,
}

pub data WorkerState : Type 0 where
  created active stopping stopped : WorkerState

-- Where the loop stands: `fetching` awaits fetch(), `handling` onFetch(), `deciding` is about to
-- compare the interval, `sleeping` awaits the delay.
pub data Phase : Type 0 where
  idle fetching handling deciding sleeping done : Phase

pub record Worker : Type 0 where
  pub state : WorkerState
  pub is_stopping : Bool
  pub is_stopped : Bool
  pub been_notified : Bool
  pub delay_aborted : Bool
  pub phase : Phase
  pub jobs : ℕ
  pub fetched_count : ℕ
  pub settled_count : ℕ
  -- How often fetch() was called.
  pub fetches : ℕ

pub data Event : Type 0 where
  -- fetch() and onFetch() resolve or throw.
  fetched : ℕ → Event
  fetch_failed : Event
  settled : ℕ → Event
  handler_failed : Event
  -- interval - duration > 100, or not.
  decide : Bool → Event
  -- The delay ends, by its time or by abort().
  wake : Event
  -- Calls from outside.
  notify : Event
  stop : Event

pub new_worker : Worker
new_worker = record {
  state = created;
  is_stopping = false;
  is_stopped = false;
  been_notified = false;
  delay_aborted = false;
  phase = idle;
  jobs = 0;
  fetched_count = 0;
  settled_count = 0;
  fetches = 0;
}

-- The head of the while loop, and what follows it.
unfoldable pub loop_head : Worker → Worker
loop_head w =
    if w.is_stopping
    then record w { is_stopping = false; is_stopped = true; state = stopped; phase = done }
    else record w {
      been_notified = false;
      delay_aborted = false;
      phase = fetching;
      fetched_count = 0;
      settled_count = 0;
      fetches = suc w.fetches;
    }

abbrev pub is_sleeping : Phase → Bool
is_sleeping sleeping = true
is_sleeping _ = false

-- What the loop itself does, by where it stands.
unfoldable pub advance : Phase → Event → Worker → Worker
unfolding loop_head
advance fetching (fetched n) w = record w { phase = handling; jobs = n; fetched_count = n }
advance fetching fetch_failed w = record w {
  phase = deciding;
  fetched_count = 0;
  settled_count = 0;
}
advance handling (settled n) w = record w { phase = deciding; settled_count = n; jobs = 0 }
advance handling handler_failed w = record w {
  phase = deciding;
  fetched_count = 0;
  settled_count = 0;
}
advance deciding (decide long) w =
    if not w.is_stopping && (not w.been_notified && long)
    then record w { phase = sleeping; delay_aborted = false }
    else loop_head w
advance sleeping wake w = loop_head w
advance _ _ w = w

-- start(), for a worker whose loop does not run: start() has no guard, and manager.ts calls it once, on
-- the new worker.
unfoldable pub start : Worker → Worker
unfolding loop_head
start w = loop_head (record w { state = active })

unfoldable pub step : Worker → Event → Worker
unfolding advance
step w notify = record w {
  been_notified = true;
  delay_aborted = if is_sleeping w.phase then true else w.delay_aborted;
}
step w stop = record w {
  is_stopping = true;
  state = stopping;
  delay_aborted = if is_sleeping w.phase then true else w.delay_aborted;
}
step w e = advance w.phase e w

unfoldable pub run : Worker → List Event → Worker
run w [] = w
run w (e ∷ es) = run (step w e) es

-- Stopping, or through with its loop.
abbrev pub IsQuiet : Worker → Type 0
IsQuiet w = (w.is_stopping ≡ true) ⊎ (w.phase ≡ done)

advance-IsQuiet :
    (p : Phase) (e : Event) (w : Worker)
    → w.phase ≡ p
    → IsQuiet w
    → IsQuiet (advance p e w) × ((advance p e w).fetches ≡ w.fetches)
unfolding advance
advance-IsQuiet p e w h q = ground arith

step-IsQuiet :
    (w : Worker) (e : Event) → IsQuiet w → IsQuiet (step w e) × ((step w e).fetches ≡ w.fetches)
unfolding step
step-IsQuiet w notify q = ground arith
step-IsQuiet w stop q = (inl refl, refl)
step-IsQuiet w e q = advance-IsQuiet w.phase e w refl q

run-IsQuiet : (w : Worker) (es : List Event) → IsQuiet w → (run w es).fetches ≡ w.fetches
unfolding run
run-IsQuiet w [] q = refl
run-IsQuiet w (e ∷ es) q = let (q', k) = step-IsQuiet w e q in rw (run-IsQuiet (step w e) es q', k)

-- After stop(), and unless start() is called once more, a worker never fetches again: wherever its loop
-- stands, however its awaits end, and whatever else is called.
pub stop-fetches : (w : Worker) (es : List Event) → (run (step w stop) es).fetches ≡ w.fetches
unfolding step
stop-fetches w es = run-IsQuiet (step w stop) es (inl refl)

-- No wake-up is lost: a worker that was notified since its last fetch began, and that is asleep, has
-- had its delay aborted.
pub record IsAwake (w : Worker) : Type 0 where
  pub woken : w.phase ≡ sleeping → w.been_notified ≡ true → w.delay_aborted ≡ true
  pub stopped_in_time : w.phase ≡ sleeping → w.is_stopping ≡ true → w.delay_aborted ≡ true

advance-IsAwake :
    (p : Phase) (e : Event) (w : Worker) → w.phase ≡ p → IsAwake w → IsAwake (advance p e w)
unfolding advance
advance-IsAwake p e w h a = ground arith

step-IsAwake : (w : Worker) (e : Event) → IsAwake w → IsAwake (step w e)
unfolding step
step-IsAwake w notify a = ground arith
step-IsAwake w stop a = ground arith
step-IsAwake w e a = advance-IsAwake w.phase e w refl a

run_from-IsAwake : (w : Worker) (es : List Event) → IsAwake w → IsAwake (run w es)
unfolding run
run_from-IsAwake w [] a = a
run_from-IsAwake w (e ∷ es) a = run_from-IsAwake (step w e) es (step-IsAwake w e a)

start-IsAwake : (w : Worker) → IsAwake (start w)
unfolding start loop_head
start-IsAwake w = ground arith

-- In every history of a worker that is started once, before its start and after: if it sleeps although
-- it was notified or told to stop, its delay has been aborted.
pub run-IsAwake :
    (before after : List Event)
    → IsAwake (run new_worker before) × IsAwake (run (start (run new_worker before)) after)
unfolding new_worker
run-IsAwake before after = (
  run_from-IsAwake new_worker before (ground arith),
  run_from-IsAwake (start (run new_worker before)) after (start-IsAwake (run new_worker before)),
)
