-- ===== src/Instance.antt =====
-- src/index.ts: start and stop of an instance. An event is what happens between two awaits: a call of
-- start or stop, and the end of a start or of a shutdown that runs, well or with an error. A call that
-- awaits another one's promise waits in a queue, and goes on when that promise settles. A listener of
-- `stopped` is taken not to throw.
pub mod Lifecycle
use bun_boss.Base.{
  ℕ, suc, ◌≡◌, Bool, true, false, not, ◌&&◌, ◌||◌, if◌then◌else◌, List, [], ◌∷◌, ◌++◌,
}

-- What #startingPromise and #stoppingPromise stand for: neither, one, or the other.
pub data Running : Type 0 where
  nothing starting stopping : Running

-- A call that waits for the running promise: a start waits for a stop, a stop for a start.
pub data Call : Type 0 where
  start stop : Call

pub record Instance : Type 0 where
  pub started : Bool
  pub is_stopped : Bool
  pub running : Running
  pub waiting : List Call
  -- How often #doStart and #doStop were begun.
  pub starts : ℕ
  pub stops : ℕ

pub data Event : Type 0 where
  call : Call → Event
  -- #doStart or #doStop resolves or throws.
  resolved : Event
  rejected : Event

unfoldable pub new_instance : Instance
new_instance = record {
  started = false;
  is_stopped = true;
  running = nothing;
  waiting = [];
  starts = 0;
  stops = 0;
}

-- The rest of start() after its wait: join a start that runs, or begin one unless started.
abbrev pub begin_start : Running → Instance → Instance
begin_start starting i = i
begin_start _ i =
    if i.started
    then i
    else record i { is_stopped = false; running = starting; starts = suc i.starts }

-- The rest of stop() after its wait: join a stop that runs, or begin one unless stopped.
abbrev pub begin_stop : Running → Instance → Instance
begin_stop stopping i = i
begin_stop _ i = if i.is_stopped then i else record i { running = stopping; stops = suc i.stops }

abbrev pub begin : Call → Instance → Instance
begin start i = begin_start i.running i
begin stop i = begin_stop i.running i

abbrev pub wait : Call → Instance → Instance
wait c i = record i { waiting = i.waiting ++ c ∷ [] }

abbrev pub calls : Call → Running → Instance → Instance
calls start stopping i = wait start i
calls stop starting i = wait stop i
calls c _ i = begin c i

-- The calls that waited go on, in their order.
unfoldable pub resume : List Call → Instance → Instance
resume [] i = i
resume (c ∷ cs) i = resume cs (begin c i)

unfoldable pub ends : Running → Bool → Instance → Instance
unfolding resume
ends nothing fine i = i
ends starting fine i =
    resume i.waiting (record i { started = fine || i.started; running = nothing; waiting = [] })
ends stopping fine i = resume i.waiting (record i {
  is_stopped = fine || i.is_stopped;
  started = not fine && i.started;
  running = nothing;
  waiting = [];
})

unfoldable pub step : Instance → Event → Instance
unfolding ends
step i (call c) = calls c i.running i
step i resolved = ends i.running true i
step i rejected = ends i.running false i

unfoldable pub run : Instance → List Event → Instance
unfolding step
run i [] = i
run i (e ∷ es) = run (step i e) es
