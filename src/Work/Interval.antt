-- ===== src/Work/Interval.antt =====
-- Manager.work: the wait between two fetches (resolveInterval).
use bun_boss.Base.{
  ℕ, ◌<◌, ◌≡◌, ◌↔◌, Bool, true, false, not, ◌&&◌, ◌||◌, if◌then◌else◌, Option, none, some, ltb, leb,
  arith,
}
use bun_boss.Job.{coalesce}

-- The options that the closure reads.
pub record PollOptions : Type 0 where
  pub interval : ℕ
  pub notify_interval : ℕ
  pub burst_when_ready_exceeds : Option ℕ
  pub burst_when_batch_full : Bool
  pub burst_while_non_empty : Option Bool
  pub batch_size : ℕ

-- burstWhileNonEmpty ?? (burstWhenReadyExceeds === undefined && !burstWhenBatchFull)
abbrev pub is_unset : Option ℕ → Bool
is_unset none = true
is_unset (some n) = false

unfoldable pub bursts_while_non_empty : PollOptions → Bool
bursts_while_non_empty o =
    coalesce o.burst_while_non_empty
      (is_unset o.burst_when_ready_exceeds && not o.burst_when_batch_full)

abbrev pub ready_exceeds : Option ℕ → ℕ → Bool
ready_exceeds none ready = false
ready_exceeds (some n) ready = ltb n ready

-- `ready` is the cached backlog of the queue, `notify_active` whether NOTIFY wakes the worker.
unfoldable pub resolve_interval : PollOptions → ℕ → Bool → ℕ → ℕ → ℕ
unfolding bursts_while_non_empty
resolve_interval o ready notify_active fetched settled =
    let full_batch = leb o.batch_size fetched in
    let burst =
      (bursts_while_non_empty o && ltb 0 settled)
      || (full_batch
          && (ready_exceeds o.burst_when_ready_exceeds ready
              || (o.burst_when_batch_full && ltb 1 o.batch_size))) in
    if burst then 0 else if notify_active then o.notify_interval else o.interval

-- An iteration that fetched nothing never bursts: the worker waits for its poll, or for the NOTIFY
-- backstop while NOTIFY is active.
pub resolve_interval_idle :
    (o : PollOptions) (ready : ℕ) (notify_active : Bool)
    → 0 < o.batch_size
    → resolve_interval o ready notify_active 0 0
      ≡ (if notify_active then o.notify_interval else o.interval)
unfolding resolve_interval
resolve_interval_idle o ready n h = ground arith

-- With the default options (no burst trigger set, or only burstWhileNonEmpty on) an iteration none
-- of whose jobs settled waits: a failing handler cannot drive the worker into a hot loop.
pub resolve_interval_unproductive :
    (o : PollOptions) (ready fetched : ℕ) (notify_active : Bool)
    → o.burst_when_ready_exceeds ≡ none
    → o.burst_when_batch_full ≡ false
    → resolve_interval o ready notify_active fetched 0
      ≡ (if notify_active then o.notify_interval else o.interval)
unfolding resolve_interval
resolve_interval_unproductive o ready fetched n h k = ground arith

-- By default the worker fetches again at once exactly when some job settled, if its intervals are
-- positive.
pub resolve_interval_bursts :
    (o : PollOptions) (ready fetched settled : ℕ) (notify_active : Bool)
    → o.burst_when_ready_exceeds ≡ none
    → o.burst_when_batch_full ≡ false
    → o.burst_while_non_empty ≡ none
    → 0 < o.interval
    → 0 < o.notify_interval
    → (resolve_interval o ready notify_active fetched settled ≡ 0) ↔ (0 < settled)
unfolding resolve_interval
resolve_interval_bursts o ready fetched settled n h k l i m = (λ e. ground arith, λ e. ground arith)
