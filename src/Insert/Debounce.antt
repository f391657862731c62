-- ===== src/Insert/Debounce.antt =====
-- getDebounceStartAfter: the second try of a throttled job starts in the next slot.
use bun_boss.Base.{ℕ, ◌+◌, ◌-◌, ◌*◌, ◌/◌, ◌≤◌, ◌<◌, arith, if◌then◌else◌, ltb, ◌==◌}
use native.Mathlib.Nat.{div-mul-le_self, lt-div-mul-add}
use bun_boss.Insert.{debounce_start_after}

-- The same with the slot's start given.
abbrev pub debounce_from : ℕ → ℕ → ℕ → ℕ
debounce_from seconds now slot =
    let left = seconds - (now - slot) / 1000 in
    let start_after = if left == 0 then 1 else left in
    if ltb 1 seconds then start_after + 1 else start_after

debounce_from-bounds :
    (seconds now slot : ℕ)
    → 1 ≤ seconds
    → slot ≤ now
    → now < slot + seconds * 1000
    → (slot + seconds * 1000 ≤ now + debounce_from seconds now slot * 1000)
      × ((now + debounce_from seconds now slot * 1000 < slot + seconds * 1000 + 2000)
          × (debounce_from seconds now slot ≤ seconds + 1))
debounce_from-bounds seconds now slot h k l = (ground arith, (ground arith, ground arith))

-- With an interval of at least a second, the start that createJob asks for in its second try lies in
-- the first two seconds of the next slot, and at most one second more than the interval ahead.
pub debounce_start_after-bounds :
    (seconds now : ℕ)
    → 1 ≤ seconds
    → let next = now / (seconds * 1000) * (seconds * 1000) + seconds * 1000 in
      (next ≤ now + debounce_start_after seconds now * 1000)
      × ((now + debounce_start_after seconds now * 1000 < next + 2000)
          × (debounce_start_after seconds now ≤ seconds + 1))
unfolding debounce_start_after
debounce_start_after-bounds seconds now h =
    debounce_from-bounds seconds now (now / (seconds * 1000) * (seconds * 1000)) h
      (div-mul-le_self now (seconds * 1000)) (lt-div-mul-add (omega arith))
