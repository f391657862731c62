-- ===== src/Commands/Slots.antt =====
-- The slots that a row of the job table gives up when a command changes it.
use bun_boss.Base.{
  &&-elim, ◌≡◌, refl, true, false, [], arith, none, some, Bool, if◌then◌else◌, ℕ, String, Option,
  List,
}
use bun_boss.Job.{
  Job, State, created, retry, active, completed, cancelled, failed, state_eq, state_lt, slot_key,
}
use bun_boss.Store.{slots, index_throttle}
use bun_boss.Commands.{completes, is_target, set_completed, set_cancelled, set_touched}
use mathlib.Core.List.{Sublist, nil-sublist}
use mathlib.Core.List.Sublist

-- A row that is not cancelled holds the throttling slot of every state.
pub index_throttle-sublist :
    (name key : String) (on : Option ℕ) (s s' : State)
    → state_eq s cancelled ≡ false
    → Sublist (index_throttle name key on s') (index_throttle name key on s)
index_throttle-sublist name key none s s' h = Sublist.refl []
index_throttle-sublist name key (some on) s s' h = rw h (only_if-sublist s')
  where
    only_if-sublist :
        (s' : State)
        → Sublist (index_throttle name key (some on) s') (index_throttle name key (some on) created)
    only_if-sublist cancelled = nil-sublist _
    only_if-sublist _ = Sublist.refl _

-- Completing a row that is not cancelled gives up slots and takes none.
pub slots-completed :
    (include_queued : Bool) (output : Option String) (now : ℕ) (j : Job)
    → state_eq j.state cancelled ≡ false
    → Sublist (slots (set_completed include_queued output now j)) (slots j)
unfolding slots
slots-completed q o now j h =
    Sublist.append
      (Sublist.cons-cons _
        (index_throttle-sublist j.name (slot_key j) j.singleton_on j.state completed h))
      (nil-sublist _)

pub slots-cancelled : (now : ℕ) (j : Job) → Sublist (slots (set_cancelled now j)) (slots j)
unfolding slots
slots-cancelled now j =
    Sublist.append (Sublist.cons-cons _ (throttle j.singleton_on)) (nil-sublist _)
  where
    throttle :
        (on : Option ℕ)
        → Sublist
            (index_throttle j.name (slot_key j) on cancelled)
            (index_throttle j.name (slot_key j) on j.state)
    throttle none = Sublist.refl []
    throttle (some on) = nil-sublist _

pub slots-touched : (now : ℕ) (j : Job) → slots (set_touched now j) ≡ slots j
unfolding slots
slots-touched now j = refl

not_cancelled :
    (q : Bool) (s : State)
    → (if q then state_lt s completed else state_eq s active) ≡ true
    → state_eq s cancelled ≡ false
not_cancelled true created h = refl
not_cancelled true retry h = refl
not_cancelled true active h = refl
not_cancelled false active h = refl
not_cancelled _ completed h = refl
not_cancelled _ failed h = refl
not_cancelled _ _ h = absurd (ground arith)

pub completes-not_cancelled :
    (include_queued : Bool) (name : String) (ids : List ℕ) (j : Job)
    → completes include_queued name ids j ≡ true
    → state_eq j.state cancelled ≡ false
completes-not_cancelled q name ids j h =
    not_cancelled q j.state ((&&-elim {a = is_target name ids j} h).1)
