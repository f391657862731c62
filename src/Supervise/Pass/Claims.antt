-- ===== src/Supervise/Pass/Claims.antt =====
-- No queue is worked on twice in an interval: src/plans.ts (trySetQueueTimestamp), whichever instances
-- try and in whatever order.
use bun_boss.Base.{
  ℕ, suc, ◌+◌, ◌*◌, ◌≤◌, ◌≡◌, refl, sym, ap, ◌∙◌, String, Bool, false, ◌&&◌, ◌||◌, if◌then◌else◌,
  List, [], ◌∷◌, map, Option, none, some, str_eq, length, select, arith, inl, inr, ◌⊎◌, Bool-cases,
}
use bun_boss.Commands.{has_name}
use bun_boss.Queues.{QueueRow, is_named, has_queue, set_where}
use bun_boss.Queues.Sound.{Once, Once-set_where}
use bun_boss.Supervise.Pass.{
  Column, monitor_on, maintain_on, stamp, set_stamp, is_stale, is_due, try_set,
}
use text.Mathlib.TextEquality.{eq_iff}

-- A try: its time, and the names that it asks for.
pub record Try : Type 0 where
  pub time : ℕ
  pub names : List String

abbrev pub times_in : String → List String → ℕ
times_in name result = length (select (λ n. str_eq n name) result)

-- How often the tries return a name, one after the other.
unfoldable pub claims : Column → ℕ → String → List Try → List QueueRow → ℕ
unfolding try_set
claims column seconds name [] qs = 0
claims column seconds name (try ∷ tries) qs =
    let (qs', due) = try_set column try.time seconds try.names qs in
    times_in name due + claims column seconds name tries qs'

abbrev pub Within : ℕ → ℕ → List Try → Type 0
Within base seconds [] = Unit
Within base seconds (try ∷ tries) =
    ((base ≤ try.time) × (try.time ≤ base + seconds * 1000)) × Within base seconds tries

abbrev Stamped : ℕ → Option ℕ → Type 0
Stamped base none = ⊥
Stamped base (some s) = base ≤ s

-- The row of the name, if there is one, was stamped at `base` or later.
abbrev IsStamped : Column → ℕ → String → List QueueRow → Type 0
IsStamped column base name [] = Unit
IsStamped column base name (q ∷ qs) =
    ((is_named name q ≡ false) ⊎ Stamped base (stamp column q)) × IsStamped column base name qs

set_stamp-name :
    (c : Column) (now : ℕ) (q : QueueRow) → (set_stamp c now q).columns.name ≡ q.columns.name
set_stamp-name monitor_on now q = refl
set_stamp-name maintain_on now q = refl

set_stamp-Stamped :
    (c : Column) (base now : ℕ) (q : QueueRow)
    → base ≤ now
    → Stamped base (stamp c (set_stamp c now q))
set_stamp-Stamped monitor_on base now q h = h
set_stamp-Stamped maintain_on base now q h = h

Stamped-fresh :
    (base time seconds : ℕ) (s : Option ℕ)
    → time ≤ base + seconds * 1000
    → Stamped base s
    → is_stale time seconds s ≡ false
Stamped-fresh base time seconds none t h = absurd h
Stamped-fresh base time seconds (some set) t h = ground arith

module _ (column : Column) (seconds base : ℕ) (name : String) (try : Try)
    (from : base ≤ try.time) where
  abbrev due : QueueRow → Bool
  due q = is_due column try.time seconds try.names q

  abbrev set : QueueRow → QueueRow
  set q = set_stamp column try.time q

  set_row-IsStamped :
      (q : QueueRow)
      → (is_named name q ≡ false) ⊎ Stamped base (stamp column q)
      → (is_named name (if due q then set q else q) ≡ false)
        ⊎ Stamped base (stamp column (if due q then set q else q))
  set_row-IsStamped q h = elim (Bool-cases (due q)) [
    | inl e ↦ rw e (inr (set_stamp-Stamped column base try.time q from))
    | inr e ↦ rw e h
  ]

  IsStamped-set :
      (qs : List QueueRow)
      → IsStamped column base name qs
      → IsStamped column base name (set_where due set qs)
  unfolding set_where
  IsStamped-set [] h = tt
  IsStamped-set (q ∷ qs) h = (set_row-IsStamped q h.0, IsStamped-set qs h.1)

  abbrev found : List QueueRow → ℕ
  found qs = times_in name (map (λ q. q.columns.name) (select due qs))

  -- A row of another name changes nothing.
  found-cons :
      (q : QueueRow) (qs : List QueueRow) {n : ℕ}
      → is_named name q ≡ false
      → found qs ≡ n
      → found (q ∷ qs) ≡ n
  found-cons q qs e f = elim (Bool-cases (due q)) [ inl d ↦ rw (d, e) f | inr d ↦ rw d f ]

  -- A row with a fresh stamp is not returned.
  found-stamped :
      (qs : List QueueRow)
      → try.time ≤ base + seconds * 1000
      → IsStamped column base name qs
      → found qs ≡ 0
  found-stamped [] t h = refl
  found-stamped (q ∷ qs) t h = elim h.0 [
    | inl e ↦ found-cons q qs e (found-stamped qs t h.1)
    | inr s ↦
        rw
          (&&-false (has_name try.names q.columns.name)
            (Stamped-fresh base try.time seconds (stamp column q) t s))
          (found-stamped qs t h.1)
  ]
    where
      &&-false : (a : Bool) {b : Bool} → b ≡ false → (a && b) ≡ false
      &&-false a e = ground arith

  found-absent :
      (qs : List QueueRow)
      → has_queue qs name ≡ false
      → (found qs ≡ 0) × IsStamped column base name qs
  unfolding has_queue
  found-absent [] h = (refl, tt)
  found-absent (q ∷ qs) h =
      let (first, others) = neither (is_named name q) h in
      let (none_found, rest) = found-absent qs others in
      (found-cons q qs first none_found, (inl first, rest))
    where
      neither : (a : Bool) {b : Bool} → (a || b) ≡ false → (a ≡ false) × (b ≡ false)
      neither a h = ground arith

  -- One try returns the name at most once, and then its row has a fresh stamp.
  found-le_one :
      (qs : List QueueRow)
      → Once qs
      → (found qs ≡ 0) ⊎ ((found qs ≡ 1) × IsStamped column base name (set_where due set qs))
  unfolding set_where
  found-le_one [] h = inl refl
  found-le_one (q ∷ qs) h = elim (Bool-cases (is_named name q)) [
    | inl e ↦
        let (no_more, rest) =
          found-absent qs (ap (has_queue qs) (sym ((eq_iff q.columns.name name).0 e)) ∙ h.0) in
        elim (Bool-cases (due q)) [
          | inl d ↦ inr (
            rw (d, e) (ap suc no_more),
            (rw d (inr (set_stamp-Stamped column base try.time q from)), IsStamped-set qs rest),
          )
          | inr d ↦ inl (rw d no_more)
        ]
    | inr e ↦ elim (found-le_one qs h.1) [
      | inl z ↦ inl (found-cons q qs e z)
      | inr (one, rest) ↦ inr (found-cons q qs e one, (set_row-IsStamped q (inl e), rest))
    ]
  ]

claims-stamped :
    (column : Column) (seconds base : ℕ) (name : String) (tries : List Try) (qs : List QueueRow)
    → Within base seconds tries
    → IsStamped column base name qs
    → claims column seconds name tries qs ≡ 0
unfolding claims
claims-stamped column seconds base name [] qs w h = refl
claims-stamped column seconds base name (try ∷ tries) qs w h = omega (
  arith,
  found-stamped column seconds base name try w.0.0 qs w.0.1 h,
  claims-stamped column seconds base name tries _ w.1
      (IsStamped-set column seconds base name try w.0.0 qs h),
)

-- Within one interval, whatever instances try for whatever names and in whatever order, the tries to
-- monitor or to maintain return a queue at most once.
pub claims-le_one :
    (column : Column) (seconds base : ℕ) (name : String) (tries : List Try) (qs : List QueueRow)
    → Within base seconds tries
    → Once qs
    → claims column seconds name tries qs ≤ 1
unfolding claims
claims-le_one column seconds base name [] qs w h = omega arith
claims-le_one column seconds base name (try ∷ tries) qs w h =
    elim (found-le_one column seconds base name try w.0.0 qs h) [
      | inl z ↦ omega (arith, z, claims-le_one column seconds base name tries _ w.1 kept)
      | inr (one, stamped) ↦
          omega (arith, one, claims-stamped column seconds base name tries _ w.1 stamped)
    ]
  where
    kept :
        Once (set_where (is_due column try.time seconds try.names) (set_stamp column try.time) qs)
    kept = Once-set_where _ _ (set_stamp-name column try.time) qs h
