-- ===== src/Commands/Counts.antt =====
-- The number of jobs that a command reports.
use bun_boss.Base.{◌≡◌, Bool, ℕ, ◌≤◌, String, List, Option, length, select, arith, &&-elim}
use bun_boss.Store.{Table, ok, rows_after}
use bun_boss.Store.Unique.{IsUnique}
use bun_boss.Store.Keys.{count-targets, count-le}
use bun_boss.Commands.{CommandResponse, is_target, completes, set_completed, complete, response}
use bun_boss.Commands.Safe.{complete_total}

-- On a table with unique indexes, completing jobs returns a response that never counts more affected
-- jobs than requested ids, ids that stand twice included.
pub complete-affected :
    (include_queued : Bool) (name : String) (ids : List ℕ) (output : Option String) (now : ℕ)
    (t : Table)
    → IsUnique t
    → (r : Table × CommandResponse) × ((complete include_queued name ids output now t ≡ ok r)
        × (r.1.affected ≤ r.1.requested))
complete-affected q name ids output now t u = (
  (
    rows_after (completes q name ids) (set_completed q output now) t,
    response ids (length (select (completes q name ids) t)),
  ),
  ((complete_total q name ids output now t u).0, bounded),
)
  where
    bounded : length (select (completes q name ids) t) ≤ length ids
    bounded = omega (
      arith,
      count-le (completes q name ids) (is_target name ids)
          (λ j h. (&&-elim {a = is_target name ids j} h).0) t,
      count-targets name ids t u,
    )
