-- ===== src/Tests/Failing.antt =====
-- The results on failing, for one active job of three.
use bun_boss.Base.{
  ◌≡◌, refl, String, true, false, List, [], ◌∷◌, ◌++◌, Option, none, select, reject, &&-elim,
}
use bun_boss.Job.{Job, created, active, completed, state_lt}
use bun_boss.Store.{
  Table, ok, slots, occupied, collides, overlaps, has_slot, distinct, Slot-discrete,
}
use bun_boss.Store.Unique.{IsUnique, distinct-Nodup}
use bun_boss.Commands.{is_target, has_id}
use bun_boss.Fail.{Env, fails_by_id, reinserted, retried_row, insert_skipping, insert_rows}
use bun_boss.Fail.Reinsert.{reinserted_total}
use bun_boss.Fail.Conserve.{reinserted-ids, ids}
use bun_boss.Tests.{sample, three_rows}
use mathlib.Core.Bool.{decide}
use mathlib.Core.List.{Perm}
use text.Mathlib.TextEquality.{eq_iff}

abbrev pub at_five : Env
at_five = record { now = 5000; random = λ j. 0; uuid = λ j. 9; queues = [] }

abbrev no_output : Job → Option String
no_output j = none

rows-IsUnique : IsUnique three_rows
unfolding distinct has_slot decide Slot-discrete slots occupied
rows-IsUnique = distinct-Nodup (occupied three_rows) refl

can_fail : (j : Job) → fails_by_id "mail" (2 ∷ []) j ≡ true → state_lt j.state completed ≡ true
can_fail j h = (&&-elim {a = is_target "mail" (2 ∷ []) j} h).1

in_mail : (j : Job) → fails_by_id "mail" (2 ∷ []) j ≡ true → j.name ≡ "mail"
in_mail j h =
    (eq_iff j.name "mail").0
      (&&-elim {b = has_id (2 ∷ []) j.id} (&&-elim {a = is_target "mail" (2 ∷ []) j} h).0).0

reinserted_total_example :
    (u : Table) × ((results : List Job) × ((reinserted at_five false no_output
            (fails_by_id "mail" (2 ∷ []))
            three_rows
          ≡ ok (u, results))
        × (IsUnique u × Perm u (results ++ reject (fails_by_id "mail" (2 ∷ [])) three_rows))))
reinserted_total_example =
    reinserted_total at_five false no_output (fails_by_id "mail" (2 ∷ [])) three_rows can_fail
      rows-IsUnique

abbrev retried_job : Job
unfolding retried_row
retried_job = retried_row at_five false none (sample 2 active)

after_failing :
    reinserted at_five false no_output (fails_by_id "mail" (2 ∷ [])) three_rows
    ≡ ok (retried_job ∷ sample 1 created ∷ sample 3 completed ∷ [], retried_job ∷ [])
unfolding reinserted insert_skipping insert_rows collides overlaps occupied slots has_slot decide
    Slot-discrete
after_failing = refl

reinserted-ids_example :
    Perm (ids (retried_job ∷ [])) (ids (select (fails_by_id "mail" (2 ∷ [])) three_rows))
reinserted-ids_example =
    reinserted-ids at_five false no_output (fails_by_id "mail" (2 ∷ [])) "mail" three_rows
      (retried_job ∷ sample 1 created ∷ sample 3 completed ∷ []) (retried_job ∷ []) in_mail
      rows-IsUnique after_failing
