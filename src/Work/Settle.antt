-- ===== src/Work/Settle.antt =====
-- Manager.#settlePerJob: what becomes of each job of a batch whose handler reports on them one by
-- one. A job stands here as its id.
use bun_boss.Base.{
  ℕ, ◌≡◌, refl, ap, ◌∙◌, String, Bool, true, false, ◌&&◌, if◌then◌else◌, List, [], ◌∷◌, ◌++◌, map,
  Option, length, ◌==◌,
}
use bun_boss.Commands.{has_id}
use mathlib.Core.List.{Perm, perm_middle, append-nil}
use mathlib.Core.List.Perm

pub data Status : Type 0 where
  completed failed deadletter unknown : Status

-- An entry of the handler's array. `nothing` is a falsy entry.
pub data Entry : Type 0 where
  nothing : Entry
  entry : ℕ → Status → Option String → Entry

-- What the handler resolved with.
pub data HandlerResult : Type 0 where
  not_array : HandlerResult
  array : List Entry → HandlerResult

abbrev pub is_known : Status → Bool
is_known unknown = false
is_known _ = true

-- The `disposition` map at one id: the last valid entry of the batch with that id.
pub data Disposition : Type 0 where
  missing : Disposition
  found : Status → Option String → Disposition

abbrev pub record_entry : List ℕ → ℕ → Entry → Disposition → Disposition
record_entry jobs id nothing d = d
record_entry jobs id (entry i s o) d =
    if has_id jobs i && is_known s && i == id then found s o else d

unfoldable pub disposition_of : List ℕ → ℕ → List Entry → Disposition → Disposition
disposition_of jobs id [] d = d
disposition_of jobs id (e ∷ es) d = disposition_of jobs id es (record_entry jobs id e d)

pub data Output : Type 0 where
  given : Option String → Output
  -- new Error('no disposition returned by handler')
  no_disposition : Output

pub record Partition : Type 0 where
  pub completed : List (ℕ × Output)
  pub failed : List (ℕ × Output)
  pub dead_lettered : List (ℕ × Output)

abbrev pub place : ℕ → Disposition → Partition → Partition
place id (found completed o) p = record p { completed = (id, given o) ∷ p.completed }
place id (found failed o) p = record p { failed = (id, given o) ∷ p.failed }
place id (found deadletter o) p = record p { dead_lettered = (id, given o) ∷ p.dead_lettered }
place id (found unknown o) p = record p { failed = (id, no_disposition) ∷ p.failed }
place id missing p = record p { failed = (id, no_disposition) ∷ p.failed }

unfoldable pub partition : List ℕ → List Entry → List ℕ → Partition
unfolding disposition_of
partition batch es [] = record { completed = []; failed = []; dead_lettered = [] }
partition batch es (id ∷ ids) =
    place id (disposition_of batch id es missing) (partition batch es ids)

-- The commands that settle the batch, in their order, and the number of completed jobs.
pub data Command : Type 0 where
  fail_all : List ℕ → Command
  complete_with_outputs : List (ℕ × Output) → Command
  fail_with_outputs : List (ℕ × Output) → Command
  dead_letter_with_outputs : List (ℕ × Output) → Command

abbrev pub unless_empty : (List (ℕ × Output) → Command) → List (ℕ × Output) → List Command
unless_empty c [] = []
unless_empty c (x ∷ xs) = c (x ∷ xs) ∷ []

unfoldable pub settle_per_job : List ℕ → HandlerResult → List Command × ℕ
unfolding partition
settle_per_job jobs not_array = (fail_all jobs ∷ [], 0)
settle_per_job jobs (array es) =
    let p = partition jobs es jobs in
    (
      unless_empty complete_with_outputs p.completed
          ++ (unless_empty fail_with_outputs p.failed
              ++ unless_empty dead_letter_with_outputs p.dead_lettered),
      length p.completed,
    )

-- The ids that the commands name.
abbrev pub named : Command → List ℕ
named (fail_all ids) = ids
named (complete_with_outputs l) = map (λ o. o.0) l
named (fail_with_outputs l) = map (λ o. o.0) l
named (dead_letter_with_outputs l) = map (λ o. o.0) l

unfoldable pub all_named : List Command → List ℕ
all_named [] = []
all_named (c ∷ cs) = named c ++ all_named cs

abbrev ids_of : Partition → List ℕ
ids_of p = map (λ o. o.0) p.completed ++ (map (λ o. o.0) p.failed ++ map (λ o. o.0) p.dead_lettered)

place-perm :
    (id : ℕ) (d : Disposition) (p : Partition) → Perm (ids_of (place id d p)) (id ∷ ids_of p)
place-perm id (found completed o) p = Perm.refl _
place-perm id (found failed o) p = perm_middle (map (λ o. o.0) p.completed) _
place-perm id (found deadletter o) p =
    Perm.trans
      (Perm.append (Perm.refl (map (λ o. o.0) p.completed))
        (perm_middle (map (λ o. o.0) p.failed) _))
      (perm_middle (map (λ o. o.0) p.completed) _)
place-perm id (found unknown o) p = perm_middle (map (λ o. o.0) p.completed) _
place-perm id missing p = perm_middle (map (λ o. o.0) p.completed) _

partition-perm :
    (batch : List ℕ) (es : List Entry) (ids : List ℕ) → Perm (ids_of (partition batch es ids)) ids
unfolding partition
partition-perm batch es [] = Perm.refl []
partition-perm batch es (id ∷ ids) =
    Perm.trans (place-perm id (disposition_of batch id es missing) (partition batch es ids))
      (Perm.cons id (partition-perm batch es ids))

front :
    (k : List (ℕ × Output) → Command)
    → ((l : List (ℕ × Output)) → named (k l) ≡ map (λ o. o.0) l)
    → (l : List (ℕ × Output)) (rest : List Command)
    → all_named (unless_empty k l ++ rest) ≡ map (λ o. o.0) l ++ all_named rest
unfolding all_named
front k e [] rest = refl
front k e (x ∷ xs) rest = rw (e (x ∷ xs))

last :
    (l : List (ℕ × Output)) → all_named (unless_empty dead_letter_with_outputs l) ≡ map (λ o. o.0) l
unfolding all_named
last [] = refl
last (x ∷ xs) = append-nil _

all_named-partition :
    (p : Partition)
    → all_named (
        unless_empty complete_with_outputs p.completed
        ++ (unless_empty fail_with_outputs p.failed
            ++ unless_empty dead_letter_with_outputs p.dead_lettered))
      ≡ ids_of p
unfolding all_named
all_named-partition p = by_lists p.completed p.failed p.dead_lettered
  where
    by_lists :
        (c f d : List (ℕ × Output))
        → all_named (
            unless_empty complete_with_outputs c
            ++ (unless_empty fail_with_outputs f ++ unless_empty dead_letter_with_outputs d))
          ≡ map (λ o. o.0) c ++ (map (λ o. o.0) f ++ map (λ o. o.0) d)
    by_lists c f d =
        front complete_with_outputs (λ l. refl) c _
        ∙ ap (◌++◌ (map (λ o. o.0) c))
            (front fail_with_outputs (λ l. refl) f _ ∙ ap (◌++◌ (map (λ o. o.0) f)) (last d))

-- The commands that settle a batch name every job of the batch exactly once, whatever the handler
-- resolved with.
pub settle_per_job-perm :
    (jobs : List ℕ) (r : HandlerResult) → Perm (all_named (settle_per_job jobs r).0) jobs
unfolding settle_per_job all_named
settle_per_job-perm jobs not_array = rw (append-nil) (Perm.refl jobs)
settle_per_job-perm jobs (array es) =
    rw (all_named-partition (partition jobs es jobs)) (partition-perm jobs es jobs)
