-- ===== src/Flows/Create/Counters.antt =====
-- The rows of a new flow count their dependencies.
use bun_boss.Base.{
  ℕ, ◌≡◌, String, Bool, false, ◌&&◌, List, [], ◌∷◌, str_eq, ltb, ◌==◌, All, length, select,
}
use bun_boss.Job.{Job}
use bun_boss.Flows.{Dependency, is_child}
use bun_boss.Flows.Create.{FlowJob, dependencies_of, dependency_rows}

-- A dependency of the job with this name and id.
abbrev child_is : String → ℕ → Dependency → Bool
child_is name id d = str_eq name d.child_name && id == d.child_id

abbrev count : String → ℕ → List Dependency → ℕ
count name id deps = length (select (child_is name id) deps)

-- No two jobs have one queue and one id.
abbrev same_job : (String → ℕ) → FlowJob → FlowJob → Bool
same_job ids j k = str_eq j.name k.name && ids j.ref == ids k.ref

abbrev pub KeysDiffer : (String → ℕ) → List FlowJob → Type 0
KeysDiffer ids [] = Unit
KeysDiffer ids (j ∷ js) = All (λ k. same_job ids j k ≡ false) js × KeysDiffer ids js

module _ (ids : String → ℕ) (all : List FlowJob) where
  abbrev HasRows : List FlowJob → FlowJob → Type 0
  HasRows js j = count j.name (ids j.ref) (dependency_rows ids all js) ≡ length (dependencies_of j)

-- The counter is the number of the row's dependencies, and the flags fit.
abbrev pub RowCounts : List Dependency → Bool → Job → Type 0
RowCounts deps is_parent row =
    (row.pending_dependencies ≡ length (select (is_child row) deps))
    × ((row.blocked ≡ ltb 0 row.pending_dependencies) × (row.blocking ≡ is_parent))
