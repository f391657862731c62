-- ===== src/Flows/Rows.antt =====
-- What the two updates of a batch make of a row.
use bun_boss.Base.{ℕ, ◌+◌, ◌≤◌, ◌≡◌, refl, Bool, true, false, not, ◌&&◌, ◌||◌, arith, ltb}
use bun_boss.Job.{Job}
use bun_boss.Flows.{updated_by}

pub updated_by-name : (u c : Bool) (n : ℕ) (j : Job) → (updated_by u c n j).name ≡ j.name
updated_by-name true c n j = refl
updated_by-name false true n j = refl
updated_by-name false false n j = refl

pub updated_by-id : (u c : Bool) (n : ℕ) (j : Job) → (updated_by u c n j).id ≡ j.id
updated_by-id true c n j = refl
updated_by-id false true n j = refl
updated_by-id false false n j = refl

pub updated_by-state : (u c : Bool) (n : ℕ) (j : Job) → (updated_by u c n j).state ≡ j.state
updated_by-state true c n j = refl
updated_by-state false true n j = refl
updated_by-state false false n j = refl

-- Where no row is named by both updates.
pub updated_by-blocking :
    (u c : Bool) (n : ℕ) (j : Job)
    → (u && c) ≡ false
    → (updated_by u c n j).blocking ≡ (j.blocking && not c)
updated_by-blocking true true n j h = ground arith
updated_by-blocking true false n j h = ground arith
updated_by-blocking false true n j h = ground arith
updated_by-blocking false false n j h = ground arith

pub updated_by-HasCount :
    (u c : Bool) (n w v : ℕ) (j : Job)
    → w ≡ n + v
    → (j.blocked ≡ true → (j.pending_dependencies ≡ w) × (1 ≤ w))
    → (u ≡ true → j.blocked ≡ true)
    → (u ≡ false → j.blocked ≡ true → n ≡ 0)
    → (updated_by u c n j).blocked ≡ true
    → ((updated_by u c n j).pending_dependencies ≡ v) × (1 ≤ v)
updated_by-HasCount true c n w v j e k f g h = ground arith
updated_by-HasCount false true n w v j e k f g h = ground arith
updated_by-HasCount false false n w v j e k f g h = ground arith

pub updated_by-not_blocked :
    (u c : Bool) (n : ℕ) (j : Job)
    → (u ≡ true → j.blocked ≡ true)
    → j.blocked ≡ false
    → (updated_by u c n j).blocked ≡ false
updated_by-not_blocked true c n j f h = ground arith
updated_by-not_blocked false true n j f h = h
updated_by-not_blocked false false n j f h = h

pub names_both : (b x f c : Bool) → (c ≡ true → b ≡ false) → ((b && x && (f || not c)) && c) ≡ false
names_both b x f c h = ground arith

pub named_if : (b x y : Bool) → (b && x && y) ≡ true → b ≡ true
named_if b x y h = ground arith

pub not_named :
    (b f c : Bool) (n : ℕ)
    → (c ≡ true → b ≡ false)
    → (b && ltb 0 n && (f || not c)) ≡ false
    → b ≡ true
    → n ≡ 0
not_named b f c n h k e = ground arith
