-- ===== src/Flows/Validate/Names.antt =====
-- Lists of refs: how often one stands in them, and lists of as many refs that contain each other.
use bun_boss.Base.{
  ℕ, suc, ◌+◌, ◌≤◌, ◌≡◌, refl, ◌∙◌, String, Bool, true, false, ◌||◌, if◌then◌else◌, List, [], ◌∷◌,
  ◌++◌, str_eq, length, arith, inl, inr, Bool-cases, All,
}
use bun_boss.Commands.{has_name}
use text.Mathlib.TextEquality.{eq_iff}

abbrev pub times : String → List String → ℕ
times r [] = 0
times r (x ∷ xs) = (if str_eq x r then 1 else 0) + times r xs

-- Those that are not among the visited ones.
abbrev pub unseen : List String → List String → ℕ
unseen seen [] = 0
unseen seen (x ∷ xs) = (if has_name seen x then 0 else 1) + unseen seen xs

pub unseen-nil : (xs : List String) → unseen [] xs ≡ length xs
unseen-nil [] = refl
unseen-nil (x ∷ xs) = omega (arith, unseen-nil xs)

pub unseen-cons :
    (c : String) (seen xs : List String)
    → has_name seen c ≡ false
    → unseen (c ∷ seen) xs + times c xs ≡ unseen seen xs
unseen-cons c seen [] h = refl
unseen-cons c seen (x ∷ xs) h = ground (arith, unseen-cons c seen xs h, eq_iff c x, eq_iff x c)

pub unseen-le : (c : String) (seen xs : List String) → unseen (c ∷ seen) xs ≤ unseen seen xs
unseen-le c seen [] = omega arith
unseen-le c seen (x ∷ xs) = ground (arith, unseen-le c seen xs)

pub has_name-append :
    (xs ys : List String) (n : String) → has_name (xs ++ ys) n ≡ (has_name xs n || has_name ys n)
has_name-append [] ys n = refl
has_name-append (x ∷ xs) ys n = ground (arith, has_name-append xs ys n)

pub times-append : (r : String) (xs ys : List String) → times r (xs ++ ys) ≡ times r xs + times r ys
times-append r [] ys = omega arith
times-append r (x ∷ xs) ys = omega (arith, times-append r xs ys)

abbrev pub Distinct : List String → Type 0
Distinct [] = Unit
Distinct (x ∷ xs) = (has_name xs x ≡ false) × Distinct xs

abbrev pub Among : List String → List String → Type 0
Among ys xs = All (λ x. has_name ys x ≡ true) xs

-- Without the first occurrence of a ref.
abbrev without : String → List String → List String
without x [] = []
without x (y ∷ ys) = if str_eq y x then ys else y ∷ without x ys

length-without :
    (x : String) (ys : List String) → has_name ys x ≡ true → length ys ≡ suc (length (without x ys))
length-without x [] h = cc
length-without x (y ∷ ys) h = ground (arith, length-without x ys)

has_name-without :
    (x : String) (ys : List String) (n : String)
    → str_eq n x ≡ false
    → has_name (without x ys) n ≡ has_name ys n
has_name-without x [] n h = refl
has_name-without x (y ∷ ys) n h =
    ground (arith, has_name-without x ys n h, eq_iff y x, eq_iff y n, eq_iff n x)

Among-without :
    (x : String) (ys xs : List String)
    → has_name xs x ≡ false
    → Among ys xs
    → Among (without x ys) xs
Among-without x ys [] d a = tt
Among-without x ys (z ∷ xs) d a =
    let (first, others) = neither (str_eq z x) d in
    (has_name-without x ys z first ∙ a.0, Among-without x ys xs others a.1)
  where
    neither : (b : Bool) {c : Bool} → (b || c) ≡ false → (b ≡ false) × (c ≡ false)
    neither b h = ground arith

-- Distinct refs, all of them in a list that is no longer, are all of that list.
pub pigeonhole :
    (xs ys : List String) (n : String)
    → Distinct xs
    → Among ys xs
    → length ys ≤ length xs
    → has_name ys n ≡ true
    → has_name xs n ≡ true
pigeonhole [] [] n d a l h = cc
pigeonhole [] (y ∷ ys) n d a l h = absurd (omega arith)
pigeonhole (x ∷ xs) ys n d a l h = elim (Bool-cases (str_eq n x)) [
  | inl e ↦ ground (arith, eq_iff n x, eq_iff x n)
  | inr e ↦
      let rest =
        pigeonhole xs (without x ys) n d.1 (Among-without x ys xs d.0 a.1)
          (omega (arith, length-without x ys a.0)) (has_name-without x ys n e ∙ h) in
      ground arith
]
