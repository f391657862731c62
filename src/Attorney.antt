-- ===== src/Attorney.antt =====
-- src/attorney.ts: the checks on what a caller passes. The option objects are of any shape there:
-- an object is a function from keys to values, `absent` for a key it lacks. Numbers have three decimals
-- (they are counted in thousandths), NaN apart; what JavaScript makes of a text in an arithmetic
-- comparison is the parameter `number_of`.
pub mod Options
pub mod Intervals
pub mod Bounds
use bun_boss.Base.{
  ℕ, ◌+◌, ◌*◌, ◌%◌, suc, String, Bool, true, false, not, ◌&&◌, ◌||◌, if◌then◌else◌, Option, none,
  some, str_eq, ◌==◌,
}
use bun_boss.Job.{ℤ, pos, negsuc, leb_ℤ}

pub data Value : Type 0 where
  absent undefined null nan : Value
  bool : Bool → Value
  num : ℤ → Value
  str : String → Value
  func : Value
  obj : (String → Value) → Value

abbrev pub Config : Type 0
Config = String → Value

-- `assert(test, message)`
pub data Checked {ℓ} (A : Type ℓ) : Type ℓ where
  accepted : A → Checked A
  refused : String → Checked A

infixl 5 ◌>>=◌ ◌>>◌
abbrev pub ◌>>=◌ {ℓ κ} : {A : Type ℓ} {B : Type κ} → Checked A → (A → Checked B) → Checked B
accepted a >>= f = f a
refused m >>= f = refused m

abbrev pub ◌>>◌ {ℓ} : {B : Type ℓ} → Checked (Unit {0}) → Checked B → Checked B
m >> k = m >>= λ _. k

abbrev pub check : Bool → String → Checked (Unit {0})
check true message = accepted tt
check false message = refused message

-- 'key' in config
abbrev pub is_in : Value → Bool
is_in absent = false
is_in _ = true

abbrev pub set_key : String → Value → Config → Config
set_key key v c = λ k. if str_eq k key then v else c k

abbrev pub is_null : Value → Bool
is_null null = true
is_null _ = false

abbrev pub is_undefined : Value → Bool
is_undefined absent = true
is_undefined undefined = true
is_undefined _ = false

abbrev pub is_bool : Value → Bool
is_bool (bool b) = true
is_bool _ = false

-- Whole numbers of thousandths.
abbrev pub is_whole : ℤ → Bool
is_whole (pos n) = n % 1000 == 0
is_whole (negsuc n) = suc n % 1000 == 0

-- Number.isInteger
abbrev pub is_integer : Value → Bool
is_integer (num z) = is_whole z
is_integer _ = false

abbrev pub is_true : Value → Bool
is_true (bool true) = true
is_true _ = false

-- The number that an arithmetic comparison reads; none is NaN.
abbrev pub to_number : (String → Option ℤ) → Value → Option ℤ
to_number number_of absent = none
to_number number_of undefined = none
to_number number_of null = some (pos 0)
to_number number_of nan = none
to_number number_of (bool true) = some (pos 1000)
to_number number_of (bool false) = some (pos 0)
to_number number_of (num z) = some z
to_number number_of (str s) = number_of s
to_number number_of func = none
to_number number_of (obj f) = none

abbrev pub number_ge : Option ℤ → ℕ → Bool
number_ge none m = false
number_ge (some z) m = leb_ℤ (pos m) z

abbrev pub number_le : Option ℤ → ℕ → Bool
number_le none m = false
number_le (some z) m = leb_ℤ z (pos m)

abbrev pub number_lt : Option ℤ → ℕ → Bool
number_lt none m = false
number_lt (some z) m = not (leb_ℤ (pos m) z)

abbrev pub is_zero : ℤ → Bool
is_zero (pos n) = n == 0
is_zero (negsuc n) = false

-- !!value
abbrev pub is_truthy : Value → Bool
is_truthy absent = false
is_truthy undefined = false
is_truthy null = false
is_truthy nan = false
is_truthy (bool b) = b
is_truthy (num z) = not (is_zero z)
is_truthy (str s) = not (str_eq s "")
is_truthy func = true
is_truthy (obj f) = true
