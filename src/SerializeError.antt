-- ===== src/SerializeError.antt =====
-- src/serialize-error.ts: a thrown value as a plain object. Objects refer to each other, in cycles too,
-- so they are a heap: an object is its index. What toJSON returns is a parameter, given with the
-- object. The loop is on fuel; SerializeError/Terminates says how much is enough.
pub mod Terminates
use bun_boss.Base.{
  ℕ, zero, suc, String, Bool, true, false, ◌||◌, if◌then◌else◌, List, [], ◌∷◌, Option, none, some,
  str_eq, ◌==◌, any,
}

-- A value of a property: an object by its index, or a value by its text.
pub data Property : Type 0 where
  undefined_value : Property
  null_value : Property
  primitive : String → Property
  bigint : String → Property
  function_value : String → Property
  reference : ℕ → Property

-- What is made of it: what toJSON returns, a value as it is, a text in its place, or an object.
mutual
  pub data Plain : Type 0 where
    json : String → Plain
    value : Property → Plain
    marker : String → Plain
    object : Fields → Plain

  pub data Fields : Type 0 where
    end : Fields
    field : String → Plain → Fields → Fields

-- An object: Object.keys with their values, and `error_property`, which reads also what is not
-- enumerable or is inherited.
pub record HeapObject : Type 0 where
  pub is_buffer : Bool
  pub is_stream : Bool
  pub to_json : Option String
  pub entries : List (String × Property)
  pub error_property : String → Property

abbrev pub Heap : Type 0
Heap = ℕ → HeapObject

-- ERROR_PROPERTIES
abbrev pub error_properties : List String
error_properties = "name" ∷ "message" ∷ "stack" ∷ "code" ∷ "cause" ∷ "errors" ∷ []

-- seen.has(value)
abbrev pub is_seen : List ℕ → ℕ → Bool
is_seen seen i = any (λ k. k == i) seen

-- Setting a property keeps the place of one that is there.
abbrev pub set_field : String → Plain → Fields → Fields
set_field key v end = field key v end
set_field key v (field k w fs) =
    if str_eq k key then field k v fs else field k w (set_field key v fs)

-- seen.has(value) ? '[Circular]' : recurse(value)
abbrev pub circular_or : (ℕ → Option Plain) → List ℕ → ℕ → Option Plain
circular_or recurse seen i = if is_seen seen i then some (marker "[Circular]") else recurse i

abbrev pub object_value : Heap → (ℕ → Option Plain) → List ℕ → ℕ → Option Plain
object_value heap recurse seen i =
    if (heap i).is_buffer
    then some (marker "[object Buffer]")
    else if (heap i).is_stream
    then some (marker "[object Stream]")
    else circular_or recurse seen i

abbrev pub set_if : String → Option Plain → Fields → Option Fields
set_if key none to = none
set_if key (some v) to = some (set_field key v to)

-- One turn of the loop over Object.keys(from). The text of a bigint is its digits with n.
abbrev pub copy_key :
    Heap → (ℕ → Option Plain) → List ℕ → String → Property → Fields → Option Fields
copy_key heap recurse seen key undefined_value to = some (set_field key (value undefined_value) to)
copy_key heap recurse seen key null_value to = some (set_field key (value null_value) to)
copy_key heap recurse seen key (primitive s) to = some (set_field key (value (primitive s)) to)
copy_key heap recurse seen key (bigint s) to = some (set_field key (marker s) to)
copy_key heap recurse seen key (function_value s) to = some to
copy_key heap recurse seen key (reference i) to = set_if key (object_value heap recurse seen i) to

abbrev pub and_then {ℓ κ} : {A : Type ℓ} {B : Type κ} → Option A → (A → Option B) → Option B
and_then none f = none
and_then (some a) f = f a

unfoldable pub copy_keys :
    Heap → (ℕ → Option Plain) → List ℕ → List (String × Property) → Fields → Option Fields
copy_keys heap recurse seen [] to = some to
copy_keys heap recurse seen ((key, v) ∷ rest) to =
    and_then (copy_key heap recurse seen key v to) (copy_keys heap recurse seen rest)

-- One turn of the loop over ERROR_PROPERTIES.
abbrev pub copy_error : (ℕ → Option Plain) → List ℕ → String → Property → Fields → Option Fields
copy_error recurse seen key undefined_value to = some to
copy_error recurse seen key null_value to = some to
copy_error recurse seen key (reference i) to = set_if key (circular_or recurse seen i) to
copy_error recurse seen key v to = some (set_field key (value v) to)

unfoldable pub copy_errors :
    (ℕ → Option Plain) → List ℕ → (String → Property) → List String → Fields → Option Fields
copy_errors recurse seen from [] to = some to
copy_errors recurse seen from (key ∷ rest) to =
    and_then (copy_error recurse seen key (from key) to) (copy_errors recurse seen from rest)

abbrev pub to_object : Option Fields → Option Plain
to_object none = none
to_object (some fs) = some (object fs)

-- Both loops, for the object `from`, `seen` with it.
unfoldable pub copy_object : Heap → (ℕ → Option Plain) → List ℕ → HeapObject → Option Plain
unfolding copy_keys copy_errors
copy_object heap recurse seen from = to_object (
    and_then (copy_keys heap recurse seen from.entries end)
      (copy_errors recurse seen from.error_property error_properties))

abbrev pub json_or : Option String → Option Plain → Option Plain
json_or none p = p
json_or (some s) p = some (json s)

-- `none` is a run that has not ended on the fuel given. `seen` is as it was, on the way back.
unfoldable pub destroy_circular : ℕ → Heap → List ℕ → ℕ → Option Plain
destroy_circular zero heap seen i = none
destroy_circular (suc fuel) heap seen i =
    json_or (heap i).to_json
      (copy_object heap (λ k. destroy_circular fuel heap (i ∷ seen) k) (i ∷ seen) (heap i))

-- serializeError, of the object that it is given, or of the Error that it wraps a value in.
unfoldable pub serialize_error : ℕ → Heap → ℕ → Option Plain
unfolding destroy_circular
serialize_error fuel heap i = destroy_circular fuel heap [] i
