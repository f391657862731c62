-- ===== src/SerializeError/Terminates.antt =====
-- Serializing ends, on any finite heap, with cycles or not.
use bun_boss.Base.{
  ℕ, zero, suc, ◌+◌, ◌≤◌, ◌<◌, ◌≡◌, refl, ap, sym, ◌∙◌, inl, inr, String, true, false,
  if◌then◌else◌, List, [], ◌∷◌, Option, none, some, arith, Bool-cases, ◌==◌,
}
use bun_boss.SerializeError.{
  Property, undefined_value, null_value, primitive, bigint, function_value, reference, Plain,
  Fields, end, HeapObject, Heap, error_properties, is_seen, circular_or, object_value, set_if,
  copy_key, and_then, copy_keys, copy_error, copy_errors, to_object, copy_object, json_or,
  destroy_circular, serialize_error,
}

-- How many objects are not seen yet.
unfoldable unseen : ℕ → List ℕ → ℕ
unseen zero seen = 0
unseen (suc n) seen = (if is_seen seen n then 0 else 1) + unseen n seen

unseen-same : (n i : ℕ) (seen : List ℕ) → n ≤ i → unseen n (i ∷ seen) ≡ unseen n seen
unfolding unseen
unseen-same zero i seen h = refl
unseen-same (suc n) i seen h =
    rw (other i n (omega (arith, h)), unseen-same n i seen (omega (arith, h))) refl
  where
    other : (a b : ℕ) → b < a → (a == b) ≡ false
    other a b h = ground arith

-- Seeing a new object leaves one less.
unseen-suc :
    (n i : ℕ) (seen : List ℕ)
    → i < n
    → is_seen seen i ≡ false
    → unseen n seen ≡ suc (unseen n (i ∷ seen))
unfolding unseen
unseen-suc zero i seen h f = absurd (omega (arith, h))
unseen-suc (suc n) i seen h f = elim (Bool-cases (i == n)) [
  | inl e ↦
      let k = same i n e in
      rw (e, ap (is_seen seen) (sym k) ∙ f, unseen-same n i seen (omega (arith, k))) (omega arith)
  | inr e ↦ rw (e, unseen-suc n i seen (below i n e h) f) (omega arith)
]
  where
    same : (a b : ℕ) → (a == b) ≡ true → a ≡ b
    same a b e = ground arith

    below : (a b : ℕ) → (a == b) ≡ false → a < suc b → a < b
    below a b e h = ground arith

-- The references of a value are objects of the heap.
abbrev pub RefersBelow : ℕ → Property → Type 0
RefersBelow n (reference i) = i < n
RefersBelow n _ = Unit

abbrev AllEntries : ℕ → List (String × Property) → Type 0
AllEntries n [] = Unit
AllEntries n ((key, v) ∷ rest) = RefersBelow n v × AllEntries n rest

-- A heap of `n` objects.
abbrev pub IsClosed : ℕ → Heap → Type 0
IsClosed n heap =
    (i : ℕ)
    → i < n
    → AllEntries n (heap i).entries × ((key : String) → RefersBelow n ((heap i).error_property key))

abbrev pub IsSome {ℓ} : {A : Type ℓ} → Option A → Type 0
IsSome none = ⊥
IsSome (some a) = Unit

and_then-IsSome {ℓ κ} :
    {A : Type ℓ} {B : Type κ} (o : Option A) (f : A → Option B)
    → IsSome o
    → ((a : A) → IsSome (f a))
    → IsSome (and_then o f)
and_then-IsSome none f h k = h
and_then-IsSome (some a) f h k = k a

module _ (heap : Heap) (recurse : ℕ → Option Plain) (seen : List ℕ) (n : ℕ)
    (ends : (k : ℕ) → k < n → is_seen seen k ≡ false → IsSome (recurse k)) where
  circular_or-IsSome : (k : ℕ) → k < n → IsSome (circular_or recurse seen k)
  circular_or-IsSome k h = elim (Bool-cases (is_seen seen k)) [
    | inl e ↦ rw e tt
    | inr e ↦ rw e (ends k h e)
  ]

  object_value-IsSome : (k : ℕ) → k < n → IsSome (object_value heap recurse seen k)
  object_value-IsSome k h = elim (Bool-cases (heap k).is_buffer) [
    | inl e ↦ rw e tt
    | inr e ↦ elim (Bool-cases (heap k).is_stream) [
      | inl f ↦ rw (e, f) tt
      | inr f ↦ rw (e, f) (circular_or-IsSome k h)
    ]
  ]

  set_if-IsSome :
      (key : String) (o : Option Plain) (to : Fields) → IsSome o → IsSome (set_if key o to)
  set_if-IsSome key none to h = h
  set_if-IsSome key (some v) to h = tt

  copy_key-IsSome :
      (key : String) (v : Property) (to : Fields)
      → RefersBelow n v
      → IsSome (copy_key heap recurse seen key v to)
  copy_key-IsSome key undefined_value to h = tt
  copy_key-IsSome key null_value to h = tt
  copy_key-IsSome key (primitive s) to h = tt
  copy_key-IsSome key (bigint s) to h = tt
  copy_key-IsSome key (function_value s) to h = tt
  copy_key-IsSome key (reference i) to h = set_if-IsSome key _ to (object_value-IsSome i h)

  copy_keys-IsSome :
      (es : List (String × Property)) (to : Fields)
      → AllEntries n es
      → IsSome (copy_keys heap recurse seen es to)
  unfolding copy_keys
  copy_keys-IsSome [] to a = tt
  copy_keys-IsSome ((key, v) ∷ es) to a =
      and_then-IsSome _ _ (copy_key-IsSome key v to a.0) (λ fs. copy_keys-IsSome es fs a.1)

  copy_error-IsSome :
      (key : String) (v : Property) (to : Fields)
      → RefersBelow n v
      → IsSome (copy_error recurse seen key v to)
  copy_error-IsSome key undefined_value to h = tt
  copy_error-IsSome key null_value to h = tt
  copy_error-IsSome key (primitive s) to h = tt
  copy_error-IsSome key (bigint s) to h = tt
  copy_error-IsSome key (function_value s) to h = tt
  copy_error-IsSome key (reference i) to h = set_if-IsSome key _ to (circular_or-IsSome i h)

  copy_errors-IsSome :
      (from : String → Property) (keys : List String) (to : Fields)
      → ((key : String) → RefersBelow n (from key))
      → IsSome (copy_errors recurse seen from keys to)
  unfolding copy_errors
  copy_errors-IsSome from [] to a = tt
  copy_errors-IsSome from (key ∷ keys) to a =
      and_then-IsSome _ _ (copy_error-IsSome key (from key) to (a key))
        (λ fs. copy_errors-IsSome from keys fs a)

  to_object-IsSome : (o : Option Fields) → IsSome o → IsSome (to_object o)
  to_object-IsSome none h = h
  to_object-IsSome (some fs) h = tt

  copy_object-IsSome :
      (o : HeapObject)
      → AllEntries n o.entries
      → ((key : String) → RefersBelow n (o.error_property key))
      → IsSome (copy_object heap recurse seen o)
  unfolding copy_object
  copy_object-IsSome o a b = to_object-IsSome _ (
      and_then-IsSome _ _ (copy_keys-IsSome o.entries end a)
        (λ fs. copy_errors-IsSome o.error_property error_properties fs b))

json_or-IsSome : (o : Option String) (p : Option Plain) → IsSome p → IsSome (json_or o p)
json_or-IsSome none p h = h
json_or-IsSome (some s) p h = tt

destroy_circular-IsSome :
    (heap : Heap) (n : ℕ)
    → IsClosed n heap
    → (fuel : ℕ) (seen : List ℕ) (i : ℕ) → i < n
    → is_seen seen i ≡ false
    → unseen n seen ≤ fuel
    → IsSome (destroy_circular fuel heap seen i)
unfolding destroy_circular
destroy_circular-IsSome heap n c zero seen i h f g =
    absurd (omega (arith, unseen-suc n i seen h f, g))
destroy_circular-IsSome heap n c (suc fuel) seen i h f g = json_or-IsSome (heap i).to_json _ (
    copy_object-IsSome heap _ (i ∷ seen) n
      (λ k l m.
        destroy_circular-IsSome heap n c fuel (i ∷ seen) k l m
          (omega (arith, unseen-suc n i seen h f, g)))
      (heap i) (c i h).0 (c i h).1)

unseen-all : (n : ℕ) → unseen n [] ≡ n
unfolding unseen
unseen-all zero = refl
unseen-all (suc n) = omega (arith, unseen-all n)

-- In a heap of `n` objects that refer only to each other, whatever the cycles among them,
-- serializeError of one of them ends with at most `n` objects nested in each other.
pub serialize_error-IsSome :
    (heap : Heap) (n i : ℕ) → IsClosed n heap → i < n → IsSome (serialize_error n heap i)
unfolding serialize_error
serialize_error-IsSome heap n i c h =
    destroy_circular-IsSome heap n c n [] i h refl (omega (arith, unseen-all n))
