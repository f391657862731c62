-- ===== src/Supervise/Chunks.antt =====
-- The chunks of supervise(): nothing is lost, and no statement gets more than 100 names.
use bun_boss.Base.{
  ℕ, zero, suc, ◌+◌, ◌≤◌, ◌≡◌, refl, ap, ◌∙◌, String, Bool, true, false, ◌&&◌, if◌then◌else◌, List,
  [], ◌∷◌, ◌++◌, map, str_eq, length, take, drop, All, arith, Bool-cases, inl, inr,
}
use text.Mathlib.TextEquality.{eq_iff}
use bun_boss.Supervise.{
  QueueRef, QueueGroup, add_to_group, group_from, queue_groups, splices, chunk_size, group_chunks,
  chunks_of, supervise,
}

unfoldable pub concat : List (List String) → List String
concat [] = []
concat (c ∷ cs) = c ++ concat cs

take-drop : (n : ℕ) (xs : List String) → take n xs ++ drop n xs ≡ xs
take-drop zero xs = refl
take-drop (suc n) [] = refl
take-drop (suc n) (x ∷ xs) = ap (λ l. x ∷ l) (take-drop n xs)

length-drop : (n : ℕ) (xs : List String) → length (drop n xs) ≤ length xs
length-drop zero xs = omega arith
length-drop (suc n) [] = omega arith
length-drop (suc n) (x ∷ xs) = omega (arith, length-drop n xs)

length-take : (n : ℕ) (xs : List String) → length (take n xs) ≤ n
length-take zero xs = omega arith
length-take (suc n) [] = omega arith
length-take (suc n) (x ∷ xs) = omega (arith, length-take n xs)

-- Enough fuel splices everything.
splices-concat :
    (size fuel : ℕ) (xs : List String) → length xs ≤ fuel → concat (splices (suc size) fuel xs) ≡ xs
unfolding splices concat
splices-concat size zero [] h = refl
splices-concat size zero (x ∷ xs) h = absurd (omega arith)
splices-concat size (suc fuel) [] h = refl
splices-concat size (suc fuel) (x ∷ xs) h =
    ap (λ l. x ∷ (take size xs ++ l))
      (splices-concat size fuel (drop size xs) (omega (arith, length-drop size xs)))
    ∙ ap (λ l. x ∷ l) (take-drop size xs)

splices-bounded :
    (size fuel : ℕ) (xs : List String) → All (λ c. length c ≤ size) (splices size fuel xs)
unfolding splices
splices-bounded size zero xs = tt
splices-bounded size (suc fuel) [] = tt
splices-bounded size (suc fuel) (x ∷ xs) =
    (length-take size (x ∷ xs), splices-bounded size fuel (drop size (x ∷ xs)))

-- How often a text is in a list.
unfoldable pub times : String → List String → ℕ
times x [] = 0
times x (y ∷ ys) = if str_eq y x then suc (times x ys) else times x ys

times-append : (x : String) (xs ys : List String) → times x (xs ++ ys) ≡ times x xs + times x ys
unfolding times
times-append x [] ys = omega arith
times-append x (z ∷ xs) ys = elim (Bool-cases (str_eq z x)) [
  | inl e ↦ rw (e, times-append x xs ys) (omega arith)
  | inr e ↦ rw (e, times-append x xs ys) (omega arith)
]

-- How often a name is in the chunks of a table, in its groups, and among its queues.
unfoldable pub chunk_times : String → String → List (String × List String) → ℕ
unfolding times
chunk_times t x [] = 0
chunk_times t x (c ∷ cs) = (if str_eq c.0 t then times x c.1 else 0) + chunk_times t x cs

unfoldable pub group_times : String → String → List QueueGroup → ℕ
unfolding times
group_times t x [] = 0
group_times t x (g ∷ gs) = (if str_eq g.table t then times x g.names else 0) + group_times t x gs

unfoldable pub queue_times : String → String → List QueueRef → ℕ
queue_times t x [] = 0
queue_times t x (q ∷ qs) =
    (if str_eq q.table t && str_eq q.name x then 1 else 0) + queue_times t x qs

chunk_times-append :
    (t x : String) (cs ds : List (String × List String))
    → chunk_times t x (cs ++ ds) ≡ chunk_times t x cs + chunk_times t x ds
unfolding chunk_times
chunk_times-append t x [] ds = omega arith
chunk_times-append t x (c ∷ cs) ds = rw (chunk_times-append t x cs ds) (omega arith)

chunk_times-map :
    (t x table : String) (cs : List (List String))
    → chunk_times t x (map (λ c. (table, c)) cs)
      ≡ (if str_eq table t then times x (concat cs) else 0)
unfolding chunk_times concat times
chunk_times-map t x table [] = elim (Bool-cases (str_eq table t)) [
  | inl e ↦ rw e refl
  | inr e ↦ rw e refl
]
chunk_times-map t x table (c ∷ cs) = elim (Bool-cases (str_eq table t)) [
  | inl e ↦ rw (chunk_times-map t x table cs, e, times-append x c (concat cs)) refl
  | inr e ↦ rw (chunk_times-map t x table cs, e) refl
]

chunks_of-times :
    (t x : String) (gs : List QueueGroup) → chunk_times t x (chunks_of gs) ≡ group_times t x gs
unfolding chunks_of group_chunks group_times chunk_times
chunks_of-times t x [] = refl
chunks_of-times t x (g ∷ gs) =
    rw
      (
        chunk_times-append t x (group_chunks g) (chunks_of gs),
        chunks_of-times t x gs,
        chunk_times-map t x g.table (splices chunk_size (length g.names) g.names),
        splices-concat 99 (length g.names) g.names (omega arith),
      )
      refl

add_to_group-times :
    (t x : String) (q : QueueRef) (gs : List QueueGroup)
    → group_times t x (add_to_group q gs)
      ≡ group_times t x gs + (if str_eq q.table t && str_eq q.name x then 1 else 0)
unfolding add_to_group group_times times
add_to_group-times t x q [] = elim (Bool-cases (str_eq q.table t)) [
  | inl e ↦ elim (Bool-cases (str_eq q.name x)) [ inl f ↦ rw (e, f) refl | inr f ↦ rw (e, f) refl ]
  | inr e ↦ rw e refl
]
add_to_group-times t x q (g ∷ gs) = elim (Bool-cases (str_eq g.table q.table)) [
  | inl e ↦
      rw
        (
          e,
          times-append x g.names (q.name ∷ []),
          ap (λ s. str_eq s t) ((eq_iff g.table q.table).0 e),
        )
        (split (str_eq q.table t) (str_eq q.name x))
  | inr e ↦ rw (e, add_to_group-times t x q gs) (omega arith)
]
  where
    split :
        (a b : Bool)
        → (if a then times x g.names + (if b then 1 else 0) else 0) + group_times t x gs
          ≡ (if a then times x g.names else 0) + group_times t x gs + (if a && b then 1 else 0)
    split true b = omega arith
    split false b = omega arith

group_from-times :
    (t x : String) (acc : List QueueGroup) (qs : List QueueRef)
    → group_times t x (group_from acc qs) ≡ group_times t x acc + queue_times t x qs
unfolding group_from queue_times
group_from-times t x acc [] = omega arith
group_from-times t x acc (q ∷ qs) =
    rw (group_from-times t x (add_to_group q acc) qs, add_to_group-times t x q acc) (omega arith)

All-chunks :
    (table : String) (cs : List (List String)) (rest : List (String × List String))
    → All (λ c. length c ≤ 100) cs
    → All (λ c. length c.1 ≤ 100) rest
    → All (λ c. length c.1 ≤ 100) (map (λ c. (table, c)) cs ++ rest)
All-chunks table [] rest a b = b
All-chunks table (c ∷ cs) rest a b = (a.0, All-chunks table cs rest a.1 b)

chunks_of-bounded : (gs : List QueueGroup) → All (λ c. length c.1 ≤ 100) (chunks_of gs)
unfolding chunks_of group_chunks
chunks_of-bounded [] = tt
chunks_of-bounded (g ∷ gs) =
    All-chunks g.table (splices chunk_size (length g.names) g.names) (chunks_of gs)
      (splices-bounded 100 (length g.names) g.names) (chunks_of-bounded gs)

-- Each chunk that supervise() passes on has at most 100 names, and for every table a name is in the
-- chunks of that table exactly as often as the given queues have it with that table.
pub supervise-times :
    (qs : List QueueRef)
    → All (λ c. length c.1 ≤ 100) (supervise qs)
      × ((t x : String) → chunk_times t x (supervise qs) ≡ queue_times t x qs)
unfolding supervise queue_groups group_times
supervise-times qs = (
  chunks_of-bounded (group_from [] qs),
  λ t x. chunks_of-times t x (group_from [] qs) ∙ group_from-times t x [] qs ∙ none_yet t x,
)
  where
    none_yet : (t x : String) → group_times t x [] + queue_times t x qs ≡ queue_times t x qs
    none_yet t x = omega arith
