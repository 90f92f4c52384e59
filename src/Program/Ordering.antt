-- ===== src/Program/Ordering.antt =====
-- The place of an evaluation in the table, under insertions and deletions.
use agent_data_oracle.Base.{
  ℕ, suc, ◌≤◌, ◌<◌, ◌≡◌, refl, Bool, true, false, not, ◌==◌, ==_iff, List, [], ◌∷◌, ◌++◌, arith,
  any, length, select, Bool-cases, inl, inr, if◌then◌else◌,
}
use agent_data_oracle.Queue.{Evaluation}

abbrev pub has_id : ℕ → Evaluation → Bool
has_id i e = e.evaluation_id == i

-- The number of rows before the first one with the identifier.
abbrev pub position : ℕ → List Evaluation → ℕ
position i [] = 0
position i (e ∷ es) = let rest = position i es in if has_id i e then 0 else suc rest

pub position-le : (i : ℕ) (es : List Evaluation) → position i es ≤ length es
position-le i [] = omega arith
position-le i (e ∷ es) = ground (arith, position-le i es)

-- What stands before something is there.
pub position-present :
    (i j : ℕ) (es : List Evaluation) → position i es < position j es → any (has_id i) es ≡ true
position-present i j [] h = absurd (omega arith)
position-present i j (e ∷ es) h = elim (Bool-cases (has_id i e)) [
  | inl k ↦ rw k refl
  | inr k ↦ rw k (position-present i j es (ground arith))
]

pub position-kept :
    (i : ℕ) (es more : List Evaluation)
    → any (has_id i) es ≡ true
    → position i (es ++ more) ≡ position i es
position-kept i [] more h = absurd (ground arith)
position-kept i (e ∷ es) more h = elim (Bool-cases (has_id i e)) [
  | inl k ↦ rw k refl
  | inr k ↦ rw (k, position-kept i es more (ground arith))
]

pub position-grows : (i : ℕ) (es more : List Evaluation) → position i es ≤ position i (es ++ more)
position-grows i [] more = omega arith
position-grows i (e ∷ es) more = ground (arith, position-grows i es more)

pub position-absent :
    (i : ℕ) (es : List Evaluation) → any (has_id i) es ≡ false → position i es ≡ length es
position-absent i [] h = refl
position-absent i (e ∷ es) h = elim (Bool-cases (has_id i e)) [
  | inl k ↦ absurd (ground arith)
  | inr k ↦ rw (k, position-absent i es (ground arith))
]

-- What is there stands before the end.
pub present-position :
    (i : ℕ) (es : List Evaluation) → any (has_id i) es ≡ true → position i es < length es
present-position i [] h = absurd (ground arith)
present-position i (e ∷ es) h = elim (Bool-cases (has_id i e)) [
  | inl k ↦ rw k (omega arith)
  | inr k ↦ rw k (let rest = present-position i es (ground arith) in omega arith)
]

-- A deletion of other evaluations keeps the order of two.
pub position-select :
    (own : ℕ → Bool) (i j : ℕ) (es : List Evaluation)
    → own i ≡ false
    → own j ≡ false
    → position i es < position j es
    → position i (select (λ e. not (own e.evaluation_id)) es)
      < position j (select (λ e. not (own e.evaluation_id)) es)
position-select own i j [] h k before = before
position-select own i j (e ∷ es) h k before = elim (Bool-cases (has_id i e)) [
  | inl same_i ↦
      let is_i : e.evaluation_id ≡ i = (==_iff e.evaluation_id i).0 same_i in
      let stays : own e.evaluation_id ≡ false = rw is_i h in
      let other : has_id j e ≡ false = elim (Bool-cases (has_id j e)) [
        | inl same_j ↦ absurd (ground arith)
        | inr not_j ↦ not_j
      ] in
      rw (stays, same_i, other) (omega arith)
  | inr not_i ↦ elim (Bool-cases (has_id j e)) [
    | inl same_j ↦ absurd (ground arith)
    | inr not_j ↦
        let rest = position-select own i j es h k (ground arith) in
        elim (Bool-cases (own e.evaluation_id)) [
          | inl gone ↦ rw gone rest
          | inr stays ↦ rw (stays, not_i, not_j) (omega (arith, rest))
        ]
  ]
]
