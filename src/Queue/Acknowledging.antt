-- ===== src/Queue/Acknowledging.antt =====
-- Human acknowledgements: each new one supersedes the current one, so that one is current at most.
use agent_data_oracle.Base.{
  ℕ, ◌≤◌, ◌≡◌, refl, sym, ap, ◌∙◌, Bool, true, false, not, ◌&&◌, ◌==◌, ==_refl, List, [], ◌∷◌, ◌++◌,
  arith, any, any-append, select, select-append, length, length-append, length-select-le, first,
  map, Bool-cases, inl, inr,
}
use agent_data_oracle.Queue.{Queue, ReviewOutcome, Acknowledgement, released_to}
use agent_data_oracle.Queue.Reviews.{
  record_human_acknowledgement, current_acknowledgements, acknowledges, is_current, supersedes_it,
}
use agent_data_oracle.Queue.Deciding.{select-select}

select_cong :
    {A : Type 0} (p q : A → Bool) (xs : List A) → ((x : A) → p x ≡ q x) → select p xs ≡ select q xs
select_cong p q [] h = refl
select_cong p q (x ∷ xs) h = ground (arith, h x, select_cong p q xs h)

-- What is left current of the old acknowledgements after a new one.
kept : ℕ → ℕ → Acknowledgement → List Acknowledgement → List Acknowledgement
unfolding current_acknowledgements
kept operator i new acks =
    select (λ a. not (supersedes_it a.acknowledgement_id new))
      (current_acknowledgements operator i acks)

is_current-append :
    (acks : List Acknowledgement) (new a : Acknowledgement)
    → is_current (acks ++ new ∷ []) a
      ≡ (is_current acks a && not (supersedes_it a.acknowledgement_id new))
is_current-append acks new a = rw any-append (ground arith)

current-append :
    (operator i : ℕ) (acks : List Acknowledgement) (new : Acknowledgement)
    → select (λ a. acknowledges operator i a && is_current (acks ++ new ∷ []) a) acks
      ≡ kept operator i new acks
unfolding kept current_acknowledgements
current-append operator i acks new =
    let fresh_test = λ (a : Acknowledgement). not (supersedes_it a.acknowledgement_id new) in
    let old_test = λ (a : Acknowledgement). acknowledges operator i a && is_current acks a in
    select_cong _ (λ a. old_test a && fresh_test a) acks (λ a. rw is_current-append (ground arith))
    ∙ select-select old_test fresh_test acks

-- One acknowledgement at most is current, for every operator and evaluation.
abbrev pub OneIsCurrent : List Acknowledgement → Type 0
OneIsCurrent acks = (operator i : ℕ) → length (current_acknowledgements operator i acks) ≤ 1

abbrev id_of : Acknowledgement → ℕ
id_of a = a.acknowledgement_id

-- An identifier that no stored acknowledgement has or supersedes.
abbrev pub IsFresh : ℕ → List Acknowledgement → Type 0
IsFresh n acks =
    (any (λ a. a.acknowledgement_id == n) acks ≡ false) × (any (supersedes_it n) acks ≡ false)

any-select :
    {A : Type 0} (p q : A → Bool) (xs : List A) → any p xs ≡ false → any p (select q xs) ≡ false
any-select p q [] h = refl
any-select p q (x ∷ xs) h = ground (arith, any-select p q xs)

current-split :
    (operator i : ℕ) (acks : List Acknowledgement) (new : Acknowledgement)
    → current_acknowledgements operator i (acks ++ new ∷ [])
      ≡ kept operator i new acks
        ++ select (λ a. acknowledges operator i a && is_current (acks ++ new ∷ []) a) (new ∷ [])
unfolding current_acknowledgements
current-split operator i acks new =
    select-append (λ a. acknowledges operator i a && is_current (acks ++ new ∷ []) a) acks
      (new ∷ [])
    ∙ ap
        (λ front.
          front
          ++ select (λ a. acknowledges operator i a && is_current (acks ++ new ∷ []) a) (new ∷ []))
        (current-append operator i acks new)

-- The new acknowledgement is not superseded, and supersedes what was current.
new-replaces :
    (current : List Acknowledgement) (acks : List Acknowledgement) (new : Acknowledgement)
    → length current ≤ 1
    → any (λ a. a.acknowledgement_id == new.acknowledgement_id) current ≡ false
    → any (supersedes_it new.acknowledgement_id) acks ≡ false
    → new.supersedes ≡ first (map id_of current)
    → (select (λ a. not (supersedes_it a.acknowledgement_id new)) current ≡ [])
      × (is_current (acks ++ new ∷ []) new ≡ true)
new-replaces [] acks new one other unnamed h = (refl, rw (any-append, unnamed, h))
new-replaces (c ∷ []) acks new one other unnamed h =
    (rw (h, ==_refl), rw (any-append, unnamed, h) (ground arith))
new-replaces (c ∷ d ∷ current) acks new one other unnamed h = absurd (omega arith)

others-bounded :
    (operator i : ℕ) (acks : List Acknowledgement) (new : Acknowledgement)
    → acknowledges operator i new ≡ false
    → length (current_acknowledgements operator i acks) ≤ 1
    → length (current_acknowledgements operator i (acks ++ new ∷ [])) ≤ 1
unfolding kept
others-bounded operator i acks new other one =
    let fewer =
      length-select-le (λ a. not (supersedes_it a.acknowledgement_id new))
        (current_acknowledgements operator i acks) in
    rw (current-split, other, length-append) (omega (arith, fewer, one))

unused_current :
    (operator i n : ℕ) (acks : List Acknowledgement)
    → any (λ a. a.acknowledgement_id == n) acks ≡ false
    → any (λ a. a.acknowledgement_id == n) (current_acknowledgements operator i acks) ≡ false
unfolding current_acknowledgements
unused_current operator i n acks unused =
    any-select (λ a. a.acknowledgement_id == n)
      (λ a. acknowledges operator i a && is_current acks a) acks unused

-- The new acknowledgement alone is current.
only-current :
    (acks : List Acknowledgement) (new : Acknowledgement)
    → new.supersedes
      ≡ first (map id_of (current_acknowledgements new.operator_id new.evaluation_id acks))
    → IsFresh new.acknowledgement_id acks
    → length (current_acknowledgements new.operator_id new.evaluation_id acks) ≤ 1
    → current_acknowledgements new.operator_id new.evaluation_id (acks ++ new ∷ []) ≡ new ∷ []
unfolding kept
only-current acks new h (unused, unnamed) one =
    let operator = new.operator_id in
    let i = new.evaluation_id in
    let (nothing, is_new) =
      new-replaces (current_acknowledgements operator i acks) acks new one
        (unused_current operator i new.acknowledgement_id acks unused) unnamed h in
    rw (current-split, nothing, is_new, ==_refl i, ==_refl operator)

all-bounded :
    (acks : List Acknowledgement) (new : Acknowledgement)
    → current_acknowledgements new.operator_id new.evaluation_id (acks ++ new ∷ []) ≡ new ∷ []
    → OneIsCurrent acks
    → OneIsCurrent (acks ++ new ∷ [])
all-bounded acks new only one operator i = elim (Bool-cases (acknowledges operator i new)) [
  | inr other ↦ others-bounded operator i acks new other (one operator i)
  | inl same ↦
      let same_i : new.evaluation_id ≡ i = ground arith in
      let same_operator : new.operator_id ≡ operator = ground arith in
      rw (sym same_i, sym same_operator, only) (omega arith)
]

-- With at most one current acknowledgement everywhere, an acknowledgement of a released evaluation
-- under a fresh identifier becomes the only current one of its operator and evaluation, supersedes
-- the one that was current, and leaves at most one current everywhere.
pub acknowledgement_replaces :
    (operator i : ℕ) (outcome : ReviewOutcome) (now n : ℕ) (s : Queue)
    → any (released_to s operator i) s.evaluations ≡ true
    → IsFresh n s.acknowledgements
    → OneIsCurrent s.acknowledgements
    → (new : Acknowledgement) × (new.outcome ≡ outcome)
      × (new.supersedes
          ≡ first (
              map
                (λ a. a.acknowledgement_id)
                (current_acknowledgements operator i s.acknowledgements)))
      × (current_acknowledgements operator i
            (record_human_acknowledgement operator i outcome now n s).1.acknowledgements
          ≡ new ∷ [])
      × OneIsCurrent (record_human_acknowledgement operator i outcome now n s).1.acknowledgements
unfolding record_human_acknowledgement
acknowledgement_replaces operator i outcome now n s released (unused, unnamed) one =
    let new : Acknowledgement = record {
      acknowledgement_id = n;
      evaluation_id = i;
      operator_id = operator;
      outcome = outcome;
      supersedes = first (map id_of (current_acknowledgements operator i s.acknowledgements));
      acknowledged_at = now;
    } in
    let only = only-current s.acknowledgements new refl (unused, unnamed) (one operator i) in
    (new, refl, refl, rw released only, rw released (all-bounded s.acknowledgements new only one))
