-- ===== src/Queue/Chains.antt =====
-- Refresh links: the contract of an evaluation stands on one link at most.
use agent_data_oracle.Base.{
  ℕ, ◌≤◌, ◌≡◌, refl, Bool, true, ◌&&◌, ◌||◌, not, ◌==◌, any, length, List, [], ◌∷◌, arith, err,
  one_or_none, select, map, flat_map, All, All-imp, All-select, All-true, length-append,
}
use agent_data_oracle.Queue.{Queue, Evaluation, Refresh, multiple_results}
use agent_data_oracle.Queue.Reads.{
  contract_from_evaluation, refreshes_of, touches, joined_ends, between,
}

-- A refresh of the evaluation by another one, and the other way round.
abbrev pub refreshed_by_another : ℕ → Refresh → Bool
refreshed_by_another i r = r.predecessor_id == i && not (r.successor_id == i)

abbrev pub refreshes_another : ℕ → Refresh → Bool
refreshes_another i r = r.successor_id == i && not (r.predecessor_id == i)

some-selected :
    (i : ℕ) (rs : List Refresh)
    → (any (refreshed_by_another i) rs || any (refreshes_another i) rs) ≡ true
    → 1 ≤ length (select (touches i) rs)
some-selected i [] h = absurd (cc)
some-selected i (r ∷ rs) h = ground (arith, some-selected i rs)

two-selected :
    (i : ℕ) (rs : List Refresh)
    → any (refreshed_by_another i) rs ≡ true
    → any (refreshes_another i) rs ≡ true
    → 2 ≤ length (select (touches i) rs)
two-selected i [] h k = absurd (cc)
two-selected i (r ∷ rs) h k = ground (arith, two-selected i rs, some-selected i rs)

-- Both evaluations of a link are there, as its foreign keys demand.
abbrev pub HasEnds : Queue → Refresh → Type 0
HasEnds s r =
    (any (λ (e : Evaluation). e.evaluation_id == r.predecessor_id) s.evaluations ≡ true)
    × (any (λ (e : Evaluation). e.evaluation_id == r.successor_id) s.evaluations ≡ true)

some-select : {A : Type 0} (p : A → Bool) (xs : List A) → any p xs ≡ true → 1 ≤ length (select p xs)
some-select p [] h = absurd (cc)
some-select p (x ∷ xs) h = ground (arith, some-select p xs)

length-map : {A B : Type 0} (f : A → B) (xs : List A) → length (map f xs) ≡ length xs
length-map f [] = refl
length-map f (x ∷ xs) = omega (arith, length-map f xs)

length-flat_map :
    {A B : Type 0} (f : A → List B) (xs : List A)
    → All (λ x. 1 ≤ length (f x)) xs
    → length xs ≤ length (flat_map f xs)
length-flat_map f [] h = omega arith
length-flat_map f (x ∷ xs) h =
    omega (arith, h.0, length-flat_map f xs h.1, length-append (f x) (flat_map f xs))

joined-some : (s : Queue) (r : Refresh) → HasEnds s r → 1 ≤ length (joined_ends s r)
joined-some s r ends =
    let ps = select (λ (e : Evaluation). e.evaluation_id == r.predecessor_id) s.evaluations in
    let qs = select (λ (e : Evaluation). e.evaluation_id == r.successor_id) s.evaluations in
    let from' : 1 ≤ length ps = some-select _ s.evaluations ends.0 in
    let to : 1 ≤ length qs = some-select _ s.evaluations ends.1 in
    let each =
      length-flat_map (λ (p : Evaluation). map (between r p) qs) ps
        (All-true (λ p. rw length-map to) ps) in
    omega (arith, from', each)

two-joined :
    (i : ℕ) (s : Queue)
    → All (HasEnds s) s.refreshes
    → any (refreshed_by_another i) s.refreshes ≡ true
    → any (refreshes_another i) s.refreshes ≡ true
    → 2 ≤ length (refreshes_of i s)
unfolding refreshes_of
two-joined i s ends h k =
    let rs = select (touches i) s.refreshes in
    let joined = length-flat_map (joined_ends s) rs (
      All-imp _ _ rs (λ r x. joined-some s r x.0)
        (All-select (HasEnds s) (touches i) s.refreshes ends)) in
    omega (arith, two-selected i s.refreshes h k, joined)

one_or_none-two : {E A : Type 0} (e : E) (xs : List A) → 2 ≤ length xs → one_or_none e xs ≡ err e
one_or_none-two e [] h = absurd (omega arith)
one_or_none-two e (x ∷ []) h = absurd (omega arith)
one_or_none-two e (x ∷ y ∷ xs) h = refl

-- Where the evaluations of all links are there, as the foreign keys demand: an evaluation that
-- another one refreshes, and that refreshes another one itself, has no contract, since the query for
-- its link finds two rows and raises.
pub middle_of_chain_raises :
    (s : Queue) (e : Evaluation)
    → All (HasEnds s) s.refreshes
    → any (refreshed_by_another e.evaluation_id) s.refreshes ≡ true
    → any (refreshes_another e.evaluation_id) s.refreshes ≡ true
    → contract_from_evaluation s e ≡ err multiple_results
unfolding contract_from_evaluation
middle_of_chain_raises s e ends by_another another = rw (
    one_or_none-two multiple_results (refreshes_of e.evaluation_id s)
      (two-joined e.evaluation_id s ends by_another another))
