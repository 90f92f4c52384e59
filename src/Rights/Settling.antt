-- ===== src/Rights/Settling.antt =====
-- What one run of the cleanup does for each deletion that is pending.
use agent_data_oracle.Base.{
  ℕ, ◌≡◌, refl, ◌∙◌, Bool, true, false, not, ◌&&◌, ◌==◌, ◌+◌, leb, List, [], ◌∷◌, select, All-imp,
  arith, Bool-cases, inl, inr, ◌⊎◌, All, All-sort_by, In, In-sort_by,
}
use agent_data_oracle.Access.{OperatorRow}
use agent_data_oracle.Rights.{
  RightsTables, DeletionWork, has_active_hold, operator_exists, founder_test_retention,
}
use agent_data_oracle.Rights.Cleanup.{
  expired_operators, erase_operator, settle_works, erase_expired, pending_works, expire_attempts,
  expire_refresh_history, cleanup,
}
use agent_data_oracle.Rights.Erasing.{
  Kept, Kept-trans, Kept-beside, Gone, Gone-beside, erase_operator-pause, erase_operator-stays-Gone,
}
use agent_data_oracle.Rights.Loops.{
  Held, IsDue, Held-trans, same-Held, settle_works-Held, settle_works-Gone, settle_works-overdue,
  other-than-held, erase_operator-Held,
}

erase_expired-Held :
    (now i : ℕ) (os : List OperatorRow) (s : RightsTables)
    → has_active_hold i s ≡ true
    → All (λ o. (i == o.operator_id) ≡ false) os
    → Held i s (erase_expired now os s).1
unfolding erase_expired
erase_expired-Held now i [] s h a = same-Held i s h
erase_expired-Held now i (o ∷ os) s h a =
    let first = erase_operator-Held now i o.operator_id s h a.0 in
    Held-trans i s _ _ first
      (erase_expired-Held now i os (erase_operator o.operator_id now s).1 first.held a.1)

erase_expired-Gone :
    (now i : ℕ) (os : List OperatorRow) (s : RightsTables)
    → Gone i s
    → Gone i (erase_expired now os s).1
unfolding erase_expired
erase_expired-Gone now i [] s g = g
erase_expired-Gone now i (o ∷ os) s g =
    erase_expired-Gone now i os (erase_operator o.operator_id now s).1
      (erase_operator-stays-Gone now i o.operator_id s g)

erase_expired-pause :
    (now : ℕ) (os : List OperatorRow) (s : RightsTables)
    → (erase_expired now os s).1.queue.pause.is_paused ≡ s.queue.pause.is_paused
unfolding erase_expired
erase_expired-pause now [] s = refl
erase_expired-pause now (o ∷ os) s =
    erase_expired-pause now os (erase_operator o.operator_id now s).1
    ∙ erase_operator-pause now o.operator_id s

selected-pass : {A : Type 0} (p : A → Bool) (xs : List A) → All (λ x. p x ≡ true) (select p xs)
selected-pass p [] = tt
selected-pass p (x ∷ xs) = elim (Bool-cases (p x)) [
  | inl e ↦ rw e (e, selected-pass p xs)
  | inr e ↦ rw e (selected-pass p xs)
]

-- The test of the query for expired operators.
abbrev is_expired : ℕ → RightsTables → OperatorRow → Bool
is_expired now s o =
    leb (o.created_at + founder_test_retention) now && not (has_active_hold o.operator_id s)

-- No operator of the list is held.
expired_operators-free :
    (now i : ℕ) (s : RightsTables)
    → has_active_hold i s ≡ true
    → All (λ (o : OperatorRow). (i == o.operator_id) ≡ false) (expired_operators now s)
unfolding expired_operators
expired_operators-free now i s h =
    All-sort_by (λ (o : OperatorRow). (i == o.operator_id) ≡ false)
      (λ o p. leb o.created_at p.created_at) (select (is_expired now s) s.access.operators)
      (All-imp (λ o. is_expired now s o ≡ true) (λ (o : OperatorRow). (i == o.operator_id) ≡ false)
        (select (is_expired now s) s.access.operators)
        (λ o e. other-than-held i o.operator_id s h (ground arith))
        (selected-pass (is_expired now s) s.access.operators))

attempts-hold :
    (now i : ℕ) (s : RightsTables) → has_active_hold i (expire_attempts now s) ≡ has_active_hold i s
unfolding expire_attempts has_active_hold
attempts-hold now i s = refl

attempts-exists :
    (now i : ℕ) (s : RightsTables) → operator_exists i (expire_attempts now s) ≡ operator_exists i s
unfolding expire_attempts operator_exists
attempts-exists now i s = refl

attempts-Kept : (now i : ℕ) (s : RightsTables) → Kept i s (expire_attempts now s)
unfolding expire_attempts
attempts-Kept now i s = Kept-beside i s (expire_attempts now s)

attempts-In :
    (now : ℕ) (s : RightsTables) (w : DeletionWork)
    → In w s.works
    → In w (pending_works (expire_attempts now s))
unfolding expire_attempts
attempts-In now s w listed = In-sort_by (λ v w. leb v.requested_at w.requested_at) w s.works listed

history-Kept : (now i : ℕ) (s : RightsTables) → Kept i s (expire_refresh_history now s)
unfolding expire_refresh_history
history-Kept now i s = Kept-beside i s (expire_refresh_history now s)

history-Gone : (now i : ℕ) (s : RightsTables) → Gone i s → Gone i (expire_refresh_history now s)
unfolding expire_refresh_history
history-Gone now i s g = Gone-beside i s (expire_refresh_history now s) g

history-pause :
    (now : ℕ) (s : RightsTables)
    → (expire_refresh_history now s).queue.pause.is_paused ≡ s.queue.pause.is_paused
unfolding expire_refresh_history
history-pause now s = refl

-- One run of the cleanup settles each pending deletion of an operator who exists. Without an active
-- hold, no row of the operator is left in the tables that name their operator; with one, the rows of
-- the account, the sessions, keys, acknowledgements, reports, deletion works and holds are as they
-- were, and work is paused if the deletion is overdue.
pub cleanup_settles :
    (now : ℕ) (s : RightsTables) (w : DeletionWork)
    → In w s.works
    → operator_exists w.operator_id s ≡ true
    → ((has_active_hold w.operator_id s ≡ false) × Gone w.operator_id (cleanup now s).1)
      ⊎ ((has_active_hold w.operator_id s ≡ true)
          × Kept w.operator_id s (cleanup now s).1
          × ((leb w.due_at now ≡ false) ⊎ ((cleanup now s).1.queue.pause.is_paused ≡ true)))
unfolding cleanup
cleanup_settles now s w listed there =
    let i = w.operator_id in
    let t = expire_attempts now s in
    let ws = pending_works t in
    let os = expired_operators now t in
    let u = (settle_works now ws t).1 in
    let v = (erase_expired now os u).1 in
    let pending = attempts-In now s w listed in
    elim (Bool-cases (has_active_hold i s)) [
      | inl h ↦
          let held = attempts-hold now i s ∙ h in
          let first = settle_works-Held now i ws t held in
          let second =
            erase_expired-Held now i os u first.held (expired_operators-free now i t held) in
          inr (
            h,
            Kept-trans i s t _ (attempts-Kept now i s)
                (Kept-trans i t v _ (Held-trans i t u v first second).kept (history-Kept now i v)),
            elim (Bool-cases (leb w.due_at now)) [
              | inl d ↦ inr (
                  history-pause now v
                  ∙ erase_expired-pause now os u
                  ∙ settle_works-overdue now w ws t pending held d)
              | inr d ↦ inl d
            ],
          )
      | inr h ↦
          let due : IsDue i t = record {
            free = attempts-hold now i s ∙ h;
            there = attempts-exists now i s ∙ there;
          } in
          inl (
            h,
            history-Gone now i v
                (erase_expired-Gone now i os u (settle_works-Gone now w ws t pending due)),
          )
    ]
