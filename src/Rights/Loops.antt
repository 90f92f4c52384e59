-- ===== src/Rights/Loops.antt =====
-- The loop over the pending deletions: what each step does for held and for due operators.
use agent_data_oracle.Base.{
  ℕ, ◌≡◌, refl, ◌∙◌, sym, subst, Bool, true, false, ◌==◌, if◌then◌else◌, leb, List, [], ◌∷◌,
  Bool-cases, inl, inr, ◌⊎◌, ==_iff, In,
}
use agent_data_oracle.Rights.{
  RightsTables, DeletionWork, has_active_hold, operator_exists, pause_for_overdue_deletion,
  overdue_pause,
}
use agent_data_oracle.Rights.Cleanup.{erase_operator, settle_work, settle_works}
use agent_data_oracle.Rights.Erasing.{
  Kept, Kept-trans, Kept-beside, beside, Gone, Gone-beside, erase_operator-Kept,
  erase_operator-hold, erase_operator-exists, erase_operator-pause, erase_operator-Gone,
  erase_operator-stays-Gone,
}

-- A held operator's rows are as they were, and the operator is still held.
pub record Held (i : ℕ) (s t : RightsTables) : Type 0 where
  pub kept : Kept i s t
  pub held : has_active_hold i t ≡ true

-- A deletion that nothing stands against.
pub record IsDue (i : ℕ) (s : RightsTables) : Type 0 where
  pub free : has_active_hold i s ≡ false
  pub there : operator_exists i s ≡ true

pub other-than-held :
    (i j : ℕ) (s : RightsTables)
    → has_active_hold i s ≡ true
    → has_active_hold j s ≡ false
    → (i == j) ≡ false
other-than-held i j s h k = elim (Bool-cases (i == j)) [
  | inl e ↦ let same : i ≡ j = (==_iff i j).0 e in cc
  | inr e ↦ e
]

pub Held-trans : (i : ℕ) (s t u : RightsTables) → Held i s t → Held i t u → Held i s u
Held-trans i s t u a b = record { kept = Kept-trans i s t u a.kept b.kept; held = b.held }

pub erase_operator-Held :
    (now i j : ℕ) (s : RightsTables)
    → has_active_hold i s ≡ true
    → (i == j) ≡ false
    → Held i s (erase_operator j now s).1
erase_operator-Held now i j s h e = record {
  kept = erase_operator-Kept now i j s e;
  held = erase_operator-hold now i j s e ∙ h;
}

-- What the tests beside the operators' rows do not read.
beside-Held : (i : ℕ) (s u : RightsTables) → has_active_hold i s ≡ true → Held i s (beside s u)
unfolding has_active_hold
beside-Held i s u h = record { kept = Kept-beside i s u; held = h }

beside-IsDue : (i : ℕ) (s u : RightsTables) → IsDue i s → IsDue i (beside s u)
unfolding has_active_hold operator_exists
beside-IsDue i s u d = record { free = d.free; there = d.there }

pub same-Held : (i : ℕ) (s : RightsTables) → has_active_hold i s ≡ true → Held i s s
same-Held i s h = beside-Held i s s h

if-cases :
    {A : Type 0} (b : Bool) (x y : A) (P : A → Type 0)
    → (b ≡ true → P x)
    → (b ≡ false → P y)
    → P (if b then x else y)
if-cases true x y P h k = h refl
if-cases false x y P h k = k refl

pub pause-cases :
    (now : ℕ) (s : RightsTables) (P : RightsTables → Type 0)
    → (s.queue.pause.is_paused ≡ true → P s)
    → P (overdue_pause now s)
    → P (pause_for_overdue_deletion now s)
unfolding pause_for_overdue_deletion
pause-cases now s P stays pauses =
    if-cases s.queue.pause.is_paused s (overdue_pause now s) P stays (λ e. pauses)

pause-is_paused :
    (now : ℕ) (s : RightsTables) → (pause_for_overdue_deletion now s).queue.pause.is_paused ≡ true
pause-is_paused now s = pause-cases now s (λ t. t.queue.pause.is_paused ≡ true) (λ e. e) refl

pub settle_work-cases :
    (now : ℕ) (w : DeletionWork) (s : RightsTables) (P : RightsTables → Type 0)
    → (has_active_hold w.operator_id s ≡ true → leb w.due_at now ≡ false → P s)
    → (has_active_hold w.operator_id s ≡ true
        → leb w.due_at now ≡ true
        → P (pause_for_overdue_deletion now s))
    → (has_active_hold w.operator_id s ≡ false → P (erase_operator w.operator_id now s).1)
    → P (settle_work now w s).1
unfolding settle_work
settle_work-cases now w s P stays pauses erases =
    elim (Bool-cases (has_active_hold w.operator_id s)) [
      | inl h ↦ elim (Bool-cases (leb w.due_at now)) [
        | inl d ↦ rw (h, d) (pauses h d)
        | inr d ↦ rw (h, d) (stays h d)
      ]
      | inr h ↦ rw h (erases h)
    ]

settle_work-Held :
    (now i : ℕ) (w : DeletionWork) (s : RightsTables)
    → has_active_hold i s ≡ true
    → Held i s (settle_work now w s).1
settle_work-Held now i w s h =
    settle_work-cases now w s (Held i s) (λ k d. same-Held i s h)
      (λ k d.
        pause-cases now s (Held i s) (λ e. same-Held i s h)
          (beside-Held i s (overdue_pause now s) h))
      (λ k. erase_operator-Held now i w.operator_id s h (other-than-held i w.operator_id s h k))

settle_work-Gone :
    (now i : ℕ) (w : DeletionWork) (s : RightsTables) → Gone i s → Gone i (settle_work now w s).1
settle_work-Gone now i w s g =
    settle_work-cases now w s (Gone i) (λ k d. g)
      (λ k d. pause-cases now s (Gone i) (λ e. g) (Gone-beside i s (overdue_pause now s) g))
      (λ k. erase_operator-stays-Gone now i w.operator_id s g)

settle_work-pause :
    (now : ℕ) (w : DeletionWork) (s : RightsTables)
    → s.queue.pause.is_paused ≡ true
    → (settle_work now w s).1.queue.pause.is_paused ≡ true
settle_work-pause now w s h =
    settle_work-cases now w s (λ t. t.queue.pause.is_paused ≡ true) (λ k d. h)
      (λ k d. pause-is_paused now s) (λ k. erase_operator-pause now w.operator_id s ∙ h)

-- A work of another operator leaves a due deletion due; one of the same settles it.
settle_work-IsDue :
    (now i : ℕ) (w : DeletionWork) (s : RightsTables)
    → IsDue i s
    → Gone i (settle_work now w s).1 ⊎ IsDue i (settle_work now w s).1
settle_work-IsDue now i w s d =
    settle_work-cases now w s (λ t. Gone i t ⊎ IsDue i t) (λ k e. inr d)
      (λ k e. inr (pause-cases now s (IsDue i) (λ e. d) (beside-IsDue i s (overdue_pause now s) d)))
      (λ k. elim (Bool-cases (i == w.operator_id)) [
        | inl e ↦
            let same : i ≡ w.operator_id = (==_iff i w.operator_id).0 e in
            inl (
              subst (λ j. Gone i (erase_operator j now s).1) same
                (erase_operator-Gone now i s d.there))
        | inr e ↦ inr (record {
          free = erase_operator-hold now i w.operator_id s e ∙ d.free;
          there = erase_operator-exists now i w.operator_id s e ∙ d.there;
        })
      ])

pub settle_works-Held :
    (now i : ℕ) (ws : List DeletionWork) (s : RightsTables)
    → has_active_hold i s ≡ true
    → Held i s (settle_works now ws s).1
unfolding settle_works
settle_works-Held now i [] s h = same-Held i s h
settle_works-Held now i (w ∷ ws) s h =
    let first = settle_work-Held now i w s h in
    Held-trans i s _ _ first (settle_works-Held now i ws (settle_work now w s).1 first.held)

pub settle_works-stays-Gone :
    (now i : ℕ) (ws : List DeletionWork) (s : RightsTables)
    → Gone i s
    → Gone i (settle_works now ws s).1
unfolding settle_works
settle_works-stays-Gone now i [] s g = g
settle_works-stays-Gone now i (w ∷ ws) s g =
    settle_works-stays-Gone now i ws (settle_work now w s).1 (settle_work-Gone now i w s g)

settle_works-pause :
    (now : ℕ) (ws : List DeletionWork) (s : RightsTables)
    → s.queue.pause.is_paused ≡ true
    → (settle_works now ws s).1.queue.pause.is_paused ≡ true
unfolding settle_works
settle_works-pause now [] s h = h
settle_works-pause now (w ∷ ws) s h =
    settle_works-pause now ws (settle_work now w s).1 (settle_work-pause now w s h)

-- The work of a due deletion erases its operator, if none before has.
settle_own-Gone :
    (now : ℕ) (w : DeletionWork) (s : RightsTables)
    → IsDue w.operator_id s
    → Gone w.operator_id (settle_work now w s).1
settle_own-Gone now w s d =
    let free = d.free in
    settle_work-cases now w s (Gone w.operator_id) (λ k e. cc) (λ k e. cc)
      (λ k. erase_operator-Gone now w.operator_id s d.there)

pub settle_works-Gone :
    (now : ℕ) (w : DeletionWork) (ws : List DeletionWork) (s : RightsTables)
    → In w ws
    → IsDue w.operator_id s
    → Gone w.operator_id (settle_works now ws s).1
unfolding settle_works
settle_works-Gone now w [] s i d = elim i [ ]
settle_works-Gone now w (v ∷ ws) s (inl e) d =
    settle_works-stays-Gone now w.operator_id ws (settle_work now v s).1
      (subst (λ x. Gone w.operator_id (settle_work now x s).1) (sym e) (settle_own-Gone now w s d))
settle_works-Gone now w (v ∷ ws) s (inr i) d = elim (settle_work-IsDue now w.operator_id v s d) [
  | inl g ↦ settle_works-stays-Gone now w.operator_id ws (settle_work now v s).1 g
  | inr d' ↦ settle_works-Gone now w ws (settle_work now v s).1 i d'
]

-- A held work that is overdue pauses.
settle_overdue :
    (now : ℕ) (w : DeletionWork) (s : RightsTables)
    → has_active_hold w.operator_id s ≡ true
    → leb w.due_at now ≡ true
    → (settle_work now w s).1.queue.pause.is_paused ≡ true
settle_overdue now w s h d =
    settle_work-cases now w s (λ t. t.queue.pause.is_paused ≡ true) (λ k e. cc)
      (λ k e. pause-is_paused now s) (λ k. cc)

pub settle_works-overdue :
    (now : ℕ) (w : DeletionWork) (ws : List DeletionWork) (s : RightsTables)
    → In w ws
    → has_active_hold w.operator_id s ≡ true
    → leb w.due_at now ≡ true
    → (settle_works now ws s).1.queue.pause.is_paused ≡ true
unfolding settle_works
settle_works-overdue now w [] s i h d = elim i [ ]
settle_works-overdue now w (v ∷ ws) s (inl e) h d =
    settle_works-pause now ws (settle_work now v s).1 (
      subst (λ x. (settle_work now x s).1.queue.pause.is_paused ≡ true) (sym e)
        (settle_overdue now w s h d))
settle_works-overdue now w (v ∷ ws) s (inr i) h d =
    let first = settle_work-Held now w.operator_id v s h in
    settle_works-overdue now w ws (settle_work now v s).1 i first.held d
