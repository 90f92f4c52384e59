-- ===== src/Regex/Laws.antt =====
-- `fullmatch` decides the language of its pattern.
use agent_data_oracle.Base.{
  ℕ, Text, ◌≡◌, refl, sym, ◌∙◌, ap, ◌↔◌, ◌⊎◌, inl, inr, Bool, true, [], ◌∷◌, ◌++◌, arith,
  Bool-cases, subst,
}
use agent_data_oracle.Regex.{
  Pattern, never, empty, class, seq, alt, star, nullable, derive, fullmatch, Matches, left, right,
  stop, more,
}

nullable_sound : (r : Pattern) → nullable r ≡ true → Matches r []
unfolding nullable
nullable_sound never h = cc
nullable_sound empty h = Matches.empty
nullable_sound (class p) h = cc
nullable_sound (seq r s) h =
    Matches.seq (nullable_sound r (ground arith)) (nullable_sound s (ground arith)) refl
nullable_sound (alt r s) h = elim (Bool-cases (nullable r)) [
  | inl e ↦ left (nullable_sound r e)
  | inr e ↦ right (nullable_sound s (ground arith))
]
nullable_sound (star r) h = stop

append-eq-nil : (a b : Text) → [] ≡ a ++ b → (a ≡ []) × (b ≡ [])
append-eq-nil [] b e = (refl, sym e)
append-eq-nil (c ∷ a) b e = cc

nullable_complete : {r : Pattern} {t : Text} → Matches r t → t ≡ [] → nullable r ≡ true
unfolding nullable
nullable_complete Matches.empty e = refl
nullable_complete (Matches.class p q) e = cc
nullable_complete (Matches.seq {a} {b} m n q) e =
    let (x, y) = append-eq-nil a b (sym e ∙ q) in
    ground (arith, nullable_complete m x, nullable_complete n y)
nullable_complete (left m) e = ground (arith, nullable_complete m e)
nullable_complete (right m) e = ground (arith, nullable_complete m e)
nullable_complete stop e = refl
nullable_complete (more m n q) e = refl

alt-inv : {r s : Pattern} {t : Text} → Matches (alt r s) t → Matches r t ⊎ Matches s t
alt-inv (left m) = inl m
alt-inv (right m) = inr m

seq-inv :
    {r s : Pattern} {t : Text}
    → Matches (seq r s) t
    → (a : Text) × (b : Text) × Matches r a × Matches s b × (t ≡ a ++ b)
seq-inv (Matches.seq {a} {b} m n q) = (a, b, m, n, q)

class-inv : {p : ℕ → Bool} {t : Text} → Matches (class p) t → (c : ℕ) × (p c ≡ true) × (t ≡ c ∷ [])
class-inv (Matches.class {c} h q) = (c, h, q)

never-inv : {t : Text} → Matches never t → ⊥
never-inv m = elim m [ ]

empty-inv : {t : Text} → Matches empty t → t ≡ []
empty-inv Matches.empty = refl

-- A match of the derivative is a match of the pattern with the code point in front.
derive_sound : (c : ℕ) (r : Pattern) (t : Text) → Matches (derive c r) t → Matches r (c ∷ t)
unfolding derive
derive_sound c never t m = absurd (never-inv m)
derive_sound c empty t m = absurd (never-inv m)
derive_sound c (class p) t m = elim (Bool-cases (p c)) [
  | inl e ↦ Matches.class e (ap (λ u. c ∷ u) (empty-inv (rw e at m)))
  | inr e ↦ absurd (never-inv (rw e at m))
]
derive_sound c (seq r s) t m = elim (Bool-cases (nullable r)) [
  | inl e ↦ elim (alt-inv (rw e at m)) [
    | inl m₁ ↦
        let (a, b, x, y, q) = seq-inv m₁ in Matches.seq (derive_sound c r a x) y (ap (λ u. c ∷ u) q)
    | inr m₂ ↦ Matches.seq (nullable_sound r e) (derive_sound c s t m₂) refl
  ]
  | inr e ↦
      let (a, b, x, y, q) = seq-inv (rw e at m) in
      Matches.seq (derive_sound c r a x) y (ap (λ u. c ∷ u) q)
]
derive_sound c (alt r s) t m = elim (alt-inv m) [
  | inl x ↦ left (derive_sound c r t x)
  | inr y ↦ right (derive_sound c s t y)
]
derive_sound c (star r) t m =
    let (a, b, x, y, q) = seq-inv m in more (derive_sound c r a x) y (ap (λ u. c ∷ u) q)

-- Either nothing was taken in front, or the first part starts with the code point.
append-eq-cons :
    (a b : Text) (c : ℕ) (s : Text)
    → a ++ b ≡ c ∷ s
    → ((a ≡ []) × (b ≡ c ∷ s)) ⊎ ((a' : Text) × (a ≡ c ∷ a') × (s ≡ a' ++ b))
append-eq-cons [] b c s e = inl (refl, e)
append-eq-cons (x ∷ a) b c s e = inr (a, cc, cc)

derive_complete :
    {r : Pattern} {t : Text} (c : ℕ) (s : Text) → Matches r t → t ≡ c ∷ s → Matches (derive c r) s
unfolding derive
derive_complete c s Matches.empty e = absurd (cc)
derive_complete c s (Matches.class {p} {c = d} h q) e =
    let same : d ≡ c = cc in
    let rest : s ≡ [] = cc in
    let passes : p c ≡ true = subst (λ x. p x ≡ true) same h in rw (passes, rest) Matches.empty
derive_complete c s (Matches.seq {r} {s = r'} {a} {b} m n q) e =
    elim (append-eq-cons a b c s (sym q ∙ e)) [
      | inl (x, y) ↦ rw (nullable_complete m x) (right (derive_complete c s n y))
      | inr (a', x, y) ↦
          let front : Matches (seq (derive c r) r') s =
            Matches.seq (derive_complete c a' m x) n y in
          elim (Bool-cases (nullable r)) [ inl f ↦ rw f (left front) | inr f ↦ rw f front ]
    ]
derive_complete c s (left m) e = left (derive_complete c s m e)
derive_complete c s (right m) e = right (derive_complete c s m e)
derive_complete c s stop e = absurd (cc)
derive_complete c s (more {a} {b} m n q) e = elim (append-eq-cons a b c s (sym q ∙ e)) [
  | inl (x, y) ↦ derive_complete c s n y
  | inr (a', x, y) ↦ Matches.seq (derive_complete c a' m x) n y
]

pub fullmatch_sound : (r : Pattern) (t : Text) → fullmatch r t ≡ true → Matches r t
unfolding fullmatch
fullmatch_sound r [] h = nullable_sound r h
fullmatch_sound r (c ∷ t) h = derive_sound c r t (fullmatch_sound (derive c r) t h)

pub fullmatch_complete : (r : Pattern) (t : Text) → Matches r t → fullmatch r t ≡ true
unfolding fullmatch
fullmatch_complete r [] m = nullable_complete m refl
fullmatch_complete r (c ∷ t) m = fullmatch_complete (derive c r) t (derive_complete c t m refl)

-- The matcher accepts exactly the texts of the pattern's language.
pub fullmatch_iff : (r : Pattern) (t : Text) → (fullmatch r t ≡ true) ↔ Matches r t
fullmatch_iff r t = (fullmatch_sound r t, fullmatch_complete r t)
