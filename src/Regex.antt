-- ===== src/Regex.antt =====
-- The regular expressions of `evidence_queue.py` (Python's `re`), as far as its two anchored
-- patterns go: literals, character classes, sequences, alternatives and repetition. `fullmatch`
-- runs by derivatives; `Matches` is the language of a pattern, which `Regex/Laws.antt` relates to it.
mod Laws
use agent_data_oracle.Base.{
  ℕ, zero, suc, Text, Bool, true, false, ◌&&◌, ◌||◌, List, [], ◌∷◌, ◌++◌, ◌==◌, ◌≡◌, if◌then◌else◌,
}

pub data Pattern : Type 0 where
  never empty : Pattern
  class : (ℕ → Bool) → Pattern
  seq alt : Pattern → Pattern → Pattern
  star : Pattern → Pattern

-- `r+`, `r?`, and `r{0,n}`
abbrev pub plus : Pattern → Pattern
plus r = seq r (star r)

abbrev pub opt : Pattern → Pattern
opt r = alt empty r

abbrev pub up_to : ℕ → Pattern → Pattern
up_to zero r = empty
up_to (suc n) r = opt (seq r (up_to n r))

abbrev pub literal : Text → Pattern
literal [] = empty
literal (c ∷ s) = seq (class (λ d. c == d)) (literal s)

-- Whether a pattern matches the empty text.
unfoldable pub nullable : Pattern → Bool
nullable never = false
nullable empty = true
nullable (class p) = false
nullable (seq r s) = nullable r && nullable s
nullable (alt r s) = nullable r || nullable s
nullable (star r) = true

-- What is left of a pattern after one code point.
unfoldable pub derive : ℕ → Pattern → Pattern
unfolding nullable
derive c never = never
derive c empty = never
derive c (class p) = if p c then empty else never
derive c (seq r s) =
    if nullable r then alt (seq (derive c r) s) (derive c s) else seq (derive c r) s
derive c (alt r s) = alt (derive c r) (derive c s)
derive c (star r) = seq (derive c r) (star r)

-- `pattern.fullmatch(text) is not None`
unfoldable pub fullmatch : Pattern → Text → Bool
unfolding derive nullable
fullmatch r [] = nullable r
fullmatch r (c ∷ s) = fullmatch (derive c r) s

-- The language of a pattern.
pub data Matches : Pattern → Text → Type 0 where
  empty : Matches Pattern.empty []
  class : {p : ℕ → Bool} {c : ℕ} {t : Text} → p c ≡ true → t ≡ c ∷ [] → Matches (Pattern.class p) t
  seq :
      {r s : Pattern} {a b t : Text}
      → Matches r a
      → Matches s b
      → t ≡ a ++ b
      → Matches (Pattern.seq r s) t
  left : {r s : Pattern} {t : Text} → Matches r t → Matches (alt r s) t
  right : {r s : Pattern} {t : Text} → Matches s t → Matches (alt r s) t
  stop : {r : Pattern} → Matches (star r) []
  more :
      {r : Pattern} {a b t : Text}
      → Matches r a
      → Matches (star r) b
      → t ≡ a ++ b
      → Matches (star r) t
