-- ===== src/Base/Strings.antt =====
-- Python's `str` as a list of code points, and the methods of `str` that the program calls.
use Prim.Native.Nat.{ℕ}
use Prim.Native.Char.{code}
use Prim.Native.String.{String}
use mathlib.Core.Path.{◌≡◌, refl}
use mathlib.Core.Logic.{◌↔◌}
use mathlib.Core.Bool.{Bool, true, false, not, ◌&&◌, ◌||◌}
use mathlib.Core.List.{List, [], ◌∷◌, ◌++◌}
use native.Mathlib.Omega.{arith}
use agent_data_oracle.Base.Tests.{◌==◌, ltb, if◌then◌else◌}
use agent_data_oracle.Base.Lists.{select, any}

abbrev pub Text : Type 0
Text = List ℕ

abbrev pub codes : String → Text
codes String.[] = []
codes (String.◌∷◌ c s) = code c ∷ codes s

-- `a == b` on texts.
unfoldable pub text_eq : Text → Text → Bool
text_eq [] [] = true
text_eq (x ∷ xs) (y ∷ ys) = (x == y) && text_eq xs ys
text_eq _ _ = false

pub text_eq_refl : (a : Text) → text_eq a a ≡ true
unfolding text_eq
text_eq_refl [] = refl
text_eq_refl (x ∷ xs) = ground (arith, text_eq_refl xs)

pub text_eq_sound : (a b : Text) → text_eq a b ≡ true → a ≡ b
unfolding text_eq
text_eq_sound [] [] h = refl
text_eq_sound [] (y ∷ ys) h = cc
text_eq_sound (x ∷ xs) [] h = cc
text_eq_sound (x ∷ xs) (y ∷ ys) h = ground (arith, text_eq_sound xs ys)

pub text_eq_iff : (a b : Text) → (text_eq a b ≡ true) ↔ (a ≡ b)
text_eq_iff a b = (text_eq_sound a b, λ e. rw e (text_eq_refl b))

-- The order of texts by code points: Python's, and that of a database under the C collation.
unfoldable pub text_le : Text → Text → Bool
text_le [] t = true
text_le (c ∷ s) [] = false
text_le (c ∷ s) (d ∷ t) = ltb c d || (c == d && text_le s t)

-- `text in {…}`
abbrev pub text_in : Text → List Text → Bool
text_in t ts = any (text_eq t) ts

abbrev pub is_empty : Text → Bool
is_empty [] = true
is_empty (_ ∷ _) = false

-- `s.startswith(prefix)`
unfoldable pub starts_with : Text → Text → Bool
starts_with [] s = true
starts_with (c ∷ p) [] = false
starts_with (c ∷ p) (d ∷ s) = (c == d) && starts_with p s

-- `s.replace(c, "")` for a single character.
abbrev pub remove : ℕ → Text → Text
remove c = select (λ d. not (d == c))

-- `s.split(sep, maxsplit=1)[0]`: the text before the first occurrence of `sep`.
unfoldable pub before : Text → Text → Text
unfolding starts_with
before sep [] = []
before sep (c ∷ s) = let rest = before sep s in if starts_with sep (c ∷ s) then [] else c ∷ rest

module _ (is_space : ℕ → Bool) where
  abbrev flush : Text → List Text → List Text
  flush [] ws = ws
  flush (c ∷ w) ws = (c ∷ w) ∷ ws

  -- The word that ends before the first space, and the words after it.
  scan_words : Text → Text × List Text
  scan_words [] = ([], [])
  scan_words (c ∷ s) =
      let (w, ws) = scan_words s in if is_space c then ([], flush w ws) else (c ∷ w, ws)

  -- `s.split()`
  unfoldable pub split_words : Text → List Text
  unfolding scan_words
  split_words s = let (w, ws) = scan_words s in flush w ws

  -- `s.lstrip()`
  unfoldable pub strip_left : Text → Text
  strip_left [] = []
  strip_left (c ∷ s) = if is_space c then strip_left s else c ∷ s

  -- A trailing run of spaces goes, and nothing else.
  unfoldable pub strip_right : Text → Text
  strip_right [] = []
  strip_right (c ∷ s) =
      let rest = strip_right s in if is_space c && is_empty rest then [] else c ∷ rest

  -- `s.strip()`
  unfoldable pub strip : Text → Text
  unfolding strip_left strip_right
  strip s = strip_left (strip_right s)

-- `" ".join(ws)`
unfoldable pub join_words : List Text → Text
join_words [] = []
join_words (w ∷ []) = w
join_words (w ∷ v ∷ ws) = w ++ 32 ∷ join_words (v ∷ ws)
