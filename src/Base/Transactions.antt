-- ===== src/Base/Transactions.antt =====
-- A call that may raise, and a database transaction: the new state comes back only on success, so
-- that a raise rolls back every write.
use mathlib.Core.Path.{◌≡◌, refl}
use mathlib.Core.Logic.{◌⊎◌, inl, inr}
use mathlib.Core.Option.{Option, none, some}
use mathlib.Core.Bool.{Bool, true, false}

pub data Result (E A : Type 0) : Type 0 where
  ok : A → Result E A
  err : E → Result E A

module _ {E : Type 0} where
  infixl 5 ◌>>=◌ ◌>>◌
  -- A raise skips what follows.
  abbrev pub ◌>>=◌ : {A B : Type 0} → Result E A → (A → Result E B) → Result E B
  err raised >>= rest = err raised
  ok value >>= rest = rest value

  -- A call for its effect, and what follows it.
  abbrev pub ◌>>◌ : {B : Type 0} → Result E (Unit {0}) → Result E B → Result E B
  call >> rest = call >>= λ _. rest

  -- `if test: raise e`
  abbrev pub raise_if : Bool → E → Result E (Unit {0})
  raise_if true e = err e
  raise_if false e = ok tt

  pub Result-cases :
      {A : Type 0} (m : Result E A) → ((e : E) × (m ≡ err e)) ⊎ ((a : A) × (m ≡ ok a))
  Result-cases (ok a) = inr (a, refl)
  Result-cases (err e) = inl (e, refl)

  -- A sequence that succeeds has succeeded in both parts.
  pub >>=-eq-ok :
      {A B : Type 0} (call : Result E A) (rest : A → Result E B) {result : B}
      → (call >>= rest) ≡ ok result
      → (value : A) × (call ≡ ok value) × (rest value ≡ ok result)
  >>=-eq-ok (err raised) rest h = cc
  >>=-eq-ok (ok value) rest h = (value, refl, h)

  pub raise_if-eq-ok : (b : Bool) (e : E) {u : Unit {0}} → raise_if b e ≡ ok u → b ≡ false
  raise_if-eq-ok true e h = cc
  raise_if-eq-ok false e h = refl

module _ {E A : Type 0} where
  -- A value that may be missing, and the exception that its absence raises.
  abbrev pub or_raise : E → Option A → Result E A
  or_raise e none = err e
  or_raise e (some a) = ok a

  pub or_raise-eq-ok : (e : E) (o : Option A) {a : A} → or_raise e o ≡ ok a → o ≡ some a
  or_raise-eq-ok e none h = cc
  or_raise-eq-ok e (some a) h = cc

module _ {E S A : Type 0} where
  abbrev pub settle : Result E (A × S) → S → Result E A × S
  settle (ok (a, s')) s = (ok a, s')
  settle (err e) s = (err e, s)

  -- `async with database.transaction()`: commit on success, roll back on a raise.
  abbrev pub transaction : (S → Result E (A × S)) → S → Result E A × S
  transaction body s = settle (body s) s

  -- What holds before, and after every commit, holds after the transaction.
  pub settle-keeps :
      (P : S → Type 0) (r : Result E (A × S)) (s : S)
      → P s
      → ((a : A) (s' : S) → r ≡ ok (a, s') → P s')
      → P (settle r s).1
  settle-keeps P (ok (a, s')) s h k = k a s' refl
  settle-keeps P (err e) s h k = h

  -- A transaction that returns a value has committed what its body computed.
  pub settle-eq-ok :
      (r : Result E (A × S)) (s : S) {a : A} → (settle r s).0 ≡ ok a → r ≡ ok (a, (settle r s).1)
  settle-eq-ok (ok (a, s')) s h = cc
  settle-eq-ok (err e) s h = cc

  -- A transaction that raises has left the state alone.
  pub settle-eq-err :
      (r : Result E (A × S)) (s : S) {e : E} → (settle r s).0 ≡ err e → (settle r s).1 ≡ s
  settle-eq-err (ok (a, s')) s h = cc
  settle-eq-err (err e) s h = refl
