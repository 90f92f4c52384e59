-- ===== src/Access/Spending.antt =====
-- A sign-in token works once.
use agent_data_oracle.Base.{
  ℕ, ◌≤◌, ◌≡◌, ◌≢◌, refl, ap, ◌∙◌, Text, codes, text_eq, Bool, true, false, Option, some, List, [],
  ◌∷◌, arith, length, inl, inr, any, select, is_some, All, All-append, any-append, any-update_where,
  any-weaken, any-imp, select-none, update_where, Bool-cases, ok, settle-eq-ok, text_eq_sound,
}
use agent_data_oracle.Access.{LoginToken, AccessTables, AccessEnv}
use agent_data_oracle.Access.SignIn.{
  SessionDraw, SessionGrant, consumable, consumed, sign_in_as, consume_body, consume_sign_in_token,
  token_clashes, new_login_token,
}
use agent_data_oracle.Access.Sessions.{revoke_session}
use agent_data_oracle.Access.Steps.{
  Steps, here, next, Effect, delivers, signs_in, ends, touches, Step-Effect, consume_body-Opens,
}

abbrev pub has_hash : Text → LoginToken → Bool
has_hash h t = text_eq t.token_hash h

-- A token of the hash has been consumed.
abbrev pub Spent : Text → LoginToken → Type 0
Spent h t = has_hash h t ≡ true → is_some t.consumed_at ≡ true

pub record IsSpent (h : Text) (s : AccessTables) : Type 0 where
  pub present : any (has_hash h) s.login_tokens ≡ true
  pub spent : All (Spent h) s.login_tokens

-- A use of any token keeps what is spent.
used-Spent :
    (env : AccessEnv) (token h : Text) (now : ℕ) (ts : List LoginToken)
    → All (Spent h) ts
    → All
        (Spent h)
        (update_where (consumable env token now) (λ t. record t { consumed_at = some now }) ts)
used-Spent env token h now [] a = tt
used-Spent env token h now (t ∷ ts) a = elim (Bool-cases (consumable env token now t)) [
  | inl e ↦ rw e ((λ p. refl), used-Spent env token h now ts a.1)
  | inr e ↦ rw e (a.0, used-Spent env token h now ts a.1)
]

none-Spent : (h : Text) (ts : List LoginToken) → any (has_hash h) ts ≡ false → All (Spent h) ts
none-Spent h [] e = tt
none-Spent h (t ∷ ts) e = ((λ p. absurd (ground arith)), none-Spent h ts (ground arith))

any-length :
    (p : LoginToken → Bool) (ts : List LoginToken) → length (select p ts) ≤ 0 → any p ts ≡ false
any-length p [] h = refl
any-length p (t ∷ ts) h = ground (arith, any-length p ts)

length-any :
    (p : LoginToken → Bool) (ts : List LoginToken) → any p ts ≡ true → 1 ≤ length (select p ts)
length-any p [] h = cc
length-any p (t ∷ ts) h = ground (arith, length-any p ts)

-- Where the hash is unique, the use of its token leaves none of it unspent.
first-use-Spent :
    (env : AccessEnv) (token : Text) (now : ℕ) (ts : List LoginToken)
    → length (select (has_hash (env.digest (codes "login") token)) ts) ≤ 1
    → any (consumable env token now) ts ≡ true
    → All
        (Spent (env.digest (codes "login") token))
        (update_where (consumable env token now) (λ t. record t { consumed_at = some now }) ts)
first-use-Spent env token now [] l h = cc
first-use-Spent env token now (t ∷ ts) l h =
    let key = env.digest (codes "login") token in
    elim (Bool-cases (consumable env token now t)) [
      | inl e ↦
          let here : has_hash key t ≡ true = ground arith in
          let alone : length (select (has_hash key) ts) ≤ 0 = ground arith in
          rw e (
            (λ p. refl),
            used-Spent env token key now ts
                (none-Spent key ts (any-length (has_hash key) ts alone)),
          )
      | inr e ↦
          let later : any (consumable env token now) ts ≡ true = ground arith in
          let there =
            length-any (has_hash key) ts (
              any-weaken (consumable env token now) (has_hash key) ts (λ x p. ground arith)
                later) in
          let rest : length (select (has_hash key) ts) ≤ 1 = ground arith in
          let absent : has_hash key t ≡ false = ground arith in
          rw e ((λ p. absurd (ground arith)), first-use-Spent env token now ts rest later)
    ]

Effect-IsSpent :
    (h : Text) (env : AccessEnv) (s u : AccessTables) → Effect env s u → IsSpent h s → IsSpent h u
Effect-IsSpent h env s u (delivers q d now _ v) a =
    let new = new_login_token env d v.email now in
    let other : has_hash h new ≡ false = elim (Bool-cases (has_hash h new)) [
      | inl e ↦
          let same : new.token_hash ≡ h = text_eq_sound new.token_hash h e in
          let absent : any (has_hash h) s.login_tokens ≡ false =
            any-imp (has_hash h) (token_clashes new) s.login_tokens
              (λ x p. let q = ap (text_eq x.token_hash) same ∙ p in ground arith) v.unused in
          cc
      | inr e ↦ e
    ] in
    record {
      present = rw (v.tokens, any-append, a.present);
      spent = rw v.tokens (
          All-append (Spent h) s.login_tokens (new ∷ []) a.spent
            ((λ p. absurd (ground arith)), tt));
    }
Effect-IsSpent h env s u (signs_in d token now _ (_, same)) a = record {
  present =
      rw
        (
          same,
          any-update_where (has_hash h) (consumable env token now)
              (λ t. record t { consumed_at = some now }) s.login_tokens (λ t. refl),
        )
        a.present;
  spent = rw same (used-Spent env token h now s.login_tokens a.spent);
}
Effect-IsSpent h env s u (ends token now e) a =
    unfold revoke_session in rw e (record { present = a.present; spent = a.spent })
Effect-IsSpent h env s u (touches ((_, same), _)) a = record {
  present = rw same a.present;
  spent = rw same a.spent;
}

Steps-IsSpent :
    (h : Text) (env : AccessEnv) {s t : AccessTables} → Steps env s t → IsSpent h s → IsSpent h t
Steps-IsSpent h env here a = a
Steps-IsSpent h env (next t u before step) a =
    Effect-IsSpent h env t u (Step-Effect env step) (Steps-IsSpent h env before a)

-- Nothing of a spent hash can be consumed.
Spent-not-consumable :
    (env : AccessEnv) (token : Text) (now : ℕ) (ts : List LoginToken)
    → All (Spent (env.digest (codes "login") token)) ts
    → any (consumable env token now) ts ≡ false
Spent-not-consumable env token now [] a = refl
Spent-not-consumable env token now (t ∷ ts) a =
    ground (arith, a.0, Spent-not-consumable env token now ts a.1)

-- A grant comes from a token that could be consumed.
grant-consumable :
    (env : AccessEnv) (d : SessionDraw) (token : Text) (now : ℕ) (s : AccessTables)
    (g : SessionGrant) (s' : AccessTables)
    → consume_body env d token now s ≡ ok (some g, s')
    → any (consumable env token now) s.login_tokens ≡ true
unfolding consume_body sign_in_as
grant-consumable env d token now s g s' h =
    elim (Bool-cases (any (consumable env token now) s.login_tokens)) [
      | inl e ↦ e
      | inr e ↦
          let empty = select-none (consumable env token now) s.login_tokens e in
          let refused = rw empty at h in cc
    ]

consume_body-tokens :
    (env : AccessEnv) (d : SessionDraw) (token : Text) (now : ℕ) (s : AccessTables)
    (a : Option SessionGrant) (s' : AccessTables)
    → consume_body env d token now s ≡ ok (a, s')
    → s'.login_tokens ≡ (consumed env token now s).login_tokens
consume_body-tokens env d token now s a s' h =
    let (_, (_, same)) = consume_body-Opens env d token now s a s' h in same

-- Once a sign-in token whose hash stands in one row at most has been exchanged for a session, no
-- later call exchanges it again, whatever calls of the human access come in between and whatever the
-- clock reads.
pub sign_in_token_works_once :
    (env : AccessEnv) (d d' : SessionDraw) (token : Text) (now later : ℕ) (s : AccessTables)
    {t : AccessTables} (g g' : SessionGrant)
    → length (select (has_hash (env.digest (codes "login") token)) s.login_tokens) ≤ 1
    → (consume_sign_in_token env d token now s).0 ≡ ok (some g)
    → Steps env (consume_sign_in_token env d token now s).1 t
    → (consume_sign_in_token env d' token later t).0 ≢ ok (some g')
unfolding consume_sign_in_token
sign_in_token_works_once env d d' token now later s {t} g g' unique done steps again =
    let key = env.digest (codes "login") token in
    let before = settle-eq-ok (consume_body env d token now s) s done in
    let usable = grant-consumable env d token now s g _ before in
    let tokens = consume_body-tokens env d token now s (some g) _ before in
    let start : IsSpent key (consume_sign_in_token env d token now s).1 = record {
      present =
          rw
            (
              tokens,
              any-update_where (has_hash key) (consumable env token now)
                  (λ t. record t { consumed_at = some now }) s.login_tokens (λ t. refl),
            )
            (any-weaken (consumable env token now) (has_hash key) s.login_tokens
              (λ x p. ground arith) usable);
      spent = rw tokens (first-use-Spent env token now s.login_tokens unique usable);
    } in
    let spent = Steps-IsSpent key env steps start in
    let none_left = Spent-not-consumable env token later t.login_tokens spent.spent in
    let after = settle-eq-ok (consume_body env d' token later t) t again in
    let one_left = grant-consumable env d' token later t g' _ after in cc
