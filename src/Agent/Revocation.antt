-- ===== src/Agent/Revocation.antt =====
-- A key that is revoked stays revoked, and no later request is admitted with it.
use agent_data_oracle.Base.{
  ℕ, ◌≡◌, ◌≢◌, refl, Text, Bool, true, false, ◌&&◌, ◌==◌, List, [], ◌∷◌, arith, ok, any, All,
  All-append, All-map, All-select, All-one, All-flat_map, any-append, any-update_where, any-imp,
  any-weaken, sym, ap, ◌∙◌, text_eq, text_le, sort_by, All-true, settle-keeps, settle-eq-ok, some,
  Bool-cases, inl, inr, update_where,
}
use agent_data_oracle.Agent.{
  AgentEnv, AgentKey, AgentTables, AgentPrincipal, Operator, KeyDraw, create_body, create_key,
  revoke_key, authenticate_body, authenticate, keys_of_prefix, is_active, revocable, clashes,
  new_key,
}
use agent_data_oracle.Agent.Keys.{
  Call, Calls, here, next, revoke, request, create_body-eq-ok, authenticate_body-eq-ok,
  admit_request-eq-ok,
}

-- The key is in the table, and no row of it is active.
abbrev pub Inactive : ℕ → AgentKey → Type 0
Inactive i k = (k.agent_key_id == i) ≡ true → is_active k ≡ false

pub record IsRevoked (i : ℕ) (s : AgentTables) : Type 0 where
  pub present : any (λ k. k.agent_key_id == i) s.keys ≡ true
  pub inactive : All (Inactive i) s.keys

-- A row that is updated without its identifier or its revocation being touched.
All-touched :
    (i : ℕ) (q : AgentKey → Bool) (f : AgentKey → AgentKey) (ks : List AgentKey)
    → ((k : AgentKey) → Inactive i k → Inactive i (f k))
    → All (Inactive i) ks
    → All (Inactive i) (update_where q f ks)
All-touched i q f [] h a = tt
All-touched i q f (k ∷ ks) h a = elim (Bool-cases (q k)) [
  | inl e ↦ rw e (h k a.0, All-touched i q f ks h a.1)
  | inr e ↦ rw e (a.0, All-touched i q f ks h a.1)
]

-- A new row cannot reuse the identifier, which is still in the table.
create-IsRevoked :
    (i : ℕ) (d : KeyDraw) (k : AgentKey) (ks : List AgentKey)
    → k.agent_key_id ≡ d.agent_key_id
    → any (clashes d) ks ≡ false
    → any (λ j. j.agent_key_id == i) ks ≡ true
    → Inactive i k
create-IsRevoked i d k ks same free present e =
    let taken : d.agent_key_id ≡ i = ground arith in
    let absent : any (λ j. j.agent_key_id == i) ks ≡ false =
      any-imp (λ j. j.agent_key_id == i) (clashes d) ks (λ j p. ground arith) free in
    cc

Call-IsRevoked :
    (i : ℕ) (env : AgentEnv) {s t : AgentTables} → Call env s t → IsRevoked i s → IsRevoked i t
unfolding create_key revoke_key authenticate
Call-IsRevoked i env (Call.create operator scopes d now s) h =
    settle-keeps (IsRevoked i) (create_body env operator scopes d now s) s h λ a s' e.
      let (_, ks, _, _, free, _, _) = create_body-eq-ok env operator scopes d now s a s' e in
      let k = new_key env operator (sort_by text_le scopes) d now in
      record {
        present = rw (ks, any-append, h.present);
        inactive = rw ks (
            All-append (Inactive i) s.keys (k ∷ []) h.inactive
              (create-IsRevoked i d k s.keys refl free h.present, tt));
      }
Call-IsRevoked i env (revoke operator j now s) h = record {
  present =
      rw
        (any-update_where (λ k. k.agent_key_id == i) (revocable operator j)
          (λ k. record k { revoked_at = some now }) s.keys (λ k. refl))
        h.present;
  inactive =
      All-touched i (revocable operator j) (λ k. record k { revoked_at = some now }) s.keys
        (λ k p e. refl) h.inactive;
}
Call-IsRevoked i env (request bearer required now s) h =
    settle-keeps (IsRevoked i) (authenticate_body env bearer required now s) s h λ a s' e.
      let v = authenticate_body-eq-ok env bearer required now s a s' e in
      let (_, _, ks, _, _) = admit_request-eq-ok v.key now s a s' v.admitted in
      let used = λ (k : AgentKey). k.agent_key_id == v.key.agent_key_id in
      let touch = λ (k : AgentKey). record k { last_used_at = some now } in
      record {
        present =
            rw (ks, any-update_where (λ k. k.agent_key_id == i) used touch s.keys (λ k. refl))
              h.present;
        inactive = rw ks (All-touched i used touch s.keys (λ k p. p) h.inactive);
      }

Calls-IsRevoked :
    (i : ℕ) (env : AgentEnv) {s t : AgentTables} → IsRevoked i s → Calls env s t → IsRevoked i t
Calls-IsRevoked i env h here = h
Calls-IsRevoked i env h (next c st) = Call-IsRevoked i env st (Calls-IsRevoked i env h c)

-- The keys that a prefix finds are active rows of the table.
keys_of_prefix-Inactive :
    (i : ℕ) (p : Text) (s : AgentTables)
    → All (Inactive i) s.keys
    → All (λ (r : AgentKey × Operator). r.0.agent_key_id ≢ i) (keys_of_prefix p s)
unfolding keys_of_prefix
keys_of_prefix-Inactive i p s h =
    All-flat_map (λ k. Inactive i k × ((text_eq k.secret_prefix p && is_active k) ≡ true))
      (λ r. r.0.agent_key_id ≢ i) _ _
      (λ k q.
        All-map (λ (o : Operator). (k, o)) (λ r. r.0.agent_key_id ≢ i) _
          (All-true (λ o e. ground (arith, q.0)) _))
      (All-select (Inactive i) (λ k. text_eq k.secret_prefix p && is_active k) s.keys h)

-- While the key is revoked, no request is admitted as it.
authenticate-IsRevoked :
    (i : ℕ) (env : AgentEnv) (bearer required : Text) (now : ℕ) (s : AgentTables)
    (a : AgentPrincipal)
    → IsRevoked i s
    → (authenticate env bearer required now s).0 ≡ ok a
    → a.agent_key_id ≢ i
unfolding authenticate
authenticate-IsRevoked i env bearer required now s a h e =
    let v = authenticate_body-eq-ok env bearer required now s a _ (settle-eq-ok _ s e) in
    let other =
      All-one (λ r. r.0.agent_key_id ≢ i) _ v.found
        (keys_of_prefix-Inactive i v.prefix s h.inactive) in
    let (_, _, _, _, same) = admit_request-eq-ok v.key now s a _ v.admitted in
    λ q. other (sym (ap (λ (b : AgentPrincipal). b.agent_key_id) same) ∙ q)

-- The rows of a key belong to one operator.
abbrev pub OwnedBy : ℕ → ℕ → AgentKey → Type 0
OwnedBy operator i k = (k.agent_key_id == i) ≡ true → k.operator_id ≡ operator

revoked-Inactive :
    (operator i now : ℕ) (ks : List AgentKey)
    → All (OwnedBy operator i) ks
    → All
        (Inactive i)
        (update_where (revocable operator i) (λ k. record k { revoked_at = some now }) ks)
revoked-Inactive operator i now [] h = tt
revoked-Inactive operator i now (k ∷ ks) h = elim (Bool-cases (revocable operator i k)) [
  | inl e ↦ rw e ((λ q. refl), revoked-Inactive operator i now ks h.1)
  | inr e ↦ rw e ((λ q. ground (arith, h.0)), revoked-Inactive operator i now ks h.1)
]

-- Once `revoke_key` has returned true for a key whose row belongs to the operator, no request is
-- admitted as that key again, whatever calls come in between.
pub revoked_key_admits_nothing :
    (env : AgentEnv) (operator i now : ℕ) (s : AgentTables) {t : AgentTables}
    (bearer required : Text) (later : ℕ) (a : AgentPrincipal)
    → All (OwnedBy operator i) s.keys
    → (revoke_key operator i now s).0 ≡ true
    → Calls env (revoke_key operator i now s).1 t
    → (authenticate env bearer required later t).0 ≡ ok a
    → a.agent_key_id ≢ i
unfolding revoke_key
revoked_key_admits_nothing env operator i now s {t} bearer required later a owned done calls e =
    let used = λ (k : AgentKey). record k { revoked_at = some now } in
    let start : IsRevoked i (revoke_key operator i now s).1 = record {
      present =
          rw
            (any-update_where (λ k. k.agent_key_id == i) (revocable operator i) used s.keys
              (λ k. refl))
            (any-weaken (revocable operator i) (λ k. k.agent_key_id == i) s.keys
              (λ k q. ground arith) done);
      inactive = revoked-Inactive operator i now s.keys owned;
    } in
    authenticate-IsRevoked i env bearer required later t a (Calls-IsRevoked i env start calls) e
