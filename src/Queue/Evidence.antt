-- ===== src/Queue/Evidence.antt =====
-- The evidence rows of a new evaluation: each stands on a match of the identifier it names.
use agent_data_oracle.Base.{
  ℕ, zero, suc, Text, ◌+◌, ◌≤◌, ◌≡◌, refl, true, not, ◌==◌, Option, some, none, List, [], ◌∷◌, ◌++◌,
  arith, length, All, All-append, All-imp, ok, Result, ◌>>=◌, >>=-eq-ok, or_raise, Bool-cases, inl,
  inr, if◌then◌else◌,
}
use agent_data_oracle.Json.{Fields, as_object}
use agent_data_oracle.Identifier.{Unicode, IdentifierType, SubmittedIdentifier}
use agent_data_oracle.Identifier.Matching.{RecordMatch, match_cpsc_record}
use agent_data_oracle.Identifier.Matches.{Matches, class_of, match_cpsc_record-Matches}
use agent_data_oracle.Source.{SourceRecord}
use agent_data_oracle.Queue.{Env, Queue, Evaluation, EvidenceRow, QueueError, source_unavailable}
use agent_data_oracle.Queue.Submit.{
  Request, Draw, Submitted, CandidateRow, match_records, candidate_rows, evidence_rows,
  evidence_row, strongest, insert_evaluation, new_evaluation, submit,
}
use agent_data_oracle.Queue.Outcome.{submit_body-Outcome, submit-eq-ok}
use agent_data_oracle.Queue.Gate.{Outcome-Created}

-- The element at a position.
abbrev pub elem_at : {A : Type 0} → ℕ → List A → Option A
elem_at n [] = none
elem_at zero (x ∷ xs) = some x
elem_at (suc n) (x ∷ xs) = elem_at n xs

-- A candidate of the identifier `k` places after position `i`.
pub record IsCandidate (env : Env) (i : ℕ) (identifiers : List SubmittedIdentifier)
    (c : CandidateRow) : Type 0 where
  pub offset : ℕ
  pub identifier : SubmittedIdentifier
  pub position : c.input_position ≡ i + offset
  pub submitted : elem_at offset identifiers ≡ some identifier
  pub some_basis : 1 ≤ length c.match_bases
  pub bases :
      All (Matches env.unicode identifier.identifier_type identifier.normalized_value) c.match_bases

match_records-IsCandidate :
    (env : Env) (i : ℕ) (identifier : SubmittedIdentifier) (identifiers : List SubmittedIdentifier)
    (records : List SourceRecord) (found : List CandidateRow)
    → match_records env i identifier records ≡ ok found
    → All (IsCandidate env i (identifier ∷ identifiers)) found
unfolding match_records
match_records-IsCandidate env i identifier identifiers [] found h =
    (let e : found ≡ [] = cc in rw e tt)
match_records-IsCandidate env i identifier identifiers (r ∷ records) found h =
    let row = λ (raw : Fields).
      (let z : CandidateRow = record {
        input_position = i;
        source_record = r;
        raw_record = raw;
        match_bases = match_cpsc_record env.unicode env.patterns identifier raw;
      } in
        z) in
    let finish = λ (raw : Fields) (rest : List CandidateRow).
      (let z : Result QueueError (List CandidateRow) = ok (
          if length (match_cpsc_record env.unicode env.patterns identifier raw) == 0
          then rest
          else row raw ∷ rest) in
        z) in
    let (raw, e₁, h₁) =
      >>=-eq-ok (or_raise source_unavailable (as_object r.normalized_record))
        (λ raw. match_records env i identifier records >>= finish raw) h in
    let (rest, e₂, h₂) = >>=-eq-ok (match_records env i identifier records) (finish raw) h₁ in
    let ih = match_records-IsCandidate env i identifier identifiers records rest e₂ in
    let sound = match_cpsc_record-Matches env.unicode env.patterns identifier raw in
    elim (Bool-cases (length (match_cpsc_record env.unicode env.patterns identifier raw) == 0)) [
      | inl no_match ↦ (let e : found ≡ rest = ground arith in rw e ih)
      | inr matched ↦
          (let e : found ≡ row raw ∷ rest = ground arith in
            rw e (
              record {
                offset = 0;
                identifier = identifier;
                position = omega arith;
                submitted = refl;
                some_basis = ground arith;
                bases = sound;
              },
              ih,
            ))
    ]

later-IsCandidate :
    (env : Env) (i : ℕ) (identifier : SubmittedIdentifier) (identifiers : List SubmittedIdentifier)
    (c : CandidateRow)
    → IsCandidate env (suc i) identifiers c
    → IsCandidate env i (identifier ∷ identifiers) c
later-IsCandidate env i identifier identifiers c h = record {
  offset = suc h.offset;
  identifier = h.identifier;
  position = (let e = h.position in omega (arith, e));
  submitted = h.submitted;
  some_basis = h.some_basis;
  bases = h.bases;
}

candidate_rows-IsCandidate :
    (env : Env) (i : ℕ) (identifiers : List SubmittedIdentifier) (records : List SourceRecord)
    (found : List CandidateRow)
    → candidate_rows env i identifiers records ≡ ok found
    → All (IsCandidate env i identifiers) found
unfolding candidate_rows
candidate_rows-IsCandidate env i [] records found h = (let e : found ≡ [] = cc in rw e tt)
candidate_rows-IsCandidate env i (identifier ∷ identifiers) records found h =
    let finish = λ (here there : List CandidateRow).
      (let z : Result QueueError (List CandidateRow) = ok (here ++ there) in z) in
    let (here, e₁, h₁) =
      >>=-eq-ok (match_records env i identifier records)
        (λ here. candidate_rows env (suc i) identifiers records >>= finish here) h in
    let (there, e₂, h₂) =
      >>=-eq-ok (candidate_rows env (suc i) identifiers records) (finish here) h₁ in
    let same : found ≡ here ++ there = cc in
    rw same (
      All-append _ here there
        (match_records-IsCandidate env i identifier identifiers records here e₁)
        (All-imp _ _ there (later-IsCandidate env i identifier identifiers)
          (candidate_rows-IsCandidate env (suc i) identifiers records there e₂)))

-- The class of a row is that of its identifier's type.
strongest-class_of :
    (u : Unicode) (k : IdentifierType) (value : Text) (ms : List RecordMatch)
    → 1 ≤ length ms
    → All (Matches u k value) ms
    → strongest ms ≡ class_of k
unfolding strongest
strongest-class_of u k value [] h hs = absurd (omega arith)
strongest-class_of u IdentifierType.upc value (m ∷ ms) h (k, ks) = rw k.class_follows
strongest-class_of u IdentifierType.model value (m ∷ []) h (k, ks) = rw k.class_follows
strongest-class_of u IdentifierType.brand value (m ∷ []) h (k, ks) = rw k.class_follows
strongest-class_of u IdentifierType.model value (m ∷ n ∷ ms) h (k, ks) =
    let ih = strongest-class_of u IdentifierType.model value (n ∷ ms) (omega arith) ks in
    rw k.class_follows ih
strongest-class_of u IdentifierType.brand value (m ∷ n ∷ ms) h (k, ks) =
    let ih = strongest-class_of u IdentifierType.brand value (n ∷ ms) (omega arith) ks in
    rw k.class_follows ih

-- What an evidence row of an evaluation says.
pub record IsEvidence (env : Env) (evaluation_id : ℕ) (identifiers : List SubmittedIdentifier)
    (r : EvidenceRow) : Type 0 where
  pub identifier : SubmittedIdentifier
  pub of_evaluation : r.evaluation_id ≡ evaluation_id
  pub submitted : elem_at r.input_position identifiers ≡ some identifier
  pub some_basis : 1 ≤ length r.match_bases
  pub bases :
      All (Matches env.unicode identifier.identifier_type identifier.normalized_value) r.match_bases
  pub class_follows : r.candidate_class ≡ class_of identifier.identifier_type

evidence_row-IsEvidence :
    (env : Env) (d : Draw) (n : ℕ) (identifiers : List SubmittedIdentifier) (c : CandidateRow)
    (completed_at : ℕ)
    → IsCandidate env 0 identifiers c
    → IsEvidence env d.evaluation_id identifiers (evidence_row env d n c completed_at)
unfolding evidence_row
evidence_row-IsEvidence env d n identifiers c completed_at h = record {
  identifier = h.identifier;
  of_evaluation = refl;
  submitted =
      (let at_offset : c.input_position ≡ h.offset = (let e = h.position in omega (arith, e)) in
        rw at_offset h.submitted);
  some_basis = h.some_basis;
  bases = h.bases;
  class_follows = strongest-class_of env.unicode _ _ c.match_bases h.some_basis h.bases;
}

evidence_rows-IsEvidence :
    (env : Env) (d : Draw) (n : ℕ) (identifiers : List SubmittedIdentifier)
    (found : List CandidateRow) (rows : List EvidenceRow)
    → evidence_rows env d n found ≡ ok rows
    → All (IsCandidate env 0 identifiers) found
    → All (IsEvidence env d.evaluation_id identifiers) rows × (length rows ≡ length found)
unfolding evidence_rows
evidence_rows-IsEvidence env d n identifiers [] rows h hs =
    (let e : rows ≡ [] = cc in (rw e tt, rw e))
evidence_rows-IsEvidence env d n identifiers (c ∷ found) rows h (k, ks) =
    let finish = λ (completed_at : ℕ) (rest : List EvidenceRow).
      (let z : Result QueueError (List EvidenceRow) =
          ok (evidence_row env d n c completed_at ∷ rest) in
        z) in
    let (completed_at, e₁, h₁) =
      >>=-eq-ok (or_raise source_unavailable c.source_record.completed_at)
        (λ t. evidence_rows env d (suc n) found >>= finish t) h in
    let (rest, e₂, h₂) = >>=-eq-ok (evidence_rows env d (suc n) found) (finish completed_at) h₁ in
    let ih = evidence_rows-IsEvidence env d (suc n) identifiers found rest e₂ ks in
    let same : rows ≡ evidence_row env d n c completed_at ∷ rest = cc in
    let same_length = ih.1 in
    rw same (
      (evidence_row-IsEvidence env d n identifiers c completed_at k, ih.0),
      omega (arith, same_length),
    )

IsEvidence-of :
    (env : Env) (d : Draw) (identifiers : List SubmittedIdentifier) (r : Submitted)
    (rows : List EvidenceRow)
    → r ≡ record { evaluation_id = d.evaluation_id; evaluated_at = d.evaluated_at; created = true }
    → All (IsEvidence env d.evaluation_id identifiers) rows
    → All (IsEvidence env r.evaluation_id identifiers) rows
IsEvidence-of env d identifiers r rows returned evidence = rw returned evidence

-- A submission that creates an evaluation appends evidence rows of that evaluation only, and each
-- of them has at least one match basis, all of them matches of the identifier at the row's input
-- position; its class is `exact` exactly if that identifier is a UPC. The evaluation has candidates
-- exactly if there is a row.
pub created-IsEvidence :
    (env : Env) (q : Request) (d : Draw) (s : Queue) (r : Submitted)
    → (submit env q d s).0 ≡ ok r
    → r.created ≡ true
    → (e : Evaluation) × (rows : List EvidenceRow) × ((submit env q d s).1.evaluations
        ≡ s.evaluations ++ e ∷ [])
      × ((submit env q d s).1.rows ≡ s.rows ++ rows)
      × (e.has_candidates ≡ not (length rows == 0))
      × All (IsEvidence env r.evaluation_id q.identifiers) rows
unfolding insert_evaluation
created-IsEvidence env q d s r h fresh =
    let c =
      Outcome-Created env q d s r _ (submit_body-Outcome env q d s r _ (submit-eq-ok env q d s h))
        fresh in
    let candidates = candidate_rows-IsCandidate env 0 q.identifiers _ c.found c.matched in
    let (evidence, same_length) =
      evidence_rows-IsEvidence env d 0 q.identifiers c.found c.rows c.complete candidates in
    (
      new_evaluation env q d c.revision c.found (s.committed_queue_count + 1),
      c.rows,
      rw c.stored,
      rw c.stored,
      rw same_length,
      IsEvidence-of env d q.identifiers r c.rows c.returned evidence,
    )
