-- ===== src/Ingest/Reading.antt =====
-- What a parse that succeeds has checked.
use agent_data_oracle.Base.{
  ℕ, ◌≡◌, refl, ap, sym, subst, ◌∙◌, Text, codes, true, false, not, Option, some, none, List, [],
  ◌∷◌, arith, length, map, any, All, is_empty, Result, ok, ◌>>=◌, ◌>>◌, >>=-eq-ok, raise_if,
  raise_if-eq-ok, or_raise, or_raise-eq-ok,
}
use agent_data_oracle.Base.Int.{ℤ, eq_ℤ}
use agent_data_oracle.Json.{Json, Fields, get, as_object, as_array}
use agent_data_oracle.Ingest.{CpscRecord, SplitUrl, IngestEnv, IngestError, invalid, value_error}
use agent_data_oracle.Ingest.Records.{
  require_text, required_text, optional_source_literal, as_integer, is_official, read_literals,
  read_fields, read_records, miscounted, parse_source_records,
}

-- A record stands on the object that it was read from.
pub record IsRead (env : IngestEnv) (r : CpscRecord) : Type 0 where
  pub split : SplitUrl
  pub identified : get (codes "RecallID") r.raw_record ≡ Json.integer r.recall_id
  pub numbered : get (codes "RecallNumber") r.raw_record ≡ Json.text r.recall_number
  pub has_number : is_empty r.recall_number ≡ false
  pub linked : get (codes "URL") r.raw_record ≡ Json.text r.official_url
  pub understood : env.urlsplit r.official_url ≡ some split
  pub official : is_official split ≡ true
  pub canonical : r.canonical_json ≡ env.canonical r.raw_record
  pub hashed : env.sha256 r.canonical_json ≡ some r.content_hash

require_text-eq-ok :
    (code : Text) (v : Json) (t : Text)
    → require_text code v ≡ ok t
    → (v ≡ Json.text t) × (is_empty t ≡ false)
unfolding require_text
require_text-eq-ok code (Json.text []) t h = cc
require_text-eq-ok code (Json.text (c ∷ u)) t h =
    let same : c ∷ u ≡ t = ground arith in (ap Json.text same, rw (sym same))
require_text-eq-ok code Json.null t h = cc
require_text-eq-ok code (Json.boolean b) t h = cc
require_text-eq-ok code (Json.integer n) t h = cc
require_text-eq-ok code (Json.real u) t h = cc
require_text-eq-ok code (Json.array vs) t h = cc
require_text-eq-ok code (Json.object fs) t h = cc

as_integer-eq-some : (v : Json) (n : ℤ) → as_integer v ≡ some n → v ≡ Json.integer n
as_integer-eq-some (Json.integer m) n h = ground arith
as_integer-eq-some Json.null n h = cc
as_integer-eq-some (Json.boolean b) n h = cc
as_integer-eq-some (Json.real u) n h = cc
as_integer-eq-some (Json.text u) n h = cc
as_integer-eq-some (Json.array vs) n h = cc
as_integer-eq-some (Json.object fs) n h = cc

as_object-eq-some : (v : Json) (fs : Fields) → as_object v ≡ some fs → v ≡ Json.object fs
as_object-eq-some (Json.object gs) fs h = ground arith
as_object-eq-some Json.null fs h = cc
as_object-eq-some (Json.boolean b) fs h = cc
as_object-eq-some (Json.integer n) fs h = cc
as_object-eq-some (Json.real u) fs h = cc
as_object-eq-some (Json.text u) fs h = cc
as_object-eq-some (Json.array vs) fs h = cc

abbrev built : CpscRecord → Result IngestError CpscRecord
built r = ok r

abbrev all_read : List CpscRecord → Result IngestError (List CpscRecord)
all_read rs = ok rs

-- What the construction of a record gives.
abbrev Built : IngestEnv → Fields → ℤ → Text → CpscRecord → Type 0
Built env fields recall_id url r =
    (r.raw_record ≡ fields)
    × (r.recall_id ≡ recall_id)
    × (r.official_url ≡ url)
    × (r.canonical_json ≡ env.canonical fields)
    × (get (codes "RecallNumber") fields ≡ Json.text r.recall_number)
    × (is_empty r.recall_number ≡ false)
    × (env.sha256 (env.canonical fields) ≡ some r.content_hash)

read_literals-Built :
    (env : IngestEnv) (fields : Fields) (recall_id : ℤ) (url : Text) (r : CpscRecord)
    → read_literals env fields recall_id url ≡ ok r
    → Built env fields recall_id url r
unfolding read_literals required_text
read_literals-Built env fields recall_id url r h =
    let build = λ (number : Text) (date published : Option Text) (hash : Text). built (record {
      recall_id = recall_id;
      recall_number = number;
      recall_date_literal = date;
      last_publish_date_literal = published;
      official_url = url;
      raw_record = fields;
      canonical_json = env.canonical fields;
      content_hash = hash;
    }) in
    let dated = λ (number : Text) (date : Option Text).
      optional_source_literal fields (codes "LastPublishDate") (codes "invalid_LastPublishDate")
      >>= λ published.
          or_raise value_error (env.sha256 (env.canonical fields))
          >>= build number date published in
    let (number, e₁, h₁) =
      >>=-eq-ok (require_text (codes "missing_RecallNumber") (get (codes "RecallNumber") fields))
        (λ number.
          optional_source_literal fields (codes "RecallDate") (codes "invalid_RecallDate")
          >>= dated number)
        h in
    let (date, _, h₂) =
      >>=-eq-ok (optional_source_literal fields (codes "RecallDate") (codes "invalid_RecallDate"))
        (dated number) h₁ in
    let (published, _, h₃) =
      >>=-eq-ok
        (optional_source_literal fields (codes "LastPublishDate") (codes "invalid_LastPublishDate"))
        (λ published.
          or_raise value_error (env.sha256 (env.canonical fields)) >>= build number date published)
        h₂ in
    let (hash, e₄, h₄) =
      >>=-eq-ok (or_raise value_error (env.sha256 (env.canonical fields)))
        (build number date published) h₃ in
    let (numbered, full) = require_text-eq-ok (codes "missing_RecallNumber") _ number e₁ in
    let hashed = or_raise-eq-ok value_error _ e₄ in
    let same : number ≡ r.recall_number = ground arith in
    let same_hash : hash ≡ r.content_hash = ground arith in
    (
      ground arith,
      ground arith,
      ground arith,
      ground arith,
      numbered ∙ ap Json.text same,
      ap is_empty (sym same) ∙ full,
      hashed ∙ ap some same_hash,
    )

-- A record that is read is new, and holds what its object says.
read_fields-IsRead :
    (env : IngestEnv) (seen : List ℤ) (fields : Fields) (r : CpscRecord)
    → read_fields env seen fields ≡ ok r
    → IsRead env r × (r.raw_record ≡ fields) × (any (eq_ℤ r.recall_id) seen ≡ false)
unfolding read_fields required_text
read_fields-IsRead env seen fields r h =
    let linked = λ (i : ℤ) (url : Text). or_raise value_error (env.urlsplit url) >>= λ split.
    raise_if (not (is_official split)) (invalid (codes "official_notice_provenance_invalid"))
    >> read_literals env fields i url in
    let located =
      λ (i : ℤ). require_text (codes "missing_URL") (get (codes "URL") fields) >>= linked i in
    let (i, e₁, h₁) =
      >>=-eq-ok
        (or_raise (invalid (codes "missing_RecallID")) (as_integer (get (codes "RecallID") fields)))
        (λ i. raise_if (any (eq_ℤ i) seen) (invalid (codes "duplicate_RecallID")) >> located i) h in
    let (_, e₂, h₂) =
      >>=-eq-ok (raise_if (any (eq_ℤ i) seen) (invalid (codes "duplicate_RecallID")))
        (λ _. located i) h₁ in
    let (url, e₃, h₃) =
      >>=-eq-ok (require_text (codes "missing_URL") (get (codes "URL") fields)) (linked i) h₂ in
    let (split, e₄, h₄) =
      >>=-eq-ok (or_raise value_error (env.urlsplit url))
        (λ split.
          raise_if (not (is_official split)) (invalid (codes "official_notice_provenance_invalid"))
          >> read_literals env fields i url)
        h₃ in
    let (_, e₅, h₅) =
      >>=-eq-ok
        (raise_if (not (is_official split)) (invalid (codes "official_notice_provenance_invalid")))
        (λ _. read_literals env fields i url) h₄ in
    let (raw, same_id, same_url, canonical, numbered, full, hashed) =
      read_literals-Built env fields i url r h₅ in
    let (has_url, _) = require_text-eq-ok (codes "missing_URL") _ url e₃ in
    let split_found = or_raise-eq-ok value_error (env.urlsplit url) e₄ in
    let new = raise_if-eq-ok _ _ e₂ in
    let official = raise_if-eq-ok _ _ e₅ in
    (
      record {
        split = split;
        identified =
            ap (get (codes "RecallID")) raw
            ∙ as_integer-eq-some _ i (or_raise-eq-ok (invalid (codes "missing_RecallID")) _ e₁)
            ∙ ap Json.integer (sym same_id);
        numbered = ap (get (codes "RecallNumber")) raw ∙ numbered;
        has_number = full;
        linked = ap (get (codes "URL")) raw ∙ has_url ∙ ap Json.text (sym same_url);
        understood = ap env.urlsplit same_url ∙ split_found;
        official = ground arith;
        canonical = canonical ∙ ap env.canonical (sym raw);
        hashed = ap env.sha256 canonical ∙ hashed;
      },
      raw,
      ap (λ n. any (eq_ℤ n) seen) same_id ∙ new,
    )

abbrev pub Distinct : List CpscRecord → Type 0
Distinct [] = Unit
Distinct (r ∷ rs) = (any (λ x. eq_ℤ x.recall_id r.recall_id) rs ≡ false) × Distinct rs

any-All-false :
    (i : ℤ) (seen : List ℤ) (rs : List CpscRecord)
    → All (λ r. any (eq_ℤ r.recall_id) (i ∷ seen) ≡ false) rs
    → (any (λ r. eq_ℤ r.recall_id i) rs ≡ false) × All (λ r. any (eq_ℤ r.recall_id) seen ≡ false) rs
any-All-false i seen [] h = (refl, tt)
any-All-false i seen (r ∷ rs) h =
    let (none_here, rest) = any-All-false i seen rs h.1 in
    (ground (arith, h.0, none_here), (ground (arith, h.0), rest))

read_records-IsRead :
    (env : IngestEnv) (seen : List ℤ) (values : List Json) (rs : List CpscRecord)
    → read_records env seen values ≡ ok rs
    → All (IsRead env) rs
      × All (λ r. any (eq_ℤ r.recall_id) seen ≡ false) rs
      × Distinct rs
      × (map (λ (r : CpscRecord). Json.object r.raw_record) rs ≡ values)
unfolding read_records
read_records-IsRead env seen [] [] h = (tt, tt, tt, refl)
read_records-IsRead env seen [] (r ∷ rs) h = cc
read_records-IsRead env seen (v ∷ vs) rs h =
    let join = λ (r : CpscRecord) (rest : List CpscRecord). all_read (r ∷ rest) in
    let (fields, e₁, h₁) =
      >>=-eq-ok (or_raise (invalid (codes "record_must_be_object")) (as_object v))
        (λ fields.
          read_fields env seen fields >>= λ r. read_records env (r.recall_id ∷ seen) vs >>= join r)
        h in
    let (r, e₂, h₂) =
      >>=-eq-ok (read_fields env seen fields)
        (λ r. read_records env (r.recall_id ∷ seen) vs >>= join r) h₁ in
    let (rest, e₃, h₃) = >>=-eq-ok (read_records env (r.recall_id ∷ seen) vs) (join r) h₂ in
    let same : r ∷ rest ≡ rs = ground arith in
    let (good, raw, new) = read_fields-IsRead env seen fields r e₂ in
    let (goods, fresh, distinct, kept) = read_records-IsRead env (r.recall_id ∷ seen) vs rest e₃ in
    let (apart, unseen) = any-All-false r.recall_id seen rest fresh in
    let is_object =
      as_object-eq-some v fields (or_raise-eq-ok (invalid (codes "record_must_be_object")) _ e₁) in
    subst
      (λ xs.
        All (IsRead env) xs
        × All (λ r. any (eq_ℤ r.recall_id) seen ≡ false) xs
        × Distinct xs
        × (map (λ (r : CpscRecord). Json.object r.raw_record) xs ≡ v ∷ vs))
      same ((good, goods), (new, unseen), (apart, distinct), rw (raw, kept, is_object))

abbrev pub Counted : Option ℕ → List CpscRecord → Type 0
Counted none records = Unit
Counted (some n) records = length records ≡ n

-- What a parse that succeeds returns.
pub record IsParsed (env : IngestEnv) (raw_response : Text) (expected : Option ℕ)
    (records : List CpscRecord) : Type 0 where
  pub value : Json
  pub loaded : env.loads raw_response ≡ some value
  pub complete : as_array value ≡ some (map (λ (r : CpscRecord). Json.object r.raw_record) records)
  pub read : All (IsRead env) records
  pub distinct : Distinct records
  pub counted : Counted expected records

length-map : (rs : List CpscRecord) (f : CpscRecord → Json) → length (map f rs) ≡ length rs
length-map [] f = refl
length-map (r ∷ rs) f = omega (arith, length-map rs f)

-- If a response is parsed, then it is a JSON array of the records' own objects in their order, none
-- left out; each record holds the recall identifier, the number and the official URL of its object,
-- the last on a CPSC host by https, with the hash of its canonical form; no two share a recall; and
-- their number is the expected one, if any is given.
pub parse_source_records-IsParsed :
    (env : IngestEnv) (raw_response : Text) (expected : Option ℕ) (records : List CpscRecord)
    → parse_source_records env raw_response expected ≡ ok records
    → IsParsed env raw_response expected records
unfolding parse_source_records
parse_source_records-IsParsed env raw expected records h =
    let read = λ (document : List Json).
      raise_if (miscounted expected document) (invalid (codes "record_count_mismatch"))
      >> read_records env [] document in
    let (value, e₁, h₁) =
      >>=-eq-ok (or_raise (invalid (codes "invalid_json")) (env.loads raw))
        (λ value. or_raise (invalid (codes "expected_record_array")) (as_array value) >>= read) h in
    let (document, e₂, h₂) =
      >>=-eq-ok (or_raise (invalid (codes "expected_record_array")) (as_array value)) read h₁ in
    let (_, e₃, h₃) =
      >>=-eq-ok (raise_if (miscounted expected document) (invalid (codes "record_count_mismatch")))
        (λ _. read_records env [] document) h₂ in
    let (good, _, distinct, same) = read_records-IsRead env [] document records h₃ in
    let fits = raise_if-eq-ok _ _ e₃ in
    record {
      value = value;
      loaded = or_raise-eq-ok (invalid (codes "invalid_json")) _ e₁;
      complete = or_raise-eq-ok (invalid (codes "expected_record_array")) _ e₂ ∙ ap some (sym same);
      read = good;
      distinct = distinct;
      counted =
          count expected document fits
            (sym (length-map records (λ r. Json.object r.raw_record)) ∙ ap (λ vs. length vs) same);
    }
  where
    count :
        (e : Option ℕ) (document : List Json)
        → miscounted e document ≡ false
        → length records ≡ length document
        → Counted e records
    count none document f l = tt
    count (some n) document f l = ground arith
