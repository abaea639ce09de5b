-- ===== src/Segments/Tags.antt =====
-- The tags of a document are what was last set.
use enterprise_document_inte.Base.{
  ℕ, ◌≡◌, ◌⊎◌, refl, ap, sym, ◌∙◌, inl, inr, Bool, true, false, not, ◌&&◌, List, [], ◌∷◌, ◌++◌, map,
  arith, filter, filter-append, contains, any, ◌==◌, if◌then◌else◌, Bool-cases, ==_iff,
}
use mathlib.Core.List.{append-nil}
use enterprise_document_inte.Errors.{Error}
use enterprise_document_inte.Models.{Db, DocumentSegment}
use enterprise_document_inte.Session.{Session, ok, err}
use mathlib.Core.Bool.{false≢true}
use enterprise_document_inte.Segments.{
  fromkeys, has_segment, validate_segment_ids, replace_document_segments, segments_for_documents,
  is_tag_of, document_tag, is_document_tagged,
}

contains-filter :
    (a : ℕ) (p : ℕ → Bool) (xs : List ℕ) → contains a (filter p xs) ≡ (p a && contains a xs)
contains-filter a p [] = ground arith
contains-filter a p (x ∷ xs) = elim (Bool-cases (x == a)) [
  | inl e ↦ ground (arith, contains-filter a p xs, ap p ((==_iff x a).0 e))
  | inr other ↦ ground (arith, contains-filter a p xs)
]

-- The same ids, each once.
contains-fromkeys : (a : ℕ) (ids : List ℕ) → contains a (fromkeys ids) ≡ contains a ids
unfolding fromkeys
contains-fromkeys a [] = refl
contains-fromkeys a (id ∷ ids) =
    ground (
      arith,
      contains-filter a (λ other. not (other == id)) (fromkeys ids),
      contains-fromkeys a ids,
    )

abbrev pub NoRepeats : List ℕ → Type 0
NoRepeats [] = Unit
NoRepeats (id ∷ ids) = (contains id ids ≡ false) × NoRepeats ids

NoRepeats-filter : (p : ℕ → Bool) (ids : List ℕ) → NoRepeats ids → NoRepeats (filter p ids)
NoRepeats-filter p [] h = tt
NoRepeats-filter p (id ∷ ids) h =
    ground (arith, contains-filter id p ids, h.0, NoRepeats-filter p ids h.1)

pub fromkeys-NoRepeats : (ids : List ℕ) → NoRepeats (fromkeys ids)
unfolding fromkeys
fromkeys-NoRepeats [] = tt
fromkeys-NoRepeats (id ∷ ids) = (
  ground (arith, contains-filter id (λ other. not (other == id)) (fromkeys ids)),
  NoRepeats-filter (λ other. not (other == id)) (fromkeys ids) (fromkeys-NoRepeats ids),
)

filter_of_map :
    (p : DocumentSegment → Bool) (f : ℕ → DocumentSegment) (b : Bool) (ids : List ℕ)
    → ((id : ℕ) → p (f id) ≡ b)
    → filter p (map f ids) ≡ (if b then map f ids else [])
filter_of_map p f true [] h = refl
filter_of_map p f false [] h = refl
filter_of_map p f true (id ∷ ids) h = ground (arith, h id, filter_of_map p f true ids h)
filter_of_map p f false (id ∷ ids) h = ground (arith, h id, filter_of_map p f false ids h)

filter_twice :
    {A : Type 0} (p q : A → Bool) (xs : List A) (b : Bool)
    → ((x : A) → p x ≡ true → q x ≡ b)
    → filter p (filter q xs) ≡ (if b then filter p xs else [])
filter_twice p q [] true h = refl
filter_twice p q [] false h = refl
filter_twice p q (x ∷ xs) true h = ground (arith, h x, filter_twice p q xs true h)
filter_twice p q (x ∷ xs) false h = ground (arith, h x, filter_twice p q xs false h)

ids_of_tags :
    (tenant_id document_id : ℕ) (ids : List ℕ)
    → map (λ (row : DocumentSegment). row.segment_id) (map (document_tag tenant_id document_id) ids)
      ≡ ids
ids_of_tags tenant_id document_id [] = refl
ids_of_tags tenant_id document_id (id ∷ ids) =
    ap (λ l. id ∷ l) (ids_of_tags tenant_id document_id ids)

-- The tags of a document in a table.
abbrev pub tags_of : Db → ℕ → ℕ → List ℕ
tags_of db tenant_id document_id =
    segments_for_documents db tenant_id (document_id ∷ []) document_id

abbrev retagged : ℕ → ℕ → List ℕ → List DocumentSegment → List DocumentSegment
retagged tenant_id document_id ids rows =
    filter (λ row. not (is_tag_of tenant_id document_id row)) rows
    ++ map (document_tag tenant_id document_id) ids

retagged_same :
    (tenant_id document_id : ℕ) (ids : List ℕ) (rows : List DocumentSegment)
    → filter (is_tag_of tenant_id document_id) (retagged tenant_id document_id ids rows)
      ≡ map (document_tag tenant_id document_id) ids
retagged_same tenant_id document_id ids rows =
    let mine = is_tag_of tenant_id document_id in
    let tags = map (document_tag tenant_id document_id) ids in
    filter-append mine (filter (λ row. not (mine row)) rows) tags ∙ (λ i.
      filter_twice mine (λ row. not (mine row)) rows false (λ x h. rw h refl) i
      ++ filter_of_map mine (document_tag tenant_id document_id) true ids (λ id. ground arith) i)

retagged_other :
    (tenant_id document_id other : ℕ) (ids : List ℕ) (rows : List DocumentSegment)
    → (other == document_id) ≡ false
    → filter (is_tag_of tenant_id other) (retagged tenant_id document_id ids rows)
      ≡ filter (is_tag_of tenant_id other) rows
retagged_other tenant_id document_id other ids rows ne =
    let mine = is_tag_of tenant_id document_id in
    let theirs = is_tag_of tenant_id other in
    let tags = map (document_tag tenant_id document_id) ids in
    filter-append theirs (filter (λ row. not (mine row)) rows) tags
    ∙ (λ i.
        filter_twice theirs (λ row. not (mine row)) rows true (λ x h. ground arith) i
        ++ filter_of_map theirs (document_tag tenant_id document_id) false ids (λ id. ground arith)
            i)
    ∙ append-nil (filter theirs rows)

-- Every id is of a segment of the tenant.
abbrev pub AllKnown : Db → ℕ → List ℕ → Type 0
AllKnown db tenant_id ids = (a : ℕ) → contains a ids ≡ true → has_segment db tenant_id a ≡ true

filter_empty :
    (p : ℕ → Bool) (ids : List ℕ)
    → filter p ids ≡ []
    → (a : ℕ) → contains a ids ≡ true
    → p a ≡ false
filter_empty p ids h a k = elim (Bool-cases (p a)) [
  | inl held ↦
      absurd
        (false≢true (sym (ap (contains a) h) ∙ contains-filter a p ids ∙ ground (arith, held, k)))
  | inr lacks ↦ lacks
]

List-cases : {A : Type 0} (xs : List A) → (xs ≡ []) ⊎ ((x : A) × (rest : List A) × (xs ≡ x ∷ rest))
List-cases [] = inl refl
List-cases (x ∷ xs) = inr (x, xs, refl)

abbrev pub with_tags : ℕ → ℕ → List ℕ → Db → Db
with_tags tenant_id document_id ids db = record db {
  document_segments = retagged tenant_id document_id ids db.document_segments;
}

tags_of-with_tags :
    (tenant_id document_id : ℕ) (ids : List ℕ) (db : Db)
    → tags_of (with_tags tenant_id document_id ids db) tenant_id document_id ≡ ids
unfolding segments_for_documents
tags_of-with_tags tenant_id document_id ids db = ground (
  arith,
  retagged_same tenant_id document_id ids db.document_segments,
  ids_of_tags tenant_id document_id ids,
)

tags_of-with_tags_other :
    (tenant_id document_id other : ℕ) (ids : List ℕ) (db : Db)
    → (other == document_id) ≡ false
    → tags_of (with_tags tenant_id document_id ids db) tenant_id other ≡ tags_of db tenant_id other
unfolding segments_for_documents
tags_of-with_tags_other tenant_id document_id other ids db ne =
    ground (arith, retagged_other tenant_id document_id other ids db.document_segments ne)

-- The document has the tag, from whichever tenant.
abbrev pub has_tag : Db → ℕ → ℕ → Bool
has_tag db document_id sid =
    any (λ (row : DocumentSegment). row.document_id == document_id && row.segment_id == sid)
      db.document_segments

clash_found :
    (document_id : ℕ) (ids : List ℕ) (rows : List DocumentSegment)
    → any (is_document_tagged document_id ids) rows ≡ true
    → (sid : ℕ) × (contains sid ids ≡ true)
      × (any
            (λ (row : DocumentSegment). row.document_id == document_id && row.segment_id == sid)
            rows
          ≡ true)
clash_found document_id ids [] h = absurd (ground arith)
clash_found document_id ids (row ∷ rows) h =
    elim (Bool-cases (is_document_tagged document_id ids row)) [
      | inl here ↦ (row.segment_id, ground (arith, here), ground (arith, here))
      | inr other ↦
          let (sid, wanted, found) = clash_found document_id ids rows (ground (arith, other)) in
          (sid, wanted, ground (arith, found))
    ]

no_clash :
    (document_id : ℕ) (ids : List ℕ) (rows : List DocumentSegment)
    → any (is_document_tagged document_id ids) rows ≡ false
    → (sid : ℕ) → contains sid ids ≡ true
    → any (λ (row : DocumentSegment). row.document_id == document_id && row.segment_id == sid) rows
      ≡ false
no_clash document_id ids [] h sid k = refl
no_clash document_id ids (row ∷ rows) h sid k = elim (Bool-cases (row.segment_id == sid)) [
  | inl e ↦ ground (
    arith,
    no_clash document_id ids rows (ground arith) sid k,
    ap (λ a. contains a ids) ((==_iff row.segment_id sid).0 e),
  )
  | inr other ↦ ground (arith, other, no_clash document_id ids rows (ground arith) sid k)
]

-- What a replacement does to the session.
pub replace_document_segments_exact :
    (tenant_id document_id : ℕ) (segment_ids : List ℕ) (s : Session)
    → (replace_document_segments tenant_id document_id segment_ids s ≡ (
      ok (fromkeys segment_ids),
      record s { db = with_tags tenant_id document_id (fromkeys segment_ids) s.db },
    ))
      ⊎ (replace_document_segments tenant_id document_id segment_ids s ≡ (err Error.not_found, s))
      ⊎ (replace_document_segments tenant_id document_id segment_ids s ≡ (err Error.integrity, s))
unfolding replace_document_segments validate_segment_ids
replace_document_segments_exact tenant_id document_id segment_ids s =
    let unknown : ℕ → Bool = λ sid. not (has_segment s.db tenant_id sid) in
    elim (List-cases (filter unknown (fromkeys segment_ids))) [
      | inl all ↦
          elim (Bool-cases
            (any (is_document_tagged document_id (fromkeys segment_ids)) s.document_segments)) [
              | inl clash ↦ inr (inr (ground arith))
              | inr free ↦ inl (ground arith)
            ]
      | inr (a, rest, missing) ↦ inr (inl (ground arith))
    ]

-- What a replacement comes to, whichever way it ends.
abbrev pub Retagged : ℕ → ℕ → List ℕ → Session → Type 0
Retagged tenant_id document_id segment_ids s =
    let after = replace_document_segments tenant_id document_id segment_ids s in
    (AllKnown s.db tenant_id segment_ids
      × ((sid : ℕ) → contains sid segment_ids ≡ true → has_tag s.db document_id sid ≡ false)
      × (after.0 ≡ ok (fromkeys segment_ids))
      × (tags_of after.1.db tenant_id document_id ≡ fromkeys segment_ids)
      × NoRepeats (fromkeys segment_ids)
      × ((other : ℕ)
          → (other == document_id) ≡ false
          → tags_of after.1.db tenant_id other ≡ tags_of s.db tenant_id other))
    ⊎ ((unknown : ℕ) × (contains unknown segment_ids ≡ true)
        × (has_segment s.db tenant_id unknown ≡ false)
        × (after ≡ (err Error.not_found, s)))
    ⊎ (AllKnown s.db tenant_id segment_ids
        × ((sid : ℕ) × (contains sid segment_ids ≡ true)
            × (has_tag s.db document_id sid ≡ true)
            × (after ≡ (err Error.integrity, s))))

-- To replace the tags of a document either sets them, or does nothing but raise. It sets them if every
-- id is of a segment of the tenant and none is a tag that the document has: to these ids, each once,
-- while the tags of every other document are as they were. It raises 404 if some id is not of a
-- segment of the tenant. It raises the error of the unique key if all are, and the document has one of
-- them as a tag already.
pub replace_document_segments_lem :
    (tenant_id document_id : ℕ) (segment_ids : List ℕ) (s : Session)
    → Retagged tenant_id document_id segment_ids s
unfolding replace_document_segments validate_segment_ids
replace_document_segments_lem tenant_id document_id segment_ids s =
    let unknown : ℕ → Bool = λ sid. not (has_segment s.db tenant_id sid) in
    let wanted = fromkeys segment_ids in
    elim (List-cases (filter unknown wanted)) [
      | inl all ↦
          let known : AllKnown s.db tenant_id segment_ids = λ a h.
            ground (arith, filter_empty unknown wanted all a, contains-fromkeys a segment_ids) in
          elim (Bool-cases (any (is_document_tagged document_id wanted) s.document_segments)) [
            | inl clash ↦
                let (sid, want, has) = clash_found document_id wanted s.document_segments clash in
                inr (
                  inr (
                    known,
                    (sid, sym (contains-fromkeys sid segment_ids) ∙ want, has, ground arith),
                  ))
            | inr free ↦
                let done : replace_document_segments tenant_id document_id segment_ids s
                    ≡ (ok wanted, record s { db = with_tags tenant_id document_id wanted s.db }) =
                  ground arith in
                inl (
                  known,
                  λ sid h.
                      no_clash document_id wanted s.document_segments free sid
                        (contains-fromkeys sid segment_ids ∙ h),
                  ap (λ x. x.0) done,
                  ap (λ x. tags_of x.1.db tenant_id document_id) done
                      ∙ tags_of-with_tags tenant_id document_id wanted s.db,
                  fromkeys-NoRepeats segment_ids,
                  λ other ne.
                      ap (λ x. tags_of x.1.db tenant_id other) done
                      ∙ tags_of-with_tags_other tenant_id document_id other wanted s.db ne,
                )
          ]
      | inr (a, rest, missing) ↦
          let here : contains a (filter unknown wanted) ≡ true =
            ap (contains a) missing ∙ ground arith in
          let both = contains-filter a unknown wanted in
          inr (
            inl (
              a,
              ground (arith, here, both, contains-fromkeys a segment_ids),
              ground (arith, here, both),
              ground arith,
            ))
    ]
