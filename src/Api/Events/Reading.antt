-- ===== src/Api/Events/Reading.antt =====
-- `sync_group` of services/core-api/src/lib.rs: reading on behind a page, later and in a log that has
-- grown.
use resilient_messenger.Prelude.{
  ℕ, ◌≤◌, ◌<◌, ◌≡◌, refl, sym, ap, ◌∙◌, subst, Bool, true, false, ◌&&◌, ltb, leb, List, [], ◌∷◌,
  ◌++◌, append_cut, append-nil, map, All, All-take, Bytes, length, length-append, take, ok, arith,
  inl, inr, Bool-cases,
}
use resilient_messenger.Core.Sql.{exists_where, select_where, All-select_where, select_where_same}
use resilient_messenger.Api.{ℤ, pos, clamp_batch, EventRow, Backend}
use resilient_messenger.Api.Groups.{is_active_group_member}
use resilient_messenger.Api.Events.{sync_event, sync_group}
use resilient_messenger.Api.Events.Uploads.{IsRising, IsLog}
use resilient_messenger.Api.Events.Pages.{
  beyond, last_of, last_of-le, select_above, All-beyond, is_live, unseen, sync_group_pages,
}

All-front : {A : Type 0} (P : A → Type 0) (xs ys : List A) → All P (xs ++ ys) → All P ys
All-front P [] ys h = h
All-front P (x ∷ xs) ys h = All-front P xs ys h.1

All-both :
    {A : Type 0} (P Q R : A → Type 0) (xs : List A)
    → ((x : A) → P x → Q x → R x)
    → All P xs
    → All Q xs
    → All R xs
All-both P Q R [] f p q = tt
All-both P Q R (x ∷ xs) f p q = (f x p.0 q.0, All-both P Q R xs f p.1 q.1)

All-always : {A : Type 0} (P : A → Type 0) (xs : List A) → ((x : A) → P x) → All P xs
All-always P [] f = tt
All-always P (x ∷ xs) f = (f x, All-always P xs f)

module _ {A : Type 0} where
  select_where-append :
      (p : A → Bool) (xs ys : List A)
      → select_where p (xs ++ ys) ≡ select_where p xs ++ select_where p ys
  unfolding select_where
  select_where-append p [] ys = refl
  select_where-append p (x ∷ xs) ys = ground (arith, select_where-append p xs ys)

  select_where-select_where :
      (p q : A → Bool) (xs : List A)
      → select_where p (select_where q xs) ≡ select_where (λ x. q x && p x) xs
  unfolding select_where
  select_where-select_where p q [] = refl
  select_where-select_where p q (x ∷ xs) = elim (Bool-cases (q x)) [
    | inl e ↦ rw e (rw (select_where-select_where p q xs) refl)
    | inr e ↦ rw e (select_where-select_where p q xs)
  ]

  select_where_none :
      (p : A → Bool) (xs : List A) → All (λ x. p x ≡ false) xs → select_where p xs ≡ []
  unfolding select_where
  select_where_none p [] h = refl
  select_where_none p (x ∷ xs) h = rw (h.0, select_where_none p xs h.1) refl

-- The rows beyond one cursor and up to another.
abbrev within : (EventRow → Bool) → ℕ → ℕ → EventRow → Bool
within r a b e = beyond r a e && leb e.event_cursor b

module _ (r : EventRow → Bool) (a b : ℕ) (le : a ≤ b) where
  -- Rising rows beyond a cursor are those up to a later cursor, and then those beyond it.
  select_where-within :
      (es : List EventRow)
      → IsRising es
      → select_where (within r a b) es ++ select_where (beyond r b) es
        ≡ select_where (beyond r a) es
  unfolding select_where
  select_where-within [] h = refl
  select_where-within (e ∷ es) h = elim (Bool-cases (leb e.event_cursor b)) [
    | inl low ↦
        (let gone : beyond r b e ≡ false = ground arith in
          let same : within r a b e ≡ beyond r a e = ground arith in
          rw (gone, same)
            (elim (Bool-cases (beyond r a e)) [
              | inl k ↦ rw k (ap (λ l. e ∷ l) (select_where-within es h.1))
              | inr k ↦ rw k (select_where-within es h.1)
            ]))
    | inr high ↦
        (let gone : within r a b e ≡ false = ground arith in
          let same : beyond r a e ≡ beyond r b e = ground arith in
          let above : All (λ f. b < f.event_cursor) es =
            All-both (λ f. e.event_cursor < f.event_cursor) (λ f. Unit {0}) _ es
              (λ f k u. ground arith) h.0 (All-always _ es (λ f. tt)) in
          let none_within = select_where_none (within r a b) es (
            All-both (λ f. b < f.event_cursor) (λ f. Unit {0}) _ es (λ f k u. ground arith) above
              (All-always _ es (λ f. tt))) in
          let rest = select_above r a b es le above in rw (gone, same, none_within, rest) refl)
  ]

-- Rows that were there before are below rows that came later.
older_below :
    (es more : List EventRow)
    → IsRising (es ++ more)
    → All (λ e. All (λ f. e.event_cursor < f.event_cursor) more) es
older_below [] more h = tt
older_below (e ∷ es) more h =
    (All-front (λ f. e.event_cursor < f.event_cursor) es more h.0, older_below es more h.1)

last_below :
    (q : EventRow → Bool) (after : ℕ) (page more : List EventRow)
    → All (λ e. All (λ f. e.event_cursor < f.event_cursor) more) page
    → All (λ f. after < f.event_cursor → last_of q after page < f.event_cursor) more
last_below q after [] more h = All-always _ more (λ f k. k)
last_below q after (e ∷ page) more h =
    All-both (λ f. e.event_cursor < f.event_cursor)
      (λ f. e.event_cursor < f.event_cursor → last_of q e.event_cursor page < f.event_cursor) _ more
      (λ f low next k. next low) h.0 (last_below q e.event_cursor page more h.1)

module _ (q r : EventRow → Bool) (sub : (e : EventRow) → r e ≡ true → q e ≡ true) (after n : ℕ)
    (es more : List EventRow) (rising : IsRising es) (grown : IsRising (es ++ more)) where
  abbrev rows : List EventRow
  rows = select_where (beyond q after) es

  abbrev page : List EventRow
  page = take n rows

  abbrev last : ℕ
  last = last_of q after page

  after-le : after ≤ last
  after-le =
      last_of-le q after after page (omega arith)
        (All-take (λ f. after ≤ f.event_cursor) n rows (All-beyond q after es))

  -- The page is what stands up to its last cursor.
  page_is :
      page ++ select_where (beyond q last) es ≡ rows → page ≡ select_where (within q after last) es
  page_is complete =
      let parts = select_where-within q after last after-le es rising in
      let both : page ++ select_where (beyond q last) es
          ≡ select_where (within q after last) es ++ select_where (beyond q last) es =
        complete ∙ sym parts in
      let long : length page ≡ length (select_where (within q after last) es) = omega (
        arith,
        ap length both,
        length-append page (select_where (beyond q last) es),
        length-append (select_where (within q after last) es) (select_where (beyond q last) es),
      ) in
      (append_cut page (select_where (within q after last) es) _ _ long both).0

  reads_on :
      page ++ select_where (beyond q last) es ≡ rows
      → select_where r page ++ select_where (beyond r last) (es ++ more)
        ≡ select_where (beyond r after) (es ++ more)
  reads_on complete =
      let kept : select_where r page ≡ select_where (within r after last) es =
        ap (select_where r) (page_is complete)
        ∙ select_where-select_where r (within q after last) es
        ∙ select_where_same (λ e. within q after last e && r e) (within r after last) es
            (λ e. ground (arith, sub e)) in
      let behind =
        last_below q after page more (
          All-take _ n rows (All-select_where _ (beyond q after) es (older_below es more grown))) in
      let none_new : select_where (within r after last) more ≡ [] =
        select_where_none (within r after last) more (
          All-both (λ f. after < f.event_cursor → last_of q after page < f.event_cursor)
            (λ f. Unit {0}) _ more (λ f k u. not_within f k) behind
            (All-always _ more (λ f. tt))) in
      let all : select_where (within r after last) (es ++ more) ≡ select_where r page =
        select_where-append (within r after last) es more ∙ rw none_new (append-nil _) ∙ sym kept in
      rw (← all) (select_where-within r after last after-le (es ++ more) grown)
    where
      not_within :
          (f : EventRow)
          → (after < f.event_cursor → last < f.event_cursor)
          → within r after last f ≡ false
      not_within f k = elim (Bool-cases (ltb after f.event_cursor)) [
        | inl beyond_it ↦ (let high = k (ground arith) in ground arith)
        | inr before ↦ ground arith
      ]

-- An active member of a group reads a page from a log in order: the first events behind `after` that
-- are not expired, up to the clamped limit. Later, when the log may have grown, the events behind
-- `after` that are not expired by then are those of the page that are not expired by then, followed
-- by those behind the last cursor of the page: reading on behind that cursor repeats no event, and
-- misses only events that expired before they were read, of which the answer says nothing.
pub sync_group_reads_on :
    (device group : Bytes) (after now : ℕ) (limit : ℤ) (db : Backend)
    → IsLog db
    → exists_where (is_active_group_member group device) db.members ≡ true
    → (page : List EventRow) × (sync_group device group (pos after) limit now db
        ≡ ok (map sync_event page))
      × (page ≡ take (clamp_batch limit) (unseen group now after db))
      × ((later : ℕ) (db' : Backend) (more : List EventRow)
          → now ≤ later
          → IsLog db'
          → db'.events ≡ db.events ++ more
          → select_where (is_live group later) page
              ++ unseen group later (last_of (is_live group now) after page) db'
            ≡ unseen group later after db')
sync_group_reads_on device group after now limit db log member =
    let q = is_live group now in
    let rows = unseen group now after db in
    let page = take (clamp_batch limit) rows in
    let (given, answer, complete, is) =
      sync_group_pages device group after now limit db log member in
    let complete_page : page ++ unseen group now (last_of q after page) db ≡ rows =
      subst (λ p. p ++ unseen group now (last_of q after p) db ≡ rows) is complete in
    (
      page,
      subst (λ p. sync_group device group (pos after) limit now db ≡ ok (map sync_event p)) is
          answer,
      refl,
      λ later db' more no_earlier log' grown.
          subst
            (λ es.
              select_where (is_live group later) page
                ++ select_where (beyond (is_live group later) (last_of q after page)) es
              ≡ select_where (beyond (is_live group later) after) es)
            (sym grown)
            (reads_on q (is_live group later) (λ e k. ground arith) after (clamp_batch limit)
              db.events more log.rising (subst IsRising grown log'.rising) complete_page),
    )
