-- ===== src/Api/Events/Pages.antt =====
-- `sync_group` of services/core-api/src/lib.rs: reading a group page by page.
use resilient_messenger.Prelude.{
  ℕ, zero, suc, ◌≤◌, ◌<◌, ◌≡◌, refl, sym, ap, ◌∙◌, subst, inl, inr, Bool, true, false, ◌&&◌, ltb,
  Bool-cases, List, [], ◌∷◌, map, All, All-take, All-weaken, Bytes, bytes_eq, take, drop, drop-nil,
  sort_by, sort_by_ordered, IsOrdered, ◌++◌, take-append-drop, ok, arith,
}
use resilient_messenger.Core.Sql.{exists_where, select_where, All-select_where, select_where_same}
use resilient_messenger.Api.{ℤ, pos, clamp_batch, EventRow, Backend}
use resilient_messenger.Api.Groups.{is_active_group_member, assert_active_member}
use resilient_messenger.Api.Events.{sync_event, cursor_at_most, is_unseen, sync_group}
use resilient_messenger.Api.Events.Uploads.{IsRising, IsLog}

module _ (q : EventRow → Bool) where
  abbrev pub beyond : ℕ → EventRow → Bool
  beyond after e = q e && ltb after e.event_cursor

  -- The cursor of the last row of a page.
  abbrev pub last_of : ℕ → List EventRow → ℕ
  last_of after [] = after
  last_of after (e ∷ es) = last_of e.event_cursor es

  pub last_of-le :
      (b a : ℕ) (es : List EventRow) → b ≤ a → All (λ e. b ≤ e.event_cursor) es → b ≤ last_of a es
  last_of-le b a [] low h = low
  last_of-le b a (e ∷ es) low h = last_of-le b e.event_cursor es h.0 h.1

  pub All-beyond :
      (after : ℕ) (es : List EventRow)
      → All (λ e. after ≤ e.event_cursor) (select_where (beyond after) es)
  unfolding select_where
  All-beyond after [] = tt
  All-beyond after (e ∷ es) = elim (Bool-cases (beyond after e)) [
    | inl k ↦ rw k (ground arith, All-beyond after es)
    | inr k ↦ rw k (All-beyond after es)
  ]

  -- Rows that are all above the later cursor are selected alike.
  pub select_above :
      (a b : ℕ) (es : List EventRow)
      → a ≤ b
      → All (λ f. b < f.event_cursor) es
      → select_where (beyond a) es ≡ select_where (beyond b) es
  unfolding select_where
  select_above a b [] le h = refl
  select_above a b (e ∷ es) le h =
      let now : beyond a e ≡ beyond b e = ground (arith, h.0) in
      rw (now, select_above a b es le h.1) refl

  first_taken :
      (n after : ℕ) (e : EventRow) (es : List EventRow)
      → IsRising (e ∷ es)
      → beyond after e ≡ true
      → ((m : ℕ)
          → select_where
              (beyond (last_of e.event_cursor (take m (select_where (beyond e.event_cursor) es))))
              es
            ≡ drop m (select_where (beyond e.event_cursor) es))
      → select_where
          (beyond (last_of after (take n (select_where (beyond after) (e ∷ es)))))
          (e ∷ es)
        ≡ drop n (select_where (beyond after) (e ∷ es))
  unfolding select_where
  first_taken zero after e es h k rest = refl
  first_taken (suc n) after e es h k rest =
      let above : after ≤ e.event_cursor = ground arith in
      let same = select_above after e.event_cursor es above h.0 in
      let page = take n (select_where (beyond e.event_cursor) es) in
      let low : e.event_cursor ≤ last_of e.event_cursor page =
        last_of-le e.event_cursor e.event_cursor page (omega arith) (
          All-take (λ f. e.event_cursor ≤ f.event_cursor) n
            (select_where (beyond e.event_cursor) es) (All-beyond e.event_cursor es)) in
      let gone : beyond (last_of e.event_cursor page) e ≡ false = ground arith in
      let all : select_where (beyond after) (e ∷ es) ≡ e ∷ select_where (beyond e.event_cursor) es =
        rw k (ap (λ r. e ∷ r) same) in
      let cut : select_where (beyond (last_of e.event_cursor page)) (e ∷ es)
          ≡ drop n (select_where (beyond e.event_cursor) es) =
        rw gone (rest n) in
      subst (λ r. select_where (beyond (last_of after (take (suc n) r))) (e ∷ es) ≡ drop (suc n) r)
        (sym all) cut

  -- What is selected behind a page of rising rows is what the page left.
  pub select_after_page :
      (n after : ℕ) (es : List EventRow)
      → IsRising es
      → select_where (beyond (last_of after (take n (select_where (beyond after) es)))) es
        ≡ drop n (select_where (beyond after) es)
  unfolding select_where
  select_after_page n after [] h = sym (drop-nil n)
  select_after_page n after (e ∷ es) h = elim (Bool-cases (beyond after e)) [
    | inr k ↦
        let page = take n (select_where (beyond after) es) in
        let low : after ≤ last_of after page = last_of-le after after page (omega arith) (
          All-take (λ f. after ≤ f.event_cursor) n (select_where (beyond after) es)
            (All-beyond after es)) in
        let gone : beyond (last_of after page) e ≡ false = ground arith in
        let all : select_where (beyond after) (e ∷ es) ≡ select_where (beyond after) es =
          rw k refl in
        let cut : select_where (beyond (last_of after page)) (e ∷ es)
            ≡ drop n (select_where (beyond after) es) =
          rw gone (select_after_page n after es h.1) in
        subst (λ r. select_where (beyond (last_of after (take n r))) (e ∷ es) ≡ drop n r) (sym all)
          cut
    | inl k ↦ first_taken n after e es h k (λ m. select_after_page m e.event_cursor es h.1)
  ]

IsRising-IsOrdered :
    (p : EventRow → Bool) (es : List EventRow)
    → IsRising es
    → IsOrdered cursor_at_most (select_where p es)
unfolding select_where
IsRising-IsOrdered p [] h = tt
IsRising-IsOrdered p (e ∷ es) h = elim (Bool-cases (p e)) [
  | inl k ↦ rw k (
    All-select_where (λ f. cursor_at_most e f ≡ true) p es
        (All-weaken (λ f. e.event_cursor < f.event_cursor) _ es (λ f b. ground arith) h.0),
    IsRising-IsOrdered p es h.1,
  )
  | inr k ↦ rw k (IsRising-IsOrdered p es h.1)
]

-- The events of the group that are not expired.
abbrev pub is_live : Bytes → ℕ → EventRow → Bool
is_live group now e = bytes_eq e.group_id group && ltb now e.expires_at

abbrev pub unseen : Bytes → ℕ → ℕ → Backend → List EventRow
unseen group now after db = select_where (beyond (is_live group now) after) db.events

-- For an active member of a group, at one time and from a log in order, `sync_group` returns the first
-- events behind `after` that are not expired, up to the clamped limit; what stands behind the last
-- cursor of that page is exactly what the page left out.
pub sync_group_pages :
    (device group : Bytes) (after now : ℕ) (limit : ℤ) (db : Backend)
    → IsLog db
    → exists_where (is_active_group_member group device) db.members ≡ true
    → (page : List EventRow) × (sync_group device group (pos after) limit now db
        ≡ ok (map sync_event page))
      × (page ++ unseen group now (last_of (is_live group now) after page) db
          ≡ unseen group now after db)
      × (page ≡ take (clamp_batch limit) (unseen group now after db))
unfolding sync_group assert_active_member
sync_group_pages device group after now limit db log member =
    let rows = unseen group now after db in
    let page = take (clamp_batch limit) rows in
    let clause : select_where (λ e. bytes_eq e.group_id group && is_unseen after now e) db.events
        ≡ rows =
      select_where_same _ (beyond (is_live group now) after) db.events (λ e. ground arith) in
    let ordered : sort_by cursor_at_most rows ≡ rows =
      sort_by_ordered cursor_at_most rows
        (IsRising-IsOrdered (beyond (is_live group now) after) db.events log.rising) in
    (
      page,
      rw member (rw (clause, ordered) refl),
      ap (λ r. page ++ r)
            (select_after_page (is_live group now) (clamp_batch limit) after db.events log.rising)
          ∙ take-append-drop (clamp_batch limit) rows,
      refl,
    )
