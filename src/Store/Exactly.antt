-- ===== src/Store/Exactly.antt =====
-- The relation between publish_schedules and publish_events that makes a scheduled publish happen
-- once, and the changes of the two tables that keep it.
use qdt_test.Common.{
  Text, text_dec, text_eq, if◌then◌else◌, none, some, Bool, true, false, ◌≡◌, ◌≢◌, refl, sym, ◌∙◌,
  inl, inr, List, [], ◌∷◌, ◌++◌, arith, any, count, update, Apart, Apart-append_last, Apart-update,
  Apart-eq, of_in-append_last, of_in-update, any-append_left, in-any, count_none, count-append_last,
  any-false, Bool-cases,
}
use mathlib.Core.List.{Memᴰ}
use qdt_test.Store.Model.{Db, Schedule, Event}
use qdt_test.Store.Statements.{is_done, opt_text_eq}

abbrev pub SameId : Schedule → Schedule → Type 0
SameId s t = s.id ≡ t.id

abbrev pub event_of : Text → Event → Bool
event_of id e = opt_text_eq e.schedule_id id

abbrev pub has_id : Text → Schedule → Bool
has_id id s = text_eq s.id id

-- A schedule that is done has one event, every other schedule has none, and an event that names a
-- schedule names one of the table.
pub record ExactlyOnce (schedules : List Schedule) (events : List Event) : Type 0 where
  pub ids : Apart SameId schedules
  pub once :
      (s : Schedule)
      → Memᴰ s schedules
      → count (event_of s.id) events ≡ (if is_done s.status then 1 else 0)
  pub known :
      (e : Event) (id : Text)
      → Memᴰ e events
      → event_of id e ≡ true
      → any (has_id id) schedules ≡ true

abbrev pub Once : Db → Type 0
Once db = ExactlyOnce db.publish_schedules db.publish_events

any-has_id-update :
    (id : Text) (p : Schedule → Bool) (f : Schedule → Schedule) (rows : List Schedule)
    → ((s : Schedule) → (if p s then f s else s).id ≡ s.id)
    → any (has_id id) (update p f rows) ≡ any (has_id id) rows
any-has_id-update id p f [] h = refl
any-has_id-update id p f (s ∷ rows) h = rw (h s, any-has_id-update id p f rows h)

pub ExactlyOnce-update :
    (p : Schedule → Bool) (f : Schedule → Schedule) (rows : List Schedule) (events : List Event)
    → ((s : Schedule) → (if p s then f s else s).id ≡ s.id)
    → ((s : Schedule) → Memᴰ s rows → is_done (if p s then f s else s).status ≡ is_done s.status)
    → ExactlyOnce rows events
    → ExactlyOnce (update p f rows) events
ExactlyOnce-update p f rows events same_id same_done x = record {
  ids = Apart-update SameId p f rows (λ s t c. sym (same_id s) ∙ c ∙ same_id t) x.ids;
  once = λ t m.
      let (s, n, e) = of_in-update p f rows m in rw (e, same_id s, same_done s n) (x.once s n);
  known = λ e id m h. any-has_id-update id p f rows same_id ∙ x.known e id m h;
}

-- An event of no schedule.
pub ExactlyOnce-event :
    (rows : List Schedule) (events : List Event) (e : Event)
    → e.schedule_id ≡ none
    → ExactlyOnce rows events
    → ExactlyOnce rows (events ++ e ∷ [])
ExactlyOnce-event rows events e anon x = record {
  ids = x.ids;
  once = λ s m. ground (arith, x.once s m, count-append_last (event_of s.id) events e);
  known = λ d id m h. elim (of_in-append_last events e m) [
    | inl n ↦ x.known d id n h
    | inr same ↦ ground arith
  ];
}

-- A new schedule that is not done.
pub ExactlyOnce-schedule :
    (rows : List Schedule) (events : List Event) (s : Schedule)
    → any (has_id s.id) rows ≡ false
    → is_done s.status ≡ false
    → ExactlyOnce rows events
    → ExactlyOnce (rows ++ s ∷ []) events
ExactlyOnce-schedule rows events s fresh open_yet x = record {
  ids =
      Apart-append_last SameId rows s
        (λ t m c. let miss = any-false t (has_id s.id) rows fresh m in ground arith) x.ids;
  once = λ t m. elim (of_in-append_last rows s m) [
    | inl n ↦ x.once t n
    | inr same ↦ rw (same, open_yet) (count_none (event_of s.id) events no_event)
  ];
  known = λ e id m h. any-append_left (has_id id) rows (s ∷ []) (x.known e id m h);
}
  where
    no_event : (e : Event) → Memᴰ e events → event_of s.id e ≡ false
    no_event e m = elim (Bool-cases (event_of s.id e)) [
      | inl named ↦ absurd (let seen = x.known e s.id m named in ground arith)
      | inr other ↦ other
    ]

-- The completion of a job: its event is the first, and the row of that id is done.
pub ExactlyOnce-complete :
    (rows : List Schedule) (events : List Event) (e : Event) (p : Schedule → Bool)
    (f : Schedule → Schedule) (s : Schedule)
    → e.schedule_id ≡ some s.id
    → any (event_of s.id) events ≡ false
    → Memᴰ s rows
    → ((t : Schedule) → (if p t then f t else t).id ≡ t.id)
    → ((t : Schedule) → t.id ≢ s.id → p t ≡ false)
    → p s ≡ true
    → is_done (f s).status ≡ true
    → ExactlyOnce rows events
    → ExactlyOnce (update p f rows) (events ++ e ∷ [])
ExactlyOnce-complete rows events e p f s names first_event m keep others hit closed x = record {
  ids = Apart-update SameId p f rows (λ a b c. sym (keep a) ∙ c ∙ keep b) x.ids;
  once = λ t n. let (r, in_rows, e') = of_in-update p f rows n in rw e' (row_once r in_rows);
  known = λ d i n h. any-has_id-update i p f rows keep ∙ known_row d i n h;
}
  where
    known_row :
        (d : Event) (i : Text)
        → Memᴰ d (events ++ e ∷ [])
        → event_of i d ≡ true
        → any (has_id i) rows ≡ true
    known_row d i n h = elim (of_in-append_last events e n) [
      | inl old ↦ x.known d i old h
      | inr new ↦ in-any s (has_id i) rows m (ground arith)
    ]

    fresh : count (event_of s.id) events ≡ 0
    fresh =
        count_none (event_of s.id) events (λ d n. any-false d (event_of s.id) events first_event n)

    this_row :
        count (event_of (if p s then f s else s).id) (events ++ e ∷ [])
        ≡ (if is_done (if p s then f s else s).status then 1 else 0)
    this_row =
        rw (keep s, hit, closed) (ground (arith, fresh, count-append_last (event_of s.id) events e))

    other_row :
        (r : Schedule)
        → Memᴰ r rows
        → r.id ≢ s.id
        → count (event_of (if p r then f r else r).id) (events ++ e ∷ [])
          ≡ (if is_done (if p r then f r else r).status then 1 else 0)
    other_row r in_rows ne =
        rw (keep r, others r ne)
          (ground (arith, x.once r in_rows, count-append_last (event_of r.id) events e))

    row_once :
        (r : Schedule)
        → Memᴰ r rows
        → count (event_of (if p r then f r else r).id) (events ++ e ∷ [])
          ≡ (if is_done (if p r then f r else r).status then 1 else 0)
    row_once r in_rows = elim (text_dec r.id s.id) [
      | yes same ↦
          let one : r ≡ s = Apart-eq SameId rows x.ids (λ a b c. sym c) in_rows m same in
          rw one this_row
      | no ne ↦ other_row r in_rows ne
    ]
