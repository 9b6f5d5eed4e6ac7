-- ===== src/Store/Contents/Token.antt =====
-- The compare-and-swap on current_version.
use qdt_test.Common.{
  ℕ, Text, text_eq, ◌==◌, false, ◌≡◌, refl, List, ok, err, inl, inr, Bool-cases, arith, count,
  update, count_none, of_in-update, count-in, in-update, count-zero,
}
use qdt_test.Store.Model.{Db, Content, VersionFields, ContentWithVersion, version_conflict}
use qdt_test.Store.Tx.{Conn, tx, healthy}
use qdt_test.Store.Tx.Rules.{tx-Outcome, tx-refused}
use qdt_test.Store.Contents.Consistent.{update_content_body-rows}
use qdt_test.Store.Contents.{update_content, update_content_body, matches_token, bumped}

-- No row has the old token once the rows that had it are bumped.
count-bumped :
    (id : Text) (n now : ℕ) (rows : List Content)
    → count (matches_token id n) (update (matches_token id n) (bumped now) rows) ≡ 0
count-bumped id n now rows =
    count_none (matches_token id n) (update (matches_token id n) (bumped now) rows)
      (λ d m. let (c, k, e) = of_in-update (matches_token id n) (bumped now) rows m in ground arith)

-- The row is still there, under its id.
bumped-there :
    (id : Text) (n now : ℕ) (rows : List Content)
    → (count (matches_token id n) rows == 0) ≡ false
    → (count (λ c. text_eq c.id id) (update (matches_token id n) (bumped now) rows) == 0) ≡ false
bumped-there id n now rows hit =
    let (c, m, h) = count-in (matches_token id n) rows hit in
    let there = in-update (matches_token id n) (bumped now) rows m in
    elim (Bool-cases
      (count (λ c. text_eq c.id id) (update (matches_token id n) (bumped now) rows) == 0)) [
        | inl gone ↦
            let miss =
              count-zero _ (λ (c : Content). text_eq c.id id)
                (update (matches_token id n) (bumped now) rows) gone there in
            absurd (ground arith)
        | inr kept ↦ kept
      ]

stale_body :
    (id : Text) (n now : ℕ) (f : VersionFields) (actor : Text) (later : ℕ) (db after : Db)
    → after.contents ≡ update (matches_token id n) (bumped now) db.contents
    → (count (matches_token id n) db.contents == 0) ≡ false
    → update_content_body id n f actor later after ≡ err version_conflict
unfolding update_content_body
stale_body id n now f actor later db after rows hit =
    ground (arith, rows, count-bumped id n now db.contents, bumped-there id n now db.contents hit)

-- Of two edits with the same token only one is stored: where the first succeeds, the second is
-- answered by a version conflict and changes nothing, whoever makes it and with whatever content,
-- provided that its transaction begins.
pub one_writer_wins :
    (conn : Conn) (id : Text) (n : ℕ) (f g : VersionFields) (first second : Text) (now later : ℕ)
    (db after : Db) (r : ContentWithVersion)
    → update_content conn id n f first now db ≡ (ok r, after)
    → update_content healthy id n g second later after ≡ (err version_conflict, after)
unfolding update_content
one_writer_wins conn id n f g first second now later db after r won =
    elim (tx-Outcome conn (update_content_body id n f first now) db) [
      | inl (s, done, run, out) ↦
          let same : done ≡ after = cc (out, won) in
          let rows = update_content_body-rows id n f first now db done s run in
          refuse (rw same at rows.1) rows.0
      | inr (e, out) ↦ absurd (cc (out, won))
    ]
  where
    refuse :
        after.contents ≡ update (matches_token id n) (bumped now) db.contents
        → (count (matches_token id n) db.contents == 0) ≡ false
        → tx healthy (update_content_body id n g second later) after ≡ (err version_conflict, after)
    refuse rows hit =
        tx-refused healthy (update_content_body id n g second later) after version_conflict refl
          (stale_body id n now g second later db after rows hit)
