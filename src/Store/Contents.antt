-- ===== src/Store/Contents.antt =====
-- internal/store/contents.go: creating, editing and reading content and its version history.
pub mod Token
pub mod Register
pub mod InOrder
pub mod Consistent
pub mod Frame
use qdt_test.Common.{
  ℕ, ◌+◌, Text, text_eq, ◌==◌, ltb, if◌then◌else◌, none, Bool, ◌&&◌, ◌||◌, not, text_ltb, or_fail,
  List, Result, ok, err, ◌>>=◌, map_err, find, count, join, select, update, sort, take, drop,
  length,
}
use qdt_test.Store.Model.{
  Db, Error, not_found, version_conflict, slug_taken, wrapped, Content, Version, VersionFields,
  ContentWithVersion,
}
use qdt_test.Store.Tx.{Conn, tx, unless_unique}
use qdt_test.Store.Statements.{insert_content, insert_version_row, version_row}

-- `insertVersion`: the row takes the sequence's next id, which is what it returns.
insert_version : Text → ℕ → VersionFields → Text → ℕ → Db → Result Error (ℕ × Db)
insert_version content_id n f actor now db = do
  after ←
      map_err (wrapped "insert version")
        (insert_version_row (version_row db.next_version_id content_id n f actor now) db)
  ok (db.next_version_id, after)

abbrev pub new_content : Text → Text → ℕ → Content
new_content id slug now = record {
  id = id;
  slug = slug;
  current_version = 1;
  published_version_id = none;
  published_at = none;
  created_at = now;
  updated_at = now;
}

pub create_content_body :
    Text → Text → VersionFields → Text → ℕ → Db → Result Error (ContentWithVersion × Db)
unfolding insert_version
create_content_body id slug f actor now db = do
  inserted ←
      map_err (unless_unique slug_taken "insert content")
        (insert_content (new_content id slug now) db)
  (version_id, after) ← insert_version id 1 f actor now inserted
  ok (
    record { content = new_content id slug now; version = version_row version_id id 1 f actor now },
    after,
  )

unfoldable pub create_content :
    Conn → Text → Text → VersionFields → Text → ℕ → Db → Result Error ContentWithVersion × Db
unfolding create_content_body
create_content conn id slug f actor now = tx conn (create_content_body id slug f actor now)

unfoldable pub get_content : Text → Db → Result Error Content
get_content id db = or_fail not_found (find (λ c. text_eq c.id id) db.contents)

-- `UPDATE contents SET current_version = current_version + 1, … WHERE id = ? AND current_version = ?`.
abbrev pub matches_token : Text → ℕ → Content → Bool
matches_token id expected c = text_eq c.id id && c.current_version == expected

abbrev pub bumped : ℕ → Content → Content
bumped now c = record c { current_version = c.current_version + 1; updated_at = now }

abbrev bump_version : Text → ℕ → ℕ → Db → Db
bump_version id expected now db = record db {
  contents = update (matches_token id expected) (bumped now) db.contents;
}

append_version : Text → ℕ → VersionFields → Text → ℕ → Db → Result Error (ContentWithVersion × Db)
unfolding insert_version get_content
append_version id n f actor now db = do
  (version_id, after) ← insert_version id n f actor now db
  c ← get_content id after
  ok (record { content = c; version = version_row version_id id n f actor now }, after)

-- Zero rows changed: a stale token if the content is there.
no_row : Text → Db → Result Error (ContentWithVersion × Db)
no_row id db =
    if count (λ c. text_eq c.id id) db.contents == 0 then err not_found else err version_conflict

pub update_content_body :
    Text → ℕ → VersionFields → Text → ℕ → Db → Result Error (ContentWithVersion × Db)
unfolding append_version no_row
update_content_body id expected f actor now db =
    if count (matches_token id expected) db.contents == 0
    then no_row id db
    else append_version id (expected + 1) f actor now (bump_version id expected now db)

unfoldable pub update_content :
    Conn → Text → ℕ → VersionFields → Text → ℕ → Db → Result Error ContentWithVersion × Db
unfolding update_content_body
update_content conn id expected f actor now = tx conn (update_content_body id expected f actor now)

abbrev pub pair : Content → Version → ContentWithVersion
pair c v = record { content = c; version = v }

abbrev is_current : Content → Version → Bool
is_current c v = text_eq v.content_id c.id && v.version == c.current_version

unfoldable pub get_content_with_current_version : Text → Db → Result Error ContentWithVersion
get_content_with_current_version id db = or_fail not_found (
    find (λ (r : ContentWithVersion). text_eq r.content.id id)
      (join is_current pair db.contents db.content_versions))

-- `ORDER BY c.created_at DESC, c.id DESC`.
abbrev newest_first : ContentWithVersion → ContentWithVersion → Bool
newest_first r s =
    ltb s.content.created_at r.content.created_at
    || (s.content.created_at == r.content.created_at && not (text_ltb r.content.id s.content.id))

unfoldable pub list_contents : ℕ → ℕ → Db → List ContentWithVersion
list_contents limit offset db =
    take limit
      (drop offset (sort newest_first (join is_current pair db.contents db.content_versions)))

unfoldable pub count_contents : Db → ℕ
count_contents db = length db.contents

-- `ORDER BY v.version DESC`.
abbrev latest_first : Version → Version → Bool
latest_first v w = not (ltb v.version w.version)

unfoldable pub list_versions : Text → ℕ → ℕ → Db → Result Error (List Version)
unfolding get_content
list_versions content_id limit offset db = do
  _ ← get_content content_id db
  ok (
      take limit (
        drop offset
          (sort latest_first (select (λ v. text_eq v.content_id content_id) db.content_versions))))

unfoldable pub get_version : Text → ℕ → Db → Result Error Version
get_version content_id n db =
    or_fail not_found
      (find (λ v. text_eq v.content_id content_id && v.version == n) db.content_versions)

unfoldable pub get_version_by_id : ℕ → Db → Result Error Version
get_version_by_id version_id db =
    or_fail not_found (find (λ v. v.id == version_id) db.content_versions)
