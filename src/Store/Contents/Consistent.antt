-- ===== src/Store/Contents/Consistent.antt =====
-- Creating and editing keep contents and content_versions consistent.
use qdt_test.Common.{
  ℕ, suc, ◌+◌, Text, text_eq, ◌==◌, false, ◌≡◌, refl, [], ◌∷◌, ◌++◌, ok, arith, any, count, update,
  count-in,
}
use qdt_test.Store.Model.{Db, VersionFields, ContentWithVersion}
use qdt_test.Store.Tx.{Conn}
use qdt_test.Store.Tx.Rules.{tx-keeps}
use qdt_test.Store.Statements.{insert_content, insert_version_row, version_row}
use qdt_test.Store.Versioned.{Consistent}
use qdt_test.Store.Versioned.Create.{Versioned-create}
use qdt_test.Store.Versioned.Bump.{Versioned-bump}
use qdt_test.Store.Contents.{
  create_content, create_content_body, new_content, update_content, update_content_body,
  matches_token, bumped,
}

module _ (id slug : Text) (f : VersionFields) (actor : Text) (now : ℕ) (db after : Db) where
  pub create_content_body-rows :
      (r : ContentWithVersion)
      → create_content_body id slug f actor now db ≡ ok (r, after)
      → (any (λ d. text_eq d.id id) db.contents ≡ false)
        × (any (λ d. text_eq d.slug slug) db.contents ≡ false)
        × (after.contents ≡ db.contents ++ new_content id slug now ∷ [])
        × (after.content_versions
            ≡ db.content_versions ++ version_row db.next_version_id id 1 f actor now ∷ [])
        × (after.next_version_id ≡ suc db.next_version_id)
  unfolding create_content_body insert_content insert_version_row
  create_content_body-rows r run = ground arith

module _ (id : Text) (n : ℕ) (f : VersionFields) (actor : Text) (now : ℕ) (db after : Db) where
  pub update_content_body-rows :
      (r : ContentWithVersion)
      → update_content_body id n f actor now db ≡ ok (r, after)
      → ((count (matches_token id n) db.contents == 0) ≡ false)
        × (after.contents ≡ update (matches_token id n) (bumped now) db.contents)
        × (after.content_versions
            ≡ db.content_versions ++ version_row db.next_version_id id (n + 1) f actor now ∷ [])
        × (after.next_version_id ≡ suc db.next_version_id)
  unfolding update_content_body insert_version_row
  update_content_body-rows r run = ground arith

pub create_content-Consistent :
    (conn : Conn) (id slug : Text) (f : VersionFields) (actor : Text) (now : ℕ) (db : Db)
    → Consistent db
    → Consistent (create_content conn id slug f actor now db).1
unfolding create_content
create_content-Consistent conn id slug f actor now db x =
    tx-keeps conn (create_content_body id slug f actor now) db Consistent x (λ r after run.
      let (new_id, new_slug, rows, versions, next) =
        create_content_body-rows id slug f actor now db after r run in
      rw (rows, versions, next)
        (Versioned-create db.contents db.content_versions db.next_version_id
          (new_content id slug now) (version_row db.next_version_id id 1 f actor now) new_id
          new_slug refl refl refl refl refl refl x))

pub update_content-Consistent :
    (conn : Conn) (id : Text) (n : ℕ) (f : VersionFields) (actor : Text) (now : ℕ) (db : Db)
    → Consistent db
    → Consistent (update_content conn id n f actor now db).1
unfolding update_content
update_content-Consistent conn id n f actor now db x =
    tx-keeps conn (update_content_body id n f actor now) db Consistent x (λ r after run.
      let (hit, rows, versions, next) = update_content_body-rows id n f actor now db after r run in
      let (c, m, h) = count-in (matches_token id n) db.contents hit in
      rw (rows, versions, next)
        (Versioned-bump id n now db.contents db.content_versions db.next_version_id
          (version_row db.next_version_id id (n + 1) f actor now) c m h refl refl refl x))
