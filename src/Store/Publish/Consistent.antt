-- ===== src/Store/Publish/Consistent.antt =====
-- Publishing and unpublishing keep contents and content_versions consistent.
use qdt_test.Common.{
  ℕ, Text, text_eq, ◌==◌, Option, none, some, true, ◌≡◌, refl, ◌⊎◌, inl, inr, ok, arith, any, find,
  update, find-in, in-any, Option-cases,
}
use qdt_test.Store.Model.{Db, Content, Version}
use qdt_test.Store.Tx.{Conn}
use qdt_test.Store.Tx.Rules.{tx-keeps}
use qdt_test.Store.Statements.{insert_event, set_published, point_at}
use qdt_test.Store.Versioned.{Consistent, Versioned, belongs}
use qdt_test.Store.Versioned.Point.{Versioned-point}
use qdt_test.Store.Publish.{
  PublishParams, publish, publish_body, unpublish, unpublish_body, check_owner,
}

-- The check lets a version pass only if it is there and belongs to the content.
pub check_owner-belongs :
    (version_id : ℕ) (content_id : Text) (db : Db)
    → check_owner version_id content_id db ≡ ok tt
    → any (belongs version_id content_id) db.content_versions ≡ true
unfolding check_owner
check_owner-belongs version_id content_id db passed =
    elim (Option-cases (find (λ (v : Version). v.id == version_id) db.content_versions)) [
      | inl missing ↦ absurd (ground arith)
      | inr (v, found) ↦
          let (m, h) = find-in v (λ (v : Version). v.id == version_id) db.content_versions found in
          in-any v (belongs version_id content_id) db.content_versions m (ground arith)
    ]

-- The tables after a publish or an unpublish: pointed, or as they were.
abbrev Points : Db → Db → Text → Option ℕ → Option ℕ → ℕ → Type 0
Points db after id version_id published_at now =
    ((after.contents ≡ db.contents)
      ⊎ (after.contents
          ≡ update (λ c. text_eq c.id id) (point_at version_id published_at now) db.contents))
    × (after.content_versions ≡ db.content_versions)
    × (after.next_version_id ≡ db.next_version_id)

publish_body-Points :
    (p : PublishParams) (db after : Db) (c : Content)
    → publish_body p db ≡ ok (c, after)
    → (check_owner p.version_id p.content_id db ≡ ok tt)
      × Points db after p.content_id (some p.version_id) (some p.now) p.now
unfolding publish_body insert_event set_published
publish_body-Points p db after c run = ground arith

unpublish_body-Points :
    (id actor : Text) (now : ℕ) (db after : Db) (c : Content)
    → unpublish_body id actor now db ≡ ok (c, after)
    → Points db after id none none now
unfolding unpublish_body insert_event set_published
unpublish_body-Points id actor now db after c run = ground arith

Points-Consistent :
    (db after : Db) (id : Text) (version_id published_at : Option ℕ) (now : ℕ)
    → Versioned
        (update (λ c. text_eq c.id id) (point_at version_id published_at now) db.contents)
        db.content_versions
        db.next_version_id
    → Points db after id version_id published_at now
    → Consistent db
    → Consistent after
Points-Consistent db after id version_id published_at now pointed (inl same, versions, next) x =
    rw (same, versions, next) x
Points-Consistent db after id version_id published_at now pointed (inr moved, versions, next) x =
    rw (moved, versions, next) pointed

pub publish-Consistent :
    (conn : Conn) (p : PublishParams) (db : Db) → Consistent db → Consistent (publish conn p db).1
unfolding publish
publish-Consistent conn p db x = tx-keeps conn (publish_body p) db Consistent x (λ c after run.
    let (owner, points) = publish_body-Points p db after c run in
    let mine = check_owner-belongs p.version_id p.content_id db owner in
    Points-Consistent db after p.content_id (some p.version_id) (some p.now) p.now
      (Versioned-point db.contents db.content_versions db.next_version_id p.content_id
        (some p.version_id) (some p.now) p.now refl (λ i e. ground arith) x)
      points x)

pub unpublish-Consistent :
    (conn : Conn) (id actor : Text) (now : ℕ) (db : Db)
    → Consistent db
    → Consistent (unpublish conn id actor now db).1
unfolding unpublish
unpublish-Consistent conn id actor now db x =
    tx-keeps conn (unpublish_body id actor now) db Consistent x (λ c after run.
      Points-Consistent db after id none none now
        (Versioned-point db.contents db.content_versions db.next_version_id id none none now refl
          (λ i e. cc) x)
        (unpublish_body-Points id actor now db after c run) x)
