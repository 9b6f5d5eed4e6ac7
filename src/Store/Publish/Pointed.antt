-- ===== src/Store/Publish/Pointed.antt =====
-- From a publish by hand to the public read.
use qdt_test.Common.{
  ℕ, Text, text_eq, ◌≡◌, sym, ap, ◌∙◌, subst, ◌⊎◌, some, true, List, ok, inl, inr, arith, find,
  update, of_in-update, find-in, any-in,
}
use mathlib.Core.List.{Memᴰ}
use qdt_test.Store.Model.{Db, Content, Version}
use qdt_test.Store.Tx.{Conn}
use qdt_test.Store.Tx.Rules.{tx-run}
use qdt_test.Store.Statements.{insert_event, set_published, point_at}
use qdt_test.Store.Contents.{pair}
use qdt_test.Store.Publish.{PublishParams, publish, publish_body}
use qdt_test.Store.Publish.Consistent.{publish-Consistent}
use qdt_test.Store.Versioned.{Consistent, belongs}
use qdt_test.Store.Public.{get_public_by_slug, public_view}
use qdt_test.Store.Public.Served.{published_is_served}

-- The content that a publish returns is the one in the table.
publish_body-find :
    (p : PublishParams) (db after : Db) (c : Content)
    → publish_body p db ≡ ok (c, after)
    → (find (λ (d : Content). text_eq d.id p.content_id) after.contents ≡ some c)
      × ((c.published_version_id ≡ some p.version_id)
          ⊎ (after.contents
              ≡ update
                  (λ d. text_eq d.id p.content_id)
                  (point_at (some p.version_id) (some p.now) p.now)
                  db.contents))
unfolding publish_body insert_event set_published
publish_body-find p db after c run = ground arith

pointed_row :
    (id : Text) (v : ℕ) (at now : ℕ) (rows : List Content) (c : Content)
    → Memᴰ c (update (λ d. text_eq d.id id) (point_at (some v) (some at) now) rows)
    → text_eq c.id id ≡ true
    → c.published_version_id ≡ some v
pointed_row id v at now rows c m named =
    let (d, _, e) = of_in-update (λ d. text_eq d.id id) (point_at (some v) (some at) now) rows m in
    ground arith

publish_body-pointed :
    (p : PublishParams) (db after : Db) (c : Content)
    → publish_body p db ≡ ok (c, after)
    → Memᴰ c after.contents × (c.id ≡ p.content_id) × (c.published_version_id ≡ some p.version_id)
publish_body-pointed p db after c run =
    let (found, pointed) = publish_body-find p db after c run in
    let (m, named) = find-in c (λ (d : Content). text_eq d.id p.content_id) after.contents found in
    (m, ground arith, pointer pointed m named)
  where
    pointer :
        (c.published_version_id ≡ some p.version_id)
          ⊎ (after.contents
              ≡ update
                  (λ d. text_eq d.id p.content_id)
                  (point_at (some p.version_id) (some p.now) p.now)
                  db.contents)
        → Memᴰ c after.contents
        → text_eq c.id p.content_id ≡ true
        → c.published_version_id ≡ some p.version_id
    pointer (inl already) m named = already
    pointer (inr moved) m named =
        pointed_row p.content_id p.version_id p.now p.now db.contents c (rw moved at m) named

-- A publish that succeeds is seen: the content that it returns is served under its slug with the
-- fields of the version that was asked for, which is a version of that content. The contents and
-- versions are consistent before.
pub publish_is_served :
    (conn : Conn) (p : PublishParams) (db after : Db) (c : Content)
    → Consistent db
    → publish conn p db ≡ (ok c, after)
    → (v : Version) × Memᴰ v after.content_versions
      × (v.id ≡ p.version_id)
      × (v.content_id ≡ p.content_id)
      × (get_public_by_slug c.slug after ≡ ok (public_view (pair c v)))
unfolding publish
publish_is_served conn p db after c x published =
    let (m, named, pointed) =
      publish_body-pointed p db after c (tx-run conn (publish_body p) db c after published) in
    let x' : Consistent after =
      subst Consistent (ap (λ r. r.1) published) (publish-Consistent conn p db x) in
    let (v, k, h) =
      any-in (belongs p.version_id c.id) after.content_versions
        (x'.pointer c p.version_id m pointed) in
    let row : v.id ≡ p.version_id = ground arith in
    (v, k, row, ground arith, published_is_served after c v x' m k (pointed ∙ ap some (sym row)))
