-- ===== src/Httpapi/Admin/Keeps.antt =====
-- The handlers that write contents, over the tables of the store.
use qdt_test.Common.{ℕ, Text, Bool, true, false, Result, ok, err, inl, inr, Result-cases}
use qdt_test.Store.Model.{Db}
use qdt_test.Store.Tx.{Conn}
use qdt_test.Store.History.Honest.{Steady}
use qdt_test.Content.Service.{get}
use qdt_test.Content.Service.Keeps.{create-keeps, edit-keeps}
use qdt_test.Httpapi.Etag.{MatchError, parse_if_match}
use qdt_test.Httpapi.Admin.{
  BodyError, CreateContentRequest, UpdateContentRequest, handle_create_content,
  handle_update_content, update_matching, update_expecting,
}

module _ (P : Db → Type 0) (steady : Steady P) (format_millis : ℕ → Text) (conn : Conn)
    (now : ℕ) where
  pub handle_create_content-keeps :
      (body : Result BodyError CreateContentRequest) (x_actor id : Text) (db : Db)
      → P db
      → P (handle_create_content format_millis conn body x_actor id now db).1
  unfolding handle_create_content
  handle_create_content-keeps (err e) x_actor id db v = v
  handle_create_content-keeps (ok req) x_actor id db v = create-keeps P steady conn db v _ id now

  module _ (meanwhile : Db → Db) (id : Text) (db : Db) (v : P db) (w : P (meanwhile db)) where
    update_matching-keeps :
        (req : UpdateContentRequest) (x_actor : Text) (m : Result MatchError (ℕ × Bool))
        → P (update_matching format_millis conn meanwhile id req x_actor m now db).1
    unfolding update_matching update_expecting
    update_matching-keeps req x_actor (err e) = v
    update_matching-keeps req x_actor (ok (expected, false)) = edit-keeps P steady conn db v _ now
    update_matching-keeps req x_actor (ok (expected, true)) = elim (Result-cases (get id db)) [
      | inl (e, missing) ↦ rw (update_matching, missing) v
      | inr (r, found) ↦
          rw (update_matching, found) (edit-keeps P steady conn (meanwhile db) w _ now)
    ]

    pub handle_update_content-keeps :
        (body : Result BodyError UpdateContentRequest) (if_match x_actor : Text)
        → P (handle_update_content format_millis conn meanwhile id body if_match x_actor now db).1
    unfolding handle_update_content
    handle_update_content-keeps (err e) if_match x_actor = v
    handle_update_content-keeps (ok req) if_match x_actor =
        update_matching-keeps req x_actor (parse_if_match if_match)
