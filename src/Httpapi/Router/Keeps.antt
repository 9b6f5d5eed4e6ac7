-- ===== src/Httpapi/Router/Keeps.antt =====
-- A whole request over the tables of the store.
use qdt_test.Common.{codes, not, ◌&&◌, Option, none, some, inl, inr, Bool-cases}
use qdt_test.Store.Model.{Db}
use qdt_test.Store.History.Honest.{Steady}
use qdt_test.Httpapi.Auth.{admits}
use qdt_test.Httpapi.Admin.Keeps.{handle_create_content-keeps, handle_update_content-keeps}
use qdt_test.Httpapi.Publishing.Keeps.{
  handle_publish-keeps, handle_unpublish-keeps, handle_create_schedule-keeps,
  handle_cancel_schedule-keeps,
}
use qdt_test.Httpapi.Routes.{
  Handler, create_content, update_content, publish, unpublish, create_schedule, cancel_schedule,
  Route, Params, url_param, routes,
}
use qdt_test.Httpapi.Router.{Server, Request, Router, handle, is_admin_path, run_route, serve}

module _ (P : Db → Type 0) (steady : Steady P) (s : Server) (q : Request) (db : Db) (v : P db)
    (w : P (s.meanwhile db)) where
  handle-keeps : (ps : Params) (h : Handler) → P (handle s q ps h db).1
  unfolding handle
  handle-keeps ps create_content =
      handle_create_content-keeps P steady s.format_millis s.conn s.now q.create_body q.x_actor
        s.fresh db v
  handle-keeps ps update_content =
      handle_update_content-keeps P steady s.format_millis s.conn s.now s.meanwhile
        (url_param (codes "id") ps) db v w q.update_body q.if_match q.x_actor
  handle-keeps ps publish =
      handle_publish-keeps P steady s.format_millis s.parse_time s.conn s.now db v s.meanwhile w
        (url_param (codes "id") ps) q.publish_body q.x_actor
  handle-keeps ps unpublish =
      handle_unpublish-keeps P steady s.format_millis s.parse_time s.conn s.now db v s.meanwhile w
        (url_param (codes "id") ps) q.x_actor
  handle-keeps ps create_schedule =
      handle_create_schedule-keeps P steady s.format_millis s.parse_time s.conn s.now db v
        s.meanwhile w (url_param (codes "id") ps) q.schedule_body s.fresh
  handle-keeps ps cancel_schedule =
      handle_cancel_schedule-keeps P steady s.format_millis s.parse_time s.conn s.now db v
        s.meanwhile w (url_param (codes "scheduleID") ps)
  handle-keeps ps _ = v

  run_route-keeps : (r : Option (Route × Params)) → P (run_route s q r db).1
  unfolding run_route
  run_route-keeps none =
      elim (Bool-cases (is_admin_path q.path && not (admits s.admin_token q.authorization))) [
        | inl refused ↦ rw refused v
        | inr passed ↦ rw passed v
      ]
  run_route-keeps (some (r, ps)) =
      elim (Bool-cases (r.guarded && not (admits s.admin_token q.authorization))) [
        | inl refused ↦ rw refused v
        | inr passed ↦ rw passed (handle-keeps ps r.handler)
      ]

  -- What every store call keeps, every request keeps.
  pub serve-keeps : (router : Router) → P (serve router s q db).1
  unfolding serve
  serve-keeps router = run_route-keeps (router routes q.method q.path)
