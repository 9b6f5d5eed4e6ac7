-- ===== src/Httpapi/Router.antt =====
-- internal/httpapi/router.go: a request's way through the route table. How the router picks a route is
-- a parameter, and `no_route` stands for what it answers itself where it picks none.
pub mod Token
pub mod Keeps
use qdt_test.Common.{
  ℕ, String, Text, codes, text_eq, if◌then◌else◌, Option, none, some, Bool, true, false, not, ◌&&◌,
  List, [], ◌∷◌, ◌++◌, Result, ok, err,
}
use qdt_test.Store.Model.{Db}
use qdt_test.Store.Tx.{Conn}
use qdt_test.Httpapi.Auth.{admits}
use qdt_test.Httpapi.Routes.{
  Method, Handler, health, create_content, list_contents, get_content, update_content,
  list_versions, get_version, publish, unpublish, create_schedule, list_schedules, cancel_schedule,
  public_list, public_get, sitemap, robots, html_page, Route, Params, url_param, routes,
}
use qdt_test.Httpapi.Reply.{Reply, Code, write_error, no_details}
use qdt_test.Httpapi.Dto.{ContentDto, VersionDto, ScheduleDto, PublicContentDto}
use qdt_test.Httpapi.Admin.{
  CreateContentRequest, UpdateContentRequest, BodyError, handle_create_content, handle_get_content,
  handle_update_content, handle_get_version,
}
use qdt_test.Httpapi.Listing.{ListResponse, handle_list_contents, handle_list_versions}
use qdt_test.Httpapi.Publishing.{
  ScheduleRequest, handle_publish, handle_unpublish, handle_create_schedule, handle_list_schedules,
  handle_cancel_schedule,
}
use qdt_test.Httpapi.Public.{handle_public_get, handle_public_list}
use qdt_test.Httpapi.Seo.{SitemapUrl, handle_sitemap, robots_txt}
use qdt_test.Httpapi.Html.{Rendering, PageReply, handle_html_page}

-- A request: its path by segments, the headers and the query values that are read, and its body as
-- each handler would decode it.
pub record Request : Type 0 where
  pub method : Method
  pub path : List Text
  pub authorization : Text
  pub if_match : Text
  pub if_none_match : Text
  pub x_actor : Text
  pub limit : Text
  pub offset : Text
  pub create_body : Result BodyError CreateContentRequest
  pub update_body : Result BodyError UpdateContentRequest
  pub publish_body : Result BodyError ℕ
  pub schedule_body : Result BodyError ScheduleRequest

-- What the handlers depend on: the configuration, the clock, a fresh identifier, the driver's
-- answers, what other requests write during this one, and the parameters of the handlers.
pub record Server : Type 0 where
  pub admin_token : Text
  pub base : Text
  pub now : ℕ
  pub fresh : Text
  pub conn : Conn
  pub ping : Bool
  pub meanwhile : Db → Db
  pub format_millis : ℕ → Text
  pub w3c_datetime : ℕ → Text
  pub parse_time : Text → Option ℕ
  pub rendering : Rendering

pub data Response : Type 0 where
  no_route : Response
  challenged : (challenge : Text) → Reply (Unit {0}) → Response
  health_ok : (time : Text) → Response
  unhealthy : Response
  content : Reply ContentDto → Response
  contents : Reply (ListResponse ContentDto) → Response
  version : Reply VersionDto → Response
  versions : Reply (ListResponse VersionDto) → Response
  schedule : Reply ScheduleDto → Response
  schedules : Reply (ListResponse ScheduleDto) → Response
  cancelled : Reply (Unit {0}) → Response
  public_content : Reply PublicContentDto → Response
  public_contents : Reply (ListResponse PublicContentDto) → Response
  urls : Reply (List SitemapUrl) → Response
  text : Text → Response
  html : PageReply → Response

-- The reply of the token middleware.
unfoldable pub unauthorized : Response
unfolding write_error
unauthorized =
    challenged (codes "Bearer realm=\"admin\"")
      (write_error 401 Code.unauthorized "A valid bearer token is required." no_details)

-- A reply with the database that the handler leaves.
abbrev with_reply : {A : Type 0} → (Reply A → Response) → Reply A × Db → Response × Db
with_reply f (r, db) = (f r, db)

unfoldable pub handle_health : Server → Response
handle_health s = if s.ping then health_ok (s.format_millis s.now) else unhealthy

module _ (s : Server) (q : Request) (ps : Params) where
  unfoldable pub handle : Handler → Db → Response × Db
  unfolding handle_health
  handle health db = (handle_health s, db)
  handle create_content db =
      with_reply content
        (handle_create_content s.format_millis s.conn q.create_body q.x_actor s.fresh s.now db)
  handle list_contents db =
      (contents (handle_list_contents s.format_millis q.limit q.offset db), db)
  handle get_content db =
      (content (handle_get_content s.format_millis (url_param (codes "id") ps) db), db)
  handle update_content db = with_reply content (
      handle_update_content s.format_millis s.conn s.meanwhile (url_param (codes "id") ps)
        q.update_body q.if_match q.x_actor s.now db)
  handle list_versions db = (
    versions (handle_list_versions s.format_millis (url_param (codes "id") ps) q.limit q.offset db),
    db,
  )
  handle get_version db = (
    version (
        handle_get_version s.format_millis (url_param (codes "id") ps)
          (url_param (codes "version") ps) db),
    db,
  )
  handle publish db = with_reply content (
      handle_publish s.format_millis s.parse_time s.conn s.meanwhile (url_param (codes "id") ps)
        q.publish_body q.x_actor s.now db)
  handle unpublish db = with_reply content (
      handle_unpublish s.format_millis s.parse_time s.conn (url_param (codes "id") ps) q.x_actor
        s.now db)
  handle create_schedule db = with_reply schedule (
      handle_create_schedule s.format_millis s.parse_time s.conn s.meanwhile
        (url_param (codes "id") ps) q.schedule_body s.fresh s.now db)
  handle list_schedules db = (
    schedules (handle_list_schedules s.format_millis s.parse_time (url_param (codes "id") ps) db),
    db,
  )
  handle cancel_schedule db = with_reply cancelled (
      handle_cancel_schedule s.format_millis s.parse_time s.conn (url_param (codes "scheduleID") ps)
        s.now db)
  handle public_list db =
      (public_contents (handle_public_list s.format_millis q.if_none_match q.limit q.offset db), db)
  handle public_get db = (
    public_content
        (handle_public_get s.format_millis q.if_none_match (url_param (codes "slug") ps) db),
    db,
  )
  handle sitemap db = (urls (handle_sitemap s.w3c_datetime s.base q.if_none_match db), db)
  handle robots db = (text (robots_txt s.base), db)
  handle html_page db = (
    html (handle_html_page s.rendering s.base q.if_none_match (url_param (codes "slug") ps) db),
    db,
  )

-- A path of the subtree that is mounted at /api/v1.
abbrev pub is_admin_path : List Text → Bool
is_admin_path (a ∷ b ∷ rest) = text_eq a (codes "api") && text_eq b (codes "v1")
is_admin_path _ = false

-- The middleware of the route, and then its handler. The subtree runs its middleware where it has no
-- route for the request, too.
unfoldable pub run_route : Server → Request → Option (Route × Params) → Db → Response × Db
unfolding handle unauthorized
run_route s q none db =
    if is_admin_path q.path && not (admits s.admin_token q.authorization)
    then (unauthorized, db)
    else (no_route, db)
run_route s q (some (r, ps)) db =
    if r.guarded && not (admits s.admin_token q.authorization)
    then (unauthorized, db)
    else handle s q ps r.handler db

-- How the router picks a route for a method and a path.
abbrev pub Router : Type 0
Router = List Route → Method → List Text → Option (Route × Params)

unfoldable pub serve : Router → Server → Request → Db → Response × Db
unfolding run_route
serve router s q db = run_route s q (router routes q.method q.path) db
