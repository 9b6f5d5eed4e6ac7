-- ===== src/Httpapi/Routes.antt =====
-- The route table of internal/httpapi/router.go.
use qdt_test.Common.{Text, codes, text_eq, if◌then◌else◌, Bool, true, false, List, [], ◌∷◌, ◌++◌}

pub data Method : Type 0 where
  get post put delete : Method

-- A segment of a pattern: a word of the path, or a variable of the handler.
pub data Segment : Type 0 where
  word : Text → Segment
  variable : Text → Segment

pub data Handler : Type 0 where
  health : Handler
  create_content list_contents get_content update_content list_versions get_version : Handler
  publish unpublish create_schedule list_schedules cancel_schedule : Handler
  public_list public_get : Handler
  sitemap robots html_page : Handler

-- `guarded` says that the route stands below the bearer-token middleware.
pub record Route : Type 0 where
  pub method : Method
  pub pattern : List Segment
  pub handler : Handler
  pub guarded : Bool

abbrev open_route : Method → List Segment → Handler → Route
open_route m p h = record { method = m; pattern = p; handler = h; guarded = false }

-- A route of the `/api/v1` group, whose pattern goes on from there.
abbrev admin_route : Method → List Segment → Handler → Route
admin_route m p h = record {
  method = m;
  pattern = word (codes "api") ∷ word (codes "v1") ∷ p;
  handler = h;
  guarded = true;
}

-- A route of `/contents/{id}`.
abbrev content_route : Method → List Segment → Handler → Route
content_route m p h = admin_route m (word (codes "contents") ∷ variable (codes "id") ∷ p) h

abbrev pub admin_routes : List Route
admin_routes =
    admin_route post (word (codes "contents") ∷ []) create_content
    ∷ admin_route get (word (codes "contents") ∷ []) list_contents
    ∷ content_route get [] get_content
    ∷ content_route put [] update_content
    ∷ content_route get (word (codes "versions") ∷ []) list_versions
    ∷ content_route get (word (codes "versions") ∷ variable (codes "version") ∷ []) get_version
    ∷ content_route post (word (codes "publish") ∷ []) publish
    ∷ content_route post (word (codes "unpublish") ∷ []) unpublish
    ∷ content_route post (word (codes "schedules") ∷ []) create_schedule
    ∷ content_route get (word (codes "schedules") ∷ []) list_schedules
    ∷ admin_route delete (word (codes "schedules") ∷ variable (codes "scheduleID") ∷ [])
        cancel_schedule
    ∷ []

abbrev pub open_routes : List Route
open_routes =
    open_route get (word (codes "public") ∷ word (codes "v1") ∷ word (codes "contents") ∷ [])
      public_list
    ∷ open_route get
        (word (codes "public")
          ∷ word (codes "v1")
          ∷ word (codes "contents")
          ∷ variable (codes "slug")
          ∷ [])
        public_get
    ∷ open_route get (word (codes "sitemap.xml") ∷ []) sitemap
    ∷ open_route get (word (codes "robots.txt") ∷ []) robots
    ∷ open_route get (variable (codes "slug") ∷ []) html_page
    ∷ []

-- `Routes`, in the order of the registration.
abbrev pub routes : List Route
routes = open_route get (word (codes "healthz") ∷ []) health ∷ admin_routes ++ open_routes

-- What `chi.URLParam` reads: the values of a pattern's variables.
abbrev pub Params : Type 0
Params = List (Text × Text)

-- A path that fits a pattern, and the values of the variables.
pub data Matches : List Segment → List Text → Params → Type 0 where
  end : Matches [] [] []
  same :
      {t : Text} {p : List Segment} {ts : List Text} {ps : Params}
      → Matches p ts ps
      → Matches (word t ∷ p) (t ∷ ts) ps
  bound :
      {k t : Text} {p : List Segment} {ts : List Text} {ps : Params}
      → Matches p ts ps
      → Matches (variable k ∷ p) (t ∷ ts) ((k, t) ∷ ps)

pub url_param : Text → Params → Text
url_param k [] = []
url_param k ((j, v) ∷ ps) = if text_eq j k then v else url_param k ps
