-- ===== src/Httpapi/Html.antt =====
-- internal/httpapi/html.go: the page of a published document. The texts of a time, the JSON of the
-- schema.org payload and the template are parameters.
pub mod Hidden
use qdt_test.Common.{
  ℕ, Text, codes, text_eq, if◌then◌else◌, Option, none, some, Bool, [], Result, ok, err,
}
use qdt_test.Store.Model.{Db, Error, not_found}
use qdt_test.Store.Public.{PublicContent}
use qdt_test.Content.Service.{get_public_by_slug}
use qdt_test.Httpapi.Etag.{if_none_match_matches}
use qdt_test.Httpapi.Public.{content_etag}
use qdt_test.Httpapi.Seo.{public_url}

pub record PageData : Type 0 where
  pub title : Text
  pub heading : Text
  pub description : Text
  pub body : Text
  pub canonical_url : Text
  pub og_image : Text
  pub noindex : Bool
  pub published_at : Text
  pub published_at_human : Text
  pub updated_at : Text
  pub json_ld : Text

pub record ArticleLd : Type 0 where
  pub headline : Text
  pub description : Text
  pub date_published : Text
  pub date_modified : Text
  pub image : Text
  pub main_entity_id : Text

-- The replies: a page under its tag, the tag alone, an error page, or the JSON error of a template
-- that fails.
pub data PageReply : Type 0 where
  page : (etag html : Text) → PageReply
  page_not_modified : (etag : Text) → PageReply
  error_page : (status : ℕ) → (heading : Text) → PageReply
  template_failed : PageReply

abbrev or_else : Text → Text → Text
or_else s other = if text_eq s [] then other else s

-- A document that is not there is 404, and any other error is 500.
write_html_error : Error → PageReply
write_html_error not_found = error_page 404 (codes "404 - Not found")
write_html_error e = error_page 500 (codes "500 - Something went wrong")

-- The parameters.
pub record Rendering : Type 0 where
  pub rfc3339 : ℕ → Text
  pub human_date : ℕ → Text
  pub marshal : ArticleLd → Option Text
  pub execute : PageData → Option Text

abbrev or_empty : Option Text → Text
or_empty none = []
or_empty (some s) = s

module _ (r : Rendering) (base : Text) where
  abbrev pub page_title : PublicContent → Text
  page_title p = or_else p.fields.meta_title p.title

  abbrev pub page_canonical : PublicContent → Text
  unfolding public_url
  page_canonical p = or_else p.fields.canonical_url (public_url base p.slug)

  article_ld : PublicContent → ArticleLd
  article_ld p = record {
    headline = page_title p;
    description = p.fields.meta_description;
    date_published = r.rfc3339 p.published_at;
    date_modified = r.rfc3339 p.updated_at;
    image = p.fields.og_image_url;
    main_entity_id = page_canonical p;
  }

  unfoldable pub build_page_data : PublicContent → PageData
  unfolding article_ld
  build_page_data p = record {
    title = page_title p;
    heading = p.title;
    description = p.fields.meta_description;
    body = p.body;
    canonical_url = page_canonical p;
    og_image = p.fields.og_image_url;
    noindex = p.fields.noindex;
    published_at = r.rfc3339 p.published_at;
    published_at_human = r.human_date p.published_at;
    updated_at = r.rfc3339 p.updated_at;
    json_ld = or_empty (r.marshal (article_ld p));
  }

  render : PublicContent → PageReply
  unfolding build_page_data content_etag
  render p = elim (r.execute (build_page_data p)) [
    | none ↦ template_failed
    | some html ↦ page (content_etag p.updated_at) html
  ]

  write_page : Text → Result Error PublicContent → PageReply
  unfolding write_html_error render content_etag
  write_page if_none_match (err e) = write_html_error e
  write_page if_none_match (ok p) =
      if if_none_match_matches if_none_match (content_etag p.updated_at)
      then page_not_modified (content_etag p.updated_at)
      else render p

  unfoldable pub handle_html_page : Text → Text → Db → PageReply
  unfolding write_page
  handle_html_page if_none_match slug db = write_page if_none_match (get_public_by_slug slug db)
