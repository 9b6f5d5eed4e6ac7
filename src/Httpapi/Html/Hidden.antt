-- ===== src/Httpapi/Html/Hidden.antt =====
-- The page of what is not published.
use qdt_test.Common.{Text, codes, ◌≡◌, ap, none}
use mathlib.Core.List.{Memᴰ}
use qdt_test.Store.Model.{Db, Content}
use qdt_test.Store.Versioned.{Consistent}
use qdt_test.Store.Public.Sound.{unpublished_not_found}
use qdt_test.Content.Service.{get_public_by_slug}
use qdt_test.Httpapi.Html.{Rendering, error_page, handle_html_page, write_page, write_html_error}

-- A crawler that asks for the page of a content that is not published gets the page of a 404, and no
-- part of the content, whatever tag it sends along. Contents and content_versions are consistent.
pub unpublished_page_not_found :
    (r : Rendering) (base if_none_match slug : Text) (db : Db) (c : Content)
    → Consistent db
    → Memᴰ c db.contents
    → c.slug ≡ slug
    → c.published_version_id ≡ none
    → handle_html_page r base if_none_match slug db ≡ error_page 404 (codes "404 - Not found")
unfolding handle_html_page get_public_by_slug write_html_error
unpublished_page_not_found r base if_none_match slug db c x m named unset =
    ap (write_page r base if_none_match) (unpublished_not_found slug db c x m named unset)
