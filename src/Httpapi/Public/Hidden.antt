-- ===== src/Httpapi/Public/Hidden.antt =====
-- What the public cannot tell from the replies.
use qdt_test.Common.{ℕ, Text, ◌≡◌, ap, none}
use mathlib.Core.List.{Memᴰ}
use qdt_test.Store.Model.{Db, Content}
use qdt_test.Store.Versioned.{Consistent}
use qdt_test.Store.Public
use qdt_test.Store.Public.Sound.{unpublished_not_found}
use qdt_test.Store.History.{empty}
use qdt_test.Content.Service.{get_public_by_slug}
use qdt_test.Httpapi.Public.{handle_public_get, write_public}

-- The reply for the slug of a content that is not published is the reply that an empty database
-- gives, so it does not tell whether the content exists. Contents and
-- content_versions are consistent.
pub unpublished_as_unknown :
    (format_millis : ℕ → Text) (if_none_match slug : Text) (db : Db) (c : Content)
    → Consistent db
    → Memᴰ c db.contents
    → c.slug ≡ slug
    → c.published_version_id ≡ none
    → handle_public_get format_millis if_none_match slug db
      ≡ handle_public_get format_millis if_none_match slug empty
unfolding handle_public_get get_public_by_slug Public.get_public_by_slug Public.public_rows
unpublished_as_unknown format_millis if_none_match slug db c x m named unset =
    ap (write_public format_millis if_none_match) (unpublished_not_found slug db c x m named unset)
