-- ===== src/Content/Validate/Limits.antt =====
-- What normalising the fields keeps and what it bounds.
use qdt_test.Common.{◌≡◌, ◌≢◌, ◌≤◌, [], ok, arith, rune_count, trim_space}
use qdt_test.Store.Model.{VersionFields}
use qdt_test.Content.Validate.{
  normalize_fields, max_title_len, max_body_len, max_meta_len, max_url_len,
}

-- Fields that the service stores.
pub record IsNormal (f : VersionFields) : Type 0 where
  pub titled : f.title ≢ []
  pub title : rune_count f.title ≤ max_title_len
  pub body : rune_count f.body ≤ max_body_len
  pub meta_title : rune_count f.meta_title ≤ max_meta_len
  pub meta_description : rune_count f.meta_description ≤ max_meta_len
  pub canonical_url : rune_count f.canonical_url ≤ max_url_len
  pub og_image_url : rune_count f.og_image_url ≤ max_url_len

-- Where normalising succeeds, the title is not empty, every field is within its limit in
-- characters, the five short fields are the input's without surrounding white space, and the body
-- and the noindex flag are the input's.
pub normalize_fields-IsNormal :
    (f g : VersionFields)
    → normalize_fields f ≡ ok g
    → IsNormal g
      × ((g.title ≡ trim_space f.title)
          × (g.meta_title ≡ trim_space f.meta_title)
          × (g.meta_description ≡ trim_space f.meta_description)
          × (g.canonical_url ≡ trim_space f.canonical_url)
          × (g.og_image_url ≡ trim_space f.og_image_url)
          × (g.body ≡ f.body)
          × (g.noindex ≡ f.noindex))
unfolding normalize_fields
normalize_fields-IsNormal f g done = ground arith
