-- ===== src/Clipboard/Policy.antt =====
-- crates/bridge-clipboard/src/policy.rs
use bridgeos.Prelude.{
  ltb, length, str_len, ℕ, ◌+◌, ◌*◌, ◌≤◌, ◌≡◌, ◌↔◌, Bool, true, false, not, ◌&&◌, arith,
}
use bridgeos.Prelude.Result.{Result, ok, ◌>>◌, reject_if}
use bridgeos.Clipboard.Content.{
  ClipboardError, unsupported_format, sensitive_content_blocked, backend_error, oversized_payload,
  ClipboardFormat, plain_text, html_text, rtf, picture, ClipboardContent, text, html, image, format,
  optional_len, byte_len,
}

pub record ClipboardPolicy : Type 0 where
  pub max_text_bytes : ℕ
  pub max_image_bytes : ℕ
  pub allow_images : Bool
  pub allow_html : Bool
  pub filter_sensitive : Bool
  pub enabled : Bool

abbrev pub default_policy : ClipboardPolicy
default_policy = record {
  max_text_bytes = 2 * 1024 * 1024;
  max_image_bytes = 10 * 1024 * 1024;
  allow_images = true;
  allow_html = true;
  filter_sensitive = true;
  enabled = true;
}

-- The `match content` of `validate`.
unfoldable pub validate_content :
    ClipboardPolicy → ClipboardContent → Result (Unit {0}) ClipboardError
validate_content q (text s) =
    reject_if (ltb q.max_text_bytes (str_len s)) (oversized_payload (str_len s) q.max_text_bytes)
validate_content q (html h plain) = do
  reject_if (not q.allow_html) unsupported_format
  let total = str_len h + optional_len plain
  reject_if (ltb q.max_text_bytes total) (oversized_payload total q.max_text_bytes)
validate_content q (image f bytes width height) = do
  reject_if (not q.allow_images) unsupported_format
  reject_if (ltb q.max_image_bytes (length bytes))
      (oversized_payload (length bytes) q.max_image_bytes)

unfoldable pub validate :
    ClipboardPolicy → ClipboardContent → Bool → Result (Unit {0}) ClipboardError
unfolding validate_content
validate q content is_sensitive = do
  reject_if (not q.enabled) backend_error
  reject_if (is_sensitive && q.filter_sensitive) sensitive_content_blocked
  validate_content q content

unfoldable pub is_format_allowed : ClipboardPolicy → ClipboardFormat → Bool
is_format_allowed q plain_text = true
is_format_allowed q rtf = true
is_format_allowed q html_text = q.allow_html
is_format_allowed q (picture f) = q.allow_images

-- The size limit that applies to a content.
abbrev pub limit : ClipboardPolicy → ClipboardContent → ℕ
limit q (text s) = q.max_text_bytes
limit q (html h plain) = q.max_text_bytes
limit q (image f bytes width height) = q.max_image_bytes

-- What the policy says, as one condition.
abbrev pub Permits : ClipboardPolicy → ClipboardContent → Bool → Type 0
Permits q c is_sensitive =
    (q.enabled ≡ true)
    × ((is_sensitive && q.filter_sensitive) ≡ false)
    × (is_format_allowed q (format c) ≡ true)
    × (byte_len c ≤ limit q c)

-- `validate` passes a content exactly when synchronisation is on, the content is not a sensitive one
-- that is filtered, its format is allowed, and its size is within the limit of its kind.
validate_iff :
    (q : ClipboardPolicy) (c : ClipboardContent) (is_sensitive : Bool)
    → (validate q c is_sensitive ≡ ok tt) ↔ Permits q c is_sensitive
unfolding validate is_format_allowed format byte_len
validate_iff q (text s) b = ground arith
validate_iff q (html h plain) b = ground arith
validate_iff q (image f bytes w h) b = ground arith

-- What passes as sensitive passes as not sensitive.
validate-not_sensitive :
    (q : ClipboardPolicy) (c : ClipboardContent) (b : Bool)
    → validate q c b ≡ ok tt
    → validate q c false ≡ ok tt
unfolding validate
validate-not_sensitive q c b h = ground arith
