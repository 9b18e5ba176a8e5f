-- ===== src/StickyHeaders/Setting.antt =====
-- The lines that setting the sticky cookie leaves in a response.
use rust_rpxy.Common.{
  ◌≡◌, Bool, true, not, Option, some, List, [], ℕ, any, all, unwrap_or, Bytes, starts_with,
  bytes_eq,
}
use rust_rpxy.HeaderMap.{HeaderMap, HeaderValues}
use rust_rpxy.LoadBalance.Sticky.{StickyCookieConfig}
use rust_rpxy.StickySeal.{SealCrates}
use rust_rpxy.StickyHeaders.{name_prefix, filter, set_cookie}
use rust_rpxy.StickyHeaders.Returning.{IsCookieName}

abbrev pub others : (Bytes → Bool) → List Bytes → List Bytes
others f lines = filter (λ v. not (f v)) lines

-- What a line of the sticky name may be after the setting.
abbrev pub only : (Bytes → Bool) → Bytes → List Bytes → Bool
only f line lines = all (λ v. bytes_eq v line) (filter f lines)

-- The lines of other names stay, in their order, and there is the new line and no other of its name.
unfoldable pub IsReplaced : (Bytes → Bool) → Bytes → List Bytes → List Bytes → Type 0
IsReplaced f line before after =
    (others f after ≡ others f before) × (only f line after ≡ true) × (any f after ≡ true)

module _ (crates : SealCrates) (date : ℕ → Option Bytes) (config : StickyCookieConfig)
    (named : IsCookieName config.name) (values : HeaderValues)
    (reads : (text line : Bytes)
      → values.from_str text ≡ some line
      → values.to_str line ≡ some text) where
  unfoldable pub has_name : Bytes → Bool
  unfolding name_prefix
  has_name line = starts_with (unwrap_or (values.to_str line) []) (name_prefix config)

  -- What a response has got: the line is the sealed text of the cookie.
  pub record Sets (sealed : Option Bytes) (before after : HeaderMap) (name : Bytes) : Type 0 where
    pub text : Bytes
    pub line : Bytes
    pub is_text : sealed ≡ some text
    pub is_line : values.to_str line ≡ some text
    pub lines : IsReplaced has_name line (before set_cookie) (after set_cookie)
    pub kept : after name ≡ before name
