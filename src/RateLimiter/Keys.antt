-- ===== src/RateLimiter/Keys.antt =====
-- internal/ratelimiter/memory.go: how an address and an e-mail become keys of a table.
use authara.Prelude.{ℕ, Option, none, some, map, if◌then◌else◌}
use authara.Prelude.Text.{Text, codes, trim_space, is_empty}

-- `lower` is Unicode's simple lower-casing of one code point (`unicode.ToLower`).
unfoldable pub normalize_key : (ℕ → ℕ) → Text → Text
unfolding trim_space
normalize_key lower key =
    let k = trim_space key in if is_empty k then codes "__empty_key__" else map lower k

-- `none` is a nil `net.IP`; another address is the text that its `String` method prints.
unfoldable pub normalize_ip : Option Text → Text
normalize_ip none = codes "__unknown_ip__"
normalize_ip (some s) = if is_empty s then codes "__unknown_ip__" else s
