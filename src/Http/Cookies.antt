-- ===== src/Http/Cookies.antt =====
-- The cookies of a session: RefreshCookieConfig, AccessCookieConfig and the functions that build
-- cookies from them in internal/http/handlers/auth.go. Durations are in microseconds.
use wow_dashboard_api.Prelude.{ℕ, ◌/◌, String, Bool, true, Option, none, some, ◌==◌, if◌then◌else◌}
use wow_dashboard_api.Prelude.Text.{trim_space, is_empty}
use wow_dashboard_api.Lists.Pagination.{ℤ, pos, negsuc}

pub data SameSite : Type 0 where
  default_mode lax_mode strict_mode none_mode : SameSite

-- Refresh cookies have no domain.
pub record CookieConfig : Type 0 where
  pub name : String
  pub path : String
  pub domain : String
  pub secure : Bool
  pub same_site : SameSite
  pub ttl : ℕ

pub record Cookie : Type 0 where
  pub name : String
  pub value : String
  pub path : String
  pub domain : String
  pub max_age : ℤ
  pub expires : Option ℕ
  pub http_only : Bool
  pub secure : Bool
  pub same_site : SameSite

abbrev pub default_refresh_cookie_config : CookieConfig
default_refresh_cookie_config = record {
  name = "wow_dashboard_refresh_token";
  path = "/api/auth";
  domain = "";
  secure = Bool.false;
  same_site = lax_mode;
  ttl = 1_209_600_000_000;
}

abbrev pub default_access_cookie_config : CookieConfig
default_access_cookie_config = record {
  name = "wow_dashboard_access_token";
  path = "/";
  domain = "";
  secure = Bool.false;
  same_site = lax_mode;
  ttl = 900_000_000;
}

abbrev text_or : String → String → String
unfolding trim_space
text_or default value = if is_empty (trim_space value) then default else value

abbrev same_site_or : SameSite → SameSite → SameSite
same_site_or default default_mode = default
same_site_or default mode = mode

-- withDefaults
unfoldable pub with_defaults : CookieConfig → CookieConfig → CookieConfig
unfolding trim_space
with_defaults defaults cfg = record {
  name = text_or defaults.name cfg.name;
  path = text_or defaults.path cfg.path;
  domain = cfg.domain;
  secure = cfg.secure;
  same_site = same_site_or defaults.same_site cfg.same_site;
  ttl = if cfg.ttl == 0 then defaults.ttl else cfg.ttl;
}

unfoldable pub new_cookie : CookieConfig → String → Cookie
new_cookie cfg value = record {
  name = cfg.name;
  value = value;
  path = cfg.path;
  domain = cfg.domain;
  max_age = pos (cfg.ttl / 1_000_000);
  expires = none;
  http_only = true;
  secure = cfg.secure;
  same_site = cfg.same_site;
}

unfoldable pub clear_cookie : CookieConfig → Cookie
clear_cookie cfg = record {
  name = cfg.name;
  value = "";
  path = cfg.path;
  domain = cfg.domain;
  max_age = negsuc 0;
  expires = some 0;
  http_only = true;
  secure = cfg.secure;
  same_site = cfg.same_site;
}

-- The cookie of the ticket borrows the transport of the refresh cookie.
abbrev pub mfa_pending_config : CookieConfig → CookieConfig
mfa_pending_config refresh = record {
  name = "wow_dashboard_mfa_pending";
  path = "/api/auth/mfa";
  domain = "";
  secure = refresh.secure;
  same_site = refresh.same_site;
  ttl = 300_000_000;
}

unfoldable pub new_mfa_pending_cookie : CookieConfig → String → Cookie
unfolding new_cookie
new_mfa_pending_cookie refresh value = new_cookie (mfa_pending_config refresh) value

unfoldable pub clear_mfa_pending_cookie : CookieConfig → Cookie
unfolding clear_cookie
clear_mfa_pending_cookie refresh = clear_cookie (mfa_pending_config refresh)
