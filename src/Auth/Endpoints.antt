-- ===== src/Auth/Endpoints.antt =====
-- The endpoints that need no authentication: `handlePublicEndpoints` of src/server/middleware/auth.ts.
use Prim.Native.String.{slice, len}
use text.Mathlib.Text.{starts_with}
use thirdweb_engine.Base.{Bool, String, Option, ◌&&◌, ◌||◌, str_eq}

-- What the middleware reads of a request. `bearer` is the second word of the Authorization header.
pub record Request : Type 0 where
  pub method : String
  pub url : String
  pub upgrade : Option String
  pub bearer : Option String
  pub query_token : Option String
  pub ip : String
  pub body : String

abbrev pub is_public_get : String → Bool
is_public_get url =
    str_eq url "/favicon.ico"
    || str_eq url "/"
    || str_eq url "/system/health"
    || str_eq url "/json"
    || starts_with url "/auth/user"
    || starts_with url "/transaction/status"

abbrev pub is_public_post : String → Bool
is_public_post url =
    starts_with url "/auth/payload"
    || starts_with url "/auth/login"
    || starts_with url "/auth/switch-account"
    || starts_with url "/auth/logout"

-- `/relayer/<id>` with a UUID.
abbrev pub is_relayer : (String → Bool) → String → Bool
is_relayer uuid_validate url = starts_with url "/relayer/" && uuid_validate (slice url 9 (len url))

-- Whether `handlePublicEndpoints` lets the request pass. `/admin/queues` has its own authentication.
unfoldable pub handle_public_endpoints : (String → Bool) → Request → Bool
handle_public_endpoints uuid_validate req =
    (str_eq req.method "GET" && is_public_get req.url)
    || (str_eq req.method "POST" && (is_public_post req.url || is_relayer uuid_validate req.url))
    || starts_with req.url "/admin/queues"
