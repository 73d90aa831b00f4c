-- ===== src/Middleware.antt =====
-- The hooks that each request passes besides the authentication: src/server/middleware/rateLimit.ts,
-- engineMode.ts and error.ts. The expiry of the rate limit's counters is left out, since the key of a
-- minute is not used again.
pub mod Limits
use thirdweb_engine.Base.{
  ℕ, ◌/◌, ◌+◌, Bool, true, false, not, String, Option, none, some, ◌&&◌, ◌||◌, str_eq, is_some,
  or_else, if◌then◌else◌,
}
use thirdweb_engine.Base.Int.{ℤ, pos, negsuc, ltb_ℤ}
use thirdweb_engine.Redis.{Redis}
use thirdweb_engine.Redis.Values.{rate_limit, get_number}
use thirdweb_engine.Engine.{Task, Result, ok, err, Thrown, pure, lift, gets, modify, ◌>>=◌, ◌>>◌}

-- `createCustomError` with the status TOO_MANY_REQUESTS. The message tells the limit.
abbrev pub too_many_requests {ℓ} : {A : Type ℓ} → String → Result A
too_many_requests message =
    err (record { message = some message; code = some "TOO_MANY_REQUESTS"; status_code = some 429 })

abbrev pub over : Option ℤ → ℕ → Bool
over (some n) limit = ltb_ℤ (pos limit) n
over none limit = false

module _ (R : Redis) where
  open R use {Store, at, incr}

  -- `withRateLimit`, at a time, for a URL
  unfoldable pub rate_limit_request : ℕ → String → ℕ → String → Task Store (Unit {0})
  rate_limit_request limit message now url =
      if str_eq url "/" || str_eq url "/json"
      then pure tt
      else (modify (λ s. incr s (rate_limit (now / 60000)))
          >> gets (λ s. get_number (at s (rate_limit (now / 60000))))
          >>= λ count. if over count limit then lift (too_many_requests message) else pure tt)

-- The reply of a hook or of the error handler.
pub record ErrorReply : Type 0 where
  pub status : ℕ
  pub code : Option String
  pub message : Option String

-- `withEnforceEngineMode`: the reply to a request, if there is one.
unfoldable pub enforce_engine_mode : String → String → Option ErrorReply
enforce_engine_mode mode method =
    if str_eq mode "sandbox" && not (str_eq method "GET")
    then some
        (record { status = 405; code = none; message = some "Read Only Mode. Method Not Allowed" })
    else none

-- An error as the error handler sees it. `parseEthersError` and the parsing of a ZodError's message
-- are its first two fields; the names of status codes come from a library.
pub record HandlerEnv : Type 0 where
  pub is_ethers_error : Thrown → Bool
  pub is_zod_error : Thrown → Bool
  -- the message of the first item that a ZodError's message parses to
  pub zod_message : Thrown → Option String
  pub status_name : ℕ → Option String

abbrev pub or_status : Option ℕ → ℕ
or_status (some n) = n
or_status none = 500

-- A text that `||` takes as true.
abbrev pub or_default : Option String → String → Option String
or_default none d = some d
or_default (some s) d = if str_eq s "" then some d else some s

module _ (env : HandlerEnv) where
  -- `withErrorHandler`. A thrown value has `statusCode` and `code` if they are not absent.
  unfoldable pub handle_error : Thrown → ErrorReply
  handle_error e =
      if env.is_ethers_error e
      then record {
        status = 400;
        code = some "BAD_REQUEST";
        message = if is_some e.code then e.code else e.message;
      }
      else if env.is_zod_error e
      then record {
        status = 400;
        code = some "BAD_REQUEST";
        message = or_else (env.zod_message e) (some "Invalid Request");
      }
      else if is_some e.status_code && is_some e.code
      then record {
        status = or_status e.status_code;
        code = or_else e.code (env.status_name (or_status e.status_code));
        message = or_else e.message (some "Internal Server Error");
      }
      else record {
        status = 500;
        code = some "INTERNAL_SERVER_ERROR";
        message = or_default e.message "Internal Server Error";
      }
