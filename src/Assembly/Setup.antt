-- ===== src/Assembly/Setup.antt =====
-- api/server.py: what `create_app` makes of the settings: the model, the two middleware classes and the
-- validator of the user's text.
use yellowbullv.Shared.{String, Option, none, some, []}
use yellowbullv.Shared.Json.{Json}
use yellowbullv.Dict.{Dict, lookup}
use yellowbullv.Settings.Records.{Settings}
use yellowbullv.Llm.Factory.{Provider, Created, create_llm}
use yellowbullv.Middleware.ApiKey.{ApiKeyAuth}
use yellowbullv.Middleware.ApiKey
use yellowbullv.Middleware.RateLimit.{RateLimit}
use yellowbullv.Middleware.RateLimit
use yellowbullv.Validation.{InputValidator}

abbrev provider_or_empty : Option (Dict Json) → Dict Json
provider_or_empty none = []
provider_or_empty (some config) = config

-- `client` is what the body of a provider's constructor raises, if it does.
-- `create_llm(settings.llm.active, settings.llm.providers.get(settings.llm.active, {}))`
unfoldable pub created_llm : (Provider → Dict Json → Option String) → Settings → Created
unfolding lookup create_llm
created_llm client settings =
    create_llm client settings.llm.active
      (provider_or_empty (lookup settings.llm.active settings.llm.providers))

unfoldable pub api_key_auth : Settings → ApiKeyAuth
api_key_auth settings =
    ApiKey.init settings.security.api_key_auth_enabled settings.security.api_keys []

unfoldable pub rate_limit : Settings → RateLimit
rate_limit settings =
    RateLimit.init settings.security.rate_limit_enabled settings.security.rate_limit_requests
      settings.security.rate_limit_window_seconds []

unfoldable pub input_validator : Settings → InputValidator
input_validator settings = record {
  max_length = settings.security.max_message_length;
  injection_detection = settings.security.prompt_injection_detection;
}
