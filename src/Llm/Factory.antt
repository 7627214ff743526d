-- ===== src/Llm/Factory.antt =====
-- llm/factory.py: the settings of a provider, and the choice of one. The constructors of the
-- providers take exactly the keywords that the defaults have.
pub mod Merge
use yellowbullv.Shared.{
  String, Option, none, some, Bool, true, false, List, [], ◌∷◌, str_eq, if◌then◌else◌,
}
use yellowbullv.Shared.Json.{ℤ, pos, Json, null, str, int, float, is_null}
use yellowbullv.Dict.{Dict, insert, contains}

-- `LLMProviderConfig().model_dump()`
abbrev pub defaults : Dict Json
defaults =
    ("api_key", str "")
    ∷ ("base_url", null)
    ∷ ("model", str "gpt-4o")
    ∷ ("temperature", float "0.7")
    ∷ ("max_tokens", int (pos 4096))
    ∷ ("timeout", float "3000.0")
    ∷ []

-- `{k: v for k, v in config.items() if v is not None}`
unfoldable pub given : Dict Json → Dict Json
given [] = []
given ((k, v) ∷ config) = let rest = given config in if is_null v then rest else (k, v) ∷ rest

-- `{**base, **over}`
unfoldable pub merged : Dict Json → Dict Json → Dict Json
merged base [] = base
merged base ((k, v) ∷ over) = merged (insert k v base) over

unfoldable pub resolve_config : Dict Json → Dict Json
unfolding given merged
resolve_config config = merged defaults (given config)

pub data Provider : Type 0 where
  openai anthropic : Provider

-- An instance with its settings, the `TypeError` of a constructor for a keyword that it does not
-- have, what `httpx.Timeout` or the client of the API raises in the body of a constructor, or the
-- `ValueError` for an unknown provider.
pub data Created : Type 0 where
  created : Provider → Dict Json → Created
  unexpected_keyword : String → Created
  client_error : String → Created
  unsupported : String → Created

abbrev pub built : Provider → Dict Json → Option String → Created
built p kwargs none = created p kwargs
built p kwargs (some e) = client_error e

-- `client` is what making the timeout and the client of the API raises on the settings, if it does.
module _ (client : Provider → Dict Json → Option String) where
  -- The call of a constructor with keywords: the first one that it does not have is reported; with none
  -- such, its body runs.
  unfoldable pub construct : Provider → Dict Json → Dict Json → Created
  construct p kwargs [] = built p kwargs (client p kwargs)
  construct p kwargs ((k, v) ∷ rest) =
      let later = construct p kwargs rest in
      if contains k defaults then later else unexpected_keyword k

  unfoldable pub create_llm : String → Dict Json → Created
  create_llm provider config =
      let kwargs = resolve_config config in
      if str_eq provider "openai"
      then construct openai kwargs kwargs
      else if str_eq provider "anthropic"
      then construct anthropic kwargs kwargs
      else unsupported provider
