-- ===== src/Settings/Records.antt =====
-- config/settings.py: the records of the settings with their defaults. A number of seconds is a
-- natural number of ticks, the back-off factor a fraction; the settings of a provider, among which
-- others than the known ones are allowed, are a dictionary.
use yellowbullv.Shared.{ℕ, String, Bool, true, false, List, []}
use yellowbullv.Shared.Json.{Json}
use yellowbullv.Dict.{Dict}

pub record LlmConfig : Type 0 where
  pub active : String
  pub providers : Dict (Dict Json)

abbrev pub default_llm : LlmConfig
default_llm = record { active = "openai"; providers = [] }

pub record ToolExecutorConfig : Type 0 where
  pub tool_timeout_seconds : ℕ
  pub max_concurrent_tools : ℕ
  pub enable_cache : Bool
  pub cache_ttl_seconds : ℕ
  pub cache_max_size : ℕ
  pub retry_max_attempts : ℕ
  pub retry_backoff_factor : ℕ × ℕ

abbrev pub default_tools : ToolExecutorConfig
default_tools = record {
  tool_timeout_seconds = 30;
  max_concurrent_tools = 5;
  enable_cache = false;
  cache_ttl_seconds = 300;
  cache_max_size = 64;
  retry_max_attempts = 1;
  retry_backoff_factor = (1, 1);
}

pub record AgentSettings : Type 0 where
  pub system_prompt : String
  pub max_chain_depth : ℕ
  pub context_window : ℕ
  pub tool_retry_limit : ℕ
  pub max_tool_calls_per_turn : ℕ
  pub tools : ToolExecutorConfig

abbrev pub default_agent : AgentSettings
default_agent = record {
  system_prompt =
      "You are a helpful AI assistant. You can use tools to help answer questions. Think step by step and provide clear, accurate responses.";
  max_chain_depth = 100;
  context_window = 48;
  tool_retry_limit = 2;
  max_tool_calls_per_turn = 5;
  tools = default_tools;
}

pub record SecuritySettings : Type 0 where
  pub rate_limit_enabled : Bool
  pub rate_limit_requests : ℕ
  pub rate_limit_window_seconds : ℕ
  pub max_message_length : ℕ
  pub prompt_injection_detection : Bool
  pub api_key_auth_enabled : Bool
  pub api_keys : List String

abbrev pub default_security : SecuritySettings
default_security = record {
  rate_limit_enabled = false;
  rate_limit_requests = 60;
  rate_limit_window_seconds = 60;
  max_message_length = 4096;
  prompt_injection_detection = true;
  api_key_auth_enabled = false;
  api_keys = [];
}

pub record ServerConfig : Type 0 where
  pub host : String
  pub port : ℕ
  pub debug : Bool

abbrev pub default_server : ServerConfig
default_server = record { host = "127.0.0.1"; port = 8000; debug = false }

pub record Settings : Type 0 where
  pub llm : LlmConfig
  pub agent : AgentSettings
  pub server : ServerConfig
  pub security : SecuritySettings

abbrev pub default_settings : Settings
default_settings = record {
  llm = default_llm;
  agent = default_agent;
  server = default_server;
  security = default_security;
}
