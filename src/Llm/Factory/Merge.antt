-- ===== src/Llm/Factory/Merge.antt =====
-- What the merged settings are, and which settings a provider can be created with.
use yellowbullv.Shared.{
  String, ◌≡◌, refl, Option, none, some, Bool, true, false, [], ◌∷◌, arith, str_eq, str_eq_iff,
  if◌then◌else◌, Bool-cases, inl, inr, ◌&&◌, not, is_some,
}
use yellowbullv.Shared.Json.{Json, is_null}
use yellowbullv.Dict.{Dict, lookup, contains, insert}
use yellowbullv.Dict.Laws.{lookup-insert, IsDistinct}
use yellowbullv.Llm.Factory.{
  defaults, given, merged, resolve_config, Provider, openai, anthropic, Created, created,
  unexpected_keyword, client_error, unsupported,
}

-- A value that is given and not `None`, else the other one.
abbrev pub prefer : Option Json → Option Json → Option Json
prefer none d = d
prefer (some v) d = if is_null v then d else some v

lookup-given_absent :
    (k : String) (config : Dict Json) → lookup k config ≡ none → lookup k (given config) ≡ none
unfolding given lookup
lookup-given_absent k [] h = refl
lookup-given_absent k ((j, v) ∷ config) h = ground (arith, lookup-given_absent k config)

lookup-merged :
    (k : String) (base config : Dict Json)
    → IsDistinct config
    → lookup k (merged base (given config)) ≡ prefer (lookup k config) (lookup k base)
unfolding given merged lookup
lookup-merged k base [] d = refl
lookup-merged k base ((j, v) ∷ config) (absent, d) =
    let ih = lookup-merged k base config d in
    let ih' = lookup-merged k (insert j v base) config d in
    let put = lookup-insert j k v base in
    elim (Bool-cases (is_null v)) [
      | inl n ↦ ground (arith, str_eq_iff j k)
      | inr n ↦ ground (arith, str_eq_iff j k)
    ]

-- The merged settings hold, under each name, the value of the configuration if it has one that is
-- not `None`, and the default otherwise; a configuration has each name once.
pub resolve_config_lem :
    (k : String) (config : Dict Json)
    → IsDistinct config
    → lookup k (resolve_config config) ≡ prefer (lookup k config) (lookup k defaults)
unfolding resolve_config
resolve_config_lem k config d = lookup-merged k defaults config d

-- Every name is a keyword of the constructors.
abbrev pub all_known : Dict Json → Bool
all_known [] = true
all_known ((k, v) ∷ d) = contains k defaults && all_known d

abbrev pub is_created : Created → Bool
is_created (created p kwargs) = true
is_created (unexpected_keyword k) = false
is_created (client_error e) = false
is_created (unsupported provider) = false

-- The provider of a name.
abbrev pub provider_named : String → Option Provider
provider_named name =
    if str_eq name "openai"
    then some openai
    else if str_eq name "anthropic"
    then some anthropic
    else none

-- The body of a constructor raises nothing.
abbrev pub accepts : (Provider → Dict Json → Option String) → Option Provider → Dict Json → Bool
accepts client none kwargs = false
accepts client (some p) kwargs = not (is_some (client p kwargs))
