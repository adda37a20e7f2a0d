-- ===== src/Feature.antt =====
-- v2/feature.go: the feature flags that are read from the environment once.
pub mod Laws
pub mod Threads
use gax_go.Prelude.{List, [], ◌∷◌, Option, none, some, Bool, true, false, if◌then◌else◌, map}
use gax_go.Prelude.Text.{Text, codes, text_eq, strip_prefix, cut, lower}
use gax_go.Prelude.Dict.{Dict, get, put}

-- `featureEnabledOnce` and `featureEnabledStore`; a nil map is `[]`.
pub record Features : Type 0 where
  pub once : Bool
  pub store : Dict Bool

abbrev pub experimental : Text
experimental = codes "GOOGLE_SDK_GO_EXPERIMENTAL_"

abbrev pub general : Text
general = codes "GOOGLE_SDK_GO_"

-- strings.HasPrefix(s, prefix)
abbrev pub has_prefix : Text → Text → Bool
has_prefix prefix s = elim (strip_prefix prefix s) [ none ↦ false | some _ ↦ true ]

-- strings.TrimPrefix(s, prefix)
abbrev pub trim_prefix : Text → Text → Text
trim_prefix prefix s = elim (strip_prefix prefix s) [ none ↦ s | some t ↦ t ]

-- The key that an entry KEY=VALUE sets, behind `prefix`.
unfoldable pub parse_env : Text → Text → Option Text
parse_env prefix env = elim (cut b'=' env) [
  | none ↦ none
  | some (key, value) ↦
      if text_eq (map lower value) (codes "true") then some (trim_prefix prefix key) else none
]

-- One round of the loop over os.Environ(): the key that is set to true, if any.
unfoldable pub read_env : Text → Option Text
unfolding parse_env
read_env env =
    if has_prefix experimental env
    then parse_env experimental env
    else if has_prefix general env
    then parse_env general env
    else none

unfoldable pub load_entry : Text → Dict Bool → Dict Bool
unfolding read_env
load_entry env store = elim (read_env env) [ none ↦ store | some key ↦ put store key true ]

unfoldable pub load : List Text → Dict Bool → Dict Bool
unfolding load_entry
load [] store = store
load (env ∷ environ) store = load environ (load_entry env store)

-- A missing key reads as false.
unfoldable pub flag : Dict Bool → Text → Bool
flag store name = elim (get store name) [ none ↦ false | some b ↦ b ]

unfoldable pub do_once : List Text → Features → Features
do_once environ f = if f.once then f else record { once = true; store = load environ [] }

unfoldable pub is_feature_enabled : List Text → Features → Text → Bool × Features
unfolding do_once load flag
is_feature_enabled environ f name = let f' = do_once environ f in (flag f'.store name, f')

-- TestOnlyResetIsFeatureEnabled, and the state at the start.
unfoldable pub reset : Features
reset = record { once = false; store = [] }
