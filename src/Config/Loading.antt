-- ===== src/Config/Loading.antt =====
-- internal/config/config.go: `Load`, `GetConfig` and `WatchAndReload`. viper is the parameter `Viper`:
-- its instances, with what they have read, are `V`, and the files, whose contents change while the program
-- runs, are `F`. The atomic pointer to the configuration is the state.
use momu_llmgateway.Base.{String, Option, none, some, List, [], ◌∷◌, ◌≡◌, refl, ap, ◌∙◌}
use momu_llmgateway.Config.{Config}
use momu_llmgateway.Model.{GoError, Result, ok, err}

-- `read` makes an instance for a path, with the environment in place of the keys it has, and reads the
-- file; `get` is none where the value is no text.
pub record Viper (V F : Type 0) : Type 0 where
  pub read : String → F → Result V
  pub all_keys : V → List String
  pub get : String → V → Option String
  pub set : String → String → V → V
  pub unmarshal : V → Result Config
  pub get_string_map : String → V → List (String × List String)

module _ {V F : Type 0} (viper : Viper V F) (expand_env : String → String) where
  abbrev pub set_expanded : String → Option String → V → V
  set_expanded key none v = v
  set_expanded key (some s) v = viper.set key (expand_env s) v

  -- The loop over the keys.
  unfoldable pub expand_keys : List String → V → V
  expand_keys [] v = v
  expand_keys (key ∷ keys) v = expand_keys keys (set_expanded key (viper.get key v) v)

  abbrev pub with_maps : V → Config → Config
  with_maps v cfg = record cfg {
    routing = record cfg.routing { cascade = viper.get_string_map "routing.cascade" v };
    fallback = record cfg.fallback { chains = viper.get_string_map "fallback.chains" v };
  }

  abbrev pub unmarshalled : V → Result Config → Result Config
  unmarshalled v (err e) = err e
  unmarshalled v (ok cfg) = ok (with_maps v cfg)

  abbrev pub read_config : Result V → Result Config
  read_config (err e) = err e
  read_config (ok v) =
      let v' = expand_keys (viper.all_keys v) v in unmarshalled v' (viper.unmarshal v')

  abbrev pub stored : Option Config → Result Config → Option Config × Result Config
  stored current (err e) = (current, err e)
  stored current (ok cfg) = (some cfg, ok cfg)

  -- `Load`: the current configuration after it, and its result.
  unfoldable pub load : String → F → Option Config → Option Config × Result Config
  unfolding expand_keys
  load path files current = stored current (read_config (viper.read path files))

  -- `GetConfig`.
  abbrev pub get_config : Option Config → Option Config
  get_config current = current

  abbrev pub notified : Option Config × Result Config → List Config → Option Config × List Config
  notified (current, err e) seen = (current, seen)
  notified (current, ok cfg) seen = (current, cfg ∷ seen)

  -- The callback of `WatchAndReload`, for an `onChange` that is not nil, as `main` has it: the current
  -- configuration, and those that `onChange` was given, the last one first.
  unfoldable pub on_config_change :
      String → F → Option Config × List Config → Option Config × List Config
  unfolding load
  on_config_change path files (current, seen) = notified (load path files current) seen

  -- The changes of the file, one after the other.
  unfoldable pub on_changes :
      String → List F → Option Config × List Config → Option Config × List Config
  unfolding on_config_change
  on_changes path [] x = x
  on_changes path (files ∷ rest) x = on_changes path rest (on_config_change path files x)

  abbrev watched :
      String → List F → Option Config → Result V → (Option Config × List Config) × Option GoError
  watched path changes current (err e) = ((current, []), some e)
  watched path changes current (ok v) = (on_changes path changes (current, []), none)

  -- `WatchAndReload`, with the changes that follow it: a file that cannot be read is not watched.
  unfoldable pub watch_and_reload :
      String → F → List F → Option Config → (Option Config × List Config) × Option GoError
  unfolding on_changes
  watch_and_reload path files changes current = watched path changes current (viper.read path files)

  abbrev pub added : Result Config → List Config → List Config
  added (err e) seen = seen
  added (ok cfg) seen = cfg ∷ seen

  -- The configurations of the files that can be loaded, before earlier ones, the last one first.
  unfoldable pub valid_configs : String → List F → List Config → List Config
  unfolding load
  valid_configs path [] seen = seen
  valid_configs path (files ∷ rest) seen =
      valid_configs path rest (added (load path files none).1 seen)

  abbrev pub latest : Option Config → List Config → Option Config
  latest current [] = current
  latest current (cfg ∷ seen) = some cfg

  on_config_change-latest :
      (path : String) (files : F) (current : Option Config) (seen : List Config)
      → on_config_change path files (latest current seen, seen) ≡ (
        latest current (added (load path files none).1 seen),
        added (load path files none).1 seen,
      )
  unfolding on_config_change load
  on_config_change-latest path files current seen = go (read_config (viper.read path files))
    where
      go :
          (r : Result Config)
          → notified (stored (latest current seen) r) seen
            ≡ (latest current (added (stored none r).1 seen), added (stored none r).1 seen)
      go (err e) = refl
      go (ok cfg) = refl

  on_changes-latest :
      (path : String) (changes : List F) (current : Option Config) (seen : List Config)
      → on_changes path changes (latest current seen, seen)
        ≡ (latest current (valid_configs path changes seen), valid_configs path changes seen)
  unfolding on_changes valid_configs
  on_changes-latest path [] current seen = refl
  on_changes-latest path (files ∷ rest) current seen =
      ap (on_changes path rest) (on_config_change-latest path files current seen)
      ∙ on_changes-latest path rest current (added (load path files none).1 seen)

  -- While a file that could be read is watched, `GetConfig` gives the configuration of its last
  -- change that could be loaded, or what was current before; and `onChange` is given just the
  -- configurations of such changes, in their order. A change that cannot be loaded has no effect.
  pub watch_and_reload-latest :
      (path : String) (files : F) (changes : List F) (current : Option Config) (v : V)
      → viper.read path files ≡ ok v
      → watch_and_reload path files changes current
        ≡ ((latest current (valid_configs path changes []), valid_configs path changes []), none)
  unfolding watch_and_reload
  watch_and_reload-latest path files changes current v e =
      rw e (ap (λ x. (x, none)) (on_changes-latest path changes current []))
