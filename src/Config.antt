-- ===== src/Config.antt =====
-- pkg/config/config.go: the configuration, its defaults and `Merge`; and `loadConfig` of
-- cmd/mcp-server/main.go. The YAML decoder is outside the repository: the content of a configuration
-- file enters as the result of `LoadFile`.
pub mod Merge
use make_mcp.Common.{zero, suc, Option, none, some, Bool, true, false, List, [], ◌∷◌}
use make_mcp.Common.Outcome.{Outcome, ok, fail, ◌>>=◌}
use make_mcp.Text.{Text, codes}
use make_mcp.Go.Strconv.{ℤ, pos, negsuc}

-- `time.Duration` in nanoseconds.
abbrev pub Duration : Type 0
Duration = ℤ

abbrev pub ten_minutes : Duration
ten_minutes = pos 600_000_000_000

pub record Timeouts : Type 0 where
  pub low : Duration
  pub medium : Duration
  pub high : Duration

pub record Config : Type 0 where
  pub delimiter : Text
  pub makefiles : List Text
  pub strict : Bool
  pub transport : Text
  pub listen : Text
  pub log_path : Text
  pub debug : Bool
  pub timeouts : Timeouts

-- `Default`.
abbrev pub default_config : Config
default_config = record {
  delimiter = codes "@";
  makefiles = [];
  strict = false;
  transport = codes "stdio";
  listen = codes "127.0.0.1:9378";
  log_path = codes "stderr";
  debug = false;
  timeouts = record { low = ten_minutes; medium = ten_minutes; high = ten_minutes };
}

-- The zero value of the struct.
abbrev pub zero_config : Config
zero_config = record {
  delimiter = [];
  makefiles = [];
  strict = false;
  transport = [];
  listen = [];
  log_path = [];
  debug = false;
  timeouts = record { low = pos 0; medium = pos 0; high = pos 0 };
}

-- `if override.F != "" { out.F = override.F }`, and with `len(...) > 0`.
abbrev pub override_list {ℓ} : {A : Type ℓ} → List A → List A → List A
override_list base [] = base
override_list base (x ∷ xs) = x ∷ xs

abbrev pub override_bool : Bool → Bool → Bool
override_bool base true = true
override_bool base false = base

abbrev pub override_duration : Duration → Duration → Duration
override_duration base (pos zero) = base
override_duration base (pos (suc n)) = pos (suc n)
override_duration base (negsuc n) = negsuc n

-- `Merge`.
unfoldable pub merge : Config → Config → Config
merge base over = record {
  delimiter = override_list base.delimiter over.delimiter;
  makefiles = override_list base.makefiles over.makefiles;
  strict = override_bool base.strict over.strict;
  transport = override_list base.transport over.transport;
  listen = override_list base.listen over.listen;
  log_path = override_list base.log_path over.log_path;
  debug = override_bool base.debug over.debug;
  timeouts = record {
    low = override_duration base.timeouts.low over.timeouts.low;
    medium = override_duration base.timeouts.medium over.timeouts.medium;
    high = override_duration base.timeouts.high over.timeouts.high;
  };
}

-- `read` and `parse` errors of `LoadFile`.
pub data ConfigError : Type 0 where
  unreadable unparsable : ConfigError

-- `LoadFile` by path.
abbrev pub ConfigFiles : Type 0
ConfigFiles = Text → Outcome ConfigError Config

-- `LoadFile`: `read` is `os.ReadFile`, and `decode` the strict YAML decoder.
unfoldable pub load_file : (Text → Option Text) → (Text → Option Config) → ConfigFiles
load_file read decode path = elim (read path) [
  | none ↦ fail unreadable
  | some bytes ↦ elim (decode bytes) [ none ↦ fail unparsable | some cfg ↦ ok cfg ]
]

-- `loadConfig`.
unfoldable pub load_config : ConfigFiles → Text → Config → Outcome ConfigError Config
unfolding merge
load_config files [] over = ok (merge default_config over)
load_config files (c ∷ path) over =
    files (c ∷ path) >>= λ file. ok (merge (merge default_config file) over)
