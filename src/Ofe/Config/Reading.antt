-- ===== src/Ofe/Config/Reading.antt =====
-- EngineConfig::read_value, from_yaml and load_from_file of include/ofe/config/engine_config.h, over
-- the nodes of the YAML library.
pub mod Outcome
use Prim.Native.String.{String}
use rudra_org.Common.{ℕ, Bool, Option, none, some, and_then, List, [], ◌∷◌, if◌then◌else◌}
use rudra_org.Float.{Double}
use rudra_org.Ofe.Config.{EngineConfig, default_config}
use rudra_org.Ofe.Config.Statements.{Member, Statement, unsigned, double, flag, text, statements}

-- What `root[key]` gives: an exception, as on a scalar, no node, or a node.
pub data Subscript (Node : Type 0) : Type 0 where
  bad_subscript undefined : Subscript Node
  defined : Node → Subscript Node

-- The YAML library. `none` is an exception.
pub record Yaml (Node D : Type 0) : Type 0 where
  pub subscript : Node → String → Subscript Node
  pub is_null : Node → Bool
  pub as_unsigned : (bits : ℕ) → Node → Option ℕ
  pub as_double : Node → Option D
  pub as_bool : Node → Option Bool
  pub as_string : Node → Option String
  pub load_file : String → Option Node

module _ {Node D : Type 0} (yaml : Yaml Node D) where
  abbrev pub value_at : {A : Type 0} → (Node → Option A) → A → Subscript Node → Option A
  value_at as_type fallback bad_subscript = none
  value_at as_type fallback undefined = some fallback
  value_at as_type fallback (defined value) =
      if yaml.is_null value then some fallback else as_type value

  unfoldable pub read_value : {A : Type 0} → (Node → Option A) → Node → String → A → Option A
  read_value as_type root key fallback = value_at as_type fallback (yaml.subscript root key)

  abbrev pub assign :
      {A : Type 0} → Member D A → EngineConfig D → Option A → Option (EngineConfig D)
  assign m config none = none
  assign m config (some v) = some (m.set v config)

  unfoldable pub perform : Node → Statement D → EngineConfig D → Option (EngineConfig D)
  perform root (unsigned bits key m) config =
      assign m config (read_value (yaml.as_unsigned bits) root key (m.get config))
  perform root (double key m) config =
      assign m config (read_value yaml.as_double root key (m.get config))
  perform root (flag key m) config =
      assign m config (read_value yaml.as_bool root key (m.get config))
  perform root (text key m) config =
      assign m config (read_value yaml.as_string root key (m.get config))

  -- An exception ends the function.
  unfoldable pub perform_all : Node → List (Statement D) → EngineConfig D → Option (EngineConfig D)
  perform_all root [] config = some config
  perform_all root (s ∷ ss) config = and_then (perform root s config) (perform_all root ss)

  unfoldable pub from_yaml : ⦃d : Double D⦄ → Node → Option (EngineConfig D)
  from_yaml root = perform_all root statements default_config

  unfoldable pub load_from_file : ⦃d : Double D⦄ → String → Option (EngineConfig D)
  load_from_file file_path = and_then (yaml.load_file file_path) from_yaml
