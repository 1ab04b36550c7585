-- ===== src/Ofe/Config/Tests.antt =====
-- Runs of the reading of a configuration, over a small library of nodes.
use Prim.Native.String.{String}
use text.Mathlib.Text as Text
use rudra_org.Common.{
  ℕ, ◌*◌, ◌^◌, ◌≡◌, refl, true, false, Option, none, some, List, [], ◌∷◌, ltb, if◌then◌else◌,
}
use rudra_org.Common.Int.{pos}
use rudra_org.Float.Fixed.{Fixed, fixed_double, unit}
use rudra_org.Ofe.Config.{default_config}
use rudra_org.Ofe.Config.Statements.{statements}
use rudra_org.Ofe.Config.Reading.{
  Subscript, bad_subscript, undefined, defined, Yaml, read_value, perform, perform_all, from_yaml,
  load_from_file,
}
use rudra_org.Ofe.Config.Reading.Outcome.{any_bad, expected, from_yaml_lem}

-- Documents of numbers and nulls.
data Node : Type 0 where
  nothing : Node
  number : ℕ → Node
  entries : List (String × Option ℕ) → Node

abbrev node_of : Option ℕ → Node
node_of none = nothing
node_of (some n) = number n

abbrev find : List (String × Option ℕ) → String → Subscript Node
find [] key = undefined
find ((k, v) ∷ m) key =
    let further = find m key in if Text.◌==◌ k key then defined (node_of v) else further

abbrev subscript_of : Node → String → Subscript Node
subscript_of nothing key = undefined
subscript_of (number n) key = bad_subscript
subscript_of (entries m) key = find m key

abbrev yaml : Yaml Node Fixed
yaml = record {
  subscript = subscript_of;
  is_null = λ node. elim node [ nothing ↦ true | _ ↦ false ];
  as_unsigned =
      λ bits node. elim node [ number n ↦ (if ltb n (2 ^ bits) then some n else none) | _ ↦ none ];
  as_double = λ node. elim node [ number n ↦ some (pos (n * unit)) | _ ↦ none ];
  as_bool = λ node. none;
  as_string = λ node. none;
  load_file = λ path. none;
}

-- A number of threads, a null and a key that nothing reads.
abbrev document : Node
document = entries (("worker_threads", some 3) ∷ ("api_port", none) ∷ ("no_such_key", some 5) ∷ [])

threads : from_yaml yaml document ≡ some (record default_config { worker_threads = 3 })
unfolding from_yaml perform_all perform read_value
threads = refl

-- A port of 17 bits is refused.
wide_port : from_yaml yaml (entries (("api_port", some 70000) ∷ [])) ≡ none
unfolding from_yaml perform_all perform read_value
wide_port = refl

missing_file : load_from_file yaml "engine.yaml" ≡ none
unfolding load_from_file
missing_file = refl

from_yaml_lem_example :
    from_yaml yaml document
    ≡ (if any_bad yaml document statements then none else some (expected yaml document))
from_yaml_lem_example = from_yaml_lem yaml document
