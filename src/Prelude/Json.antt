-- ===== src/Prelude/Json.antt =====
-- What Python's `json.loads` returns.
use Prim.Native.String.{String}
use mathlib.Core.Bool.{Bool}
use mathlib.Core.Option.{Option, none, some}
use mathlib.Core.List.{List, [], ◌∷◌}
use package.text.Mathlib.Text.{◌==◌ as str_eq}
use aws_ops_monitor.Prelude.Tests.{if◌then◌else◌}
use aws_ops_monitor.Prelude.Int.{ℤ}
use aws_ops_monitor.Prelude.Float.{Float}

mutual
  pub data Json : Type 0 where
    null : Json
    bool : Bool → Json
    int : ℤ → Json
    float : Float → Json
    text : String → Json
    list : Items → Json
    dict : Fields → Json

  pub data Items : Type 0 where
    nil : Items
    cons : Json → Items → Items

  pub data Fields : Type 0 where
    end : Fields
    field : String → Json → Fields → Fields

-- `document.get(key)`; of two fields with one name the later one counts.
unfoldable pub get_field : String → Fields → Option Json
get_field key end = none
get_field key (field k v rest) = elim (get_field key rest) [
  | some later ↦ some later
  | none ↦ if str_eq k key then some v else none
]

unfoldable pub item_list : Items → List Json
item_list nil = []
item_list (cons x xs) = x ∷ item_list xs
