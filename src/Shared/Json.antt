-- ===== src/Shared/Json.antt =====
-- Values of the dynamic language, as far as JSON carries them. `None` is `null`. A float is kept by
-- its literal: no arithmetic is done on one here.
use Prim.Native.Nat.{ℕ}
use Prim.Native.String.{String}
use mathlib.Core.Bool.{Bool, true, false}
use mathlib.Core.List.{List, [], ◌∷◌}

-- `negsuc n` is -(n + 1).
pub data ℤ : Type 0 where
  pos : ℕ → ℤ
  negsuc : ℕ → ℤ

mutual
  pub data Json : Type 0 where
    null : Json
    bool : Bool → Json
    int : ℤ → Json
    float : String → Json
    str : String → Json
    arr : Items → Json
    obj : Fields → Json

  pub data Items : Type 0 where
    nil : Items
    cons : Json → Items → Items

  pub data Fields : Type 0 where
    end : Fields
    field : String → Json → Fields → Fields

abbrev pub items : Items → List Json
items nil = []
items (cons v vs) = v ∷ items vs

abbrev pub fields : Fields → List (String × Json)
fields end = []
fields (field k v fs) = (k, v) ∷ fields fs

-- `isinstance(v, str)`
abbrev pub is_str : Json → Bool
is_str (str s) = true
is_str _ = false

-- `isinstance(v, dict)`
abbrev pub is_dict : Json → Bool
is_dict (obj fs) = true
is_dict _ = false

-- `v is None`
abbrev pub is_null : Json → Bool
is_null null = true
is_null _ = false
