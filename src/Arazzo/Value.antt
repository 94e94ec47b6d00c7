-- ===== src/Arazzo/Value.antt =====
-- The Go values (`any`) that expressions, parameters and outputs have.
use libopenapi.Prelude.{
  ℕ, Bool, Option, none, some, Bytes, eqb, if◌then◌else◌, ◌≡◌, refl, arith, eqb_iff, eqb_refl,
}
use libopenapi.Prelude.Number.{ℤ}
use libopenapi.Yaml.{Node}

-- `float64` with the operations of `strconv` and the language that the program uses. The program
-- does not implement them.
pub record Floats : Type 1 where
  pub Float : Type 0
  pub parse_float : Bytes → Option Float
  pub format_float : Float → Bytes
  pub of_int : ℤ → Float
  pub float_eq : Float → Float → Bool
  pub float_lt : Float → Float → Bool

-- The integer types, by name.
pub data IntType : Type 0 where
  int int8 int16 int32 int64 uint uint8 uint16 uint32 uint64 : IntType

-- `F` is the type of floating-point numbers. `other` stands for a value of any further type, such
-- as a pointer to an object of the document, and tells such values apart.
mutual
  pub data Value (F : Type 0) : Type 0 where
    null : Value F
    text : Bytes → Value F
    boolean : Bool → Value F
    integer : IntType → ℤ → Value F
    float32 : F → Value F
    float64 : F → Value F
    slice : Values F → Value F
    object : Entries F → Value F
    any_object : AnyEntries F → Value F
    yaml : Node → Value F
    step_context : Dict F → Dict F → Value F
    workflow_context : Dict F → Dict F → Value F
    source_context : Bytes → Value F
    other : ℕ → Value F

  pub data Values (F : Type 0) : Type 0 where
    nil : Values F
    cons : Value F → Values F → Values F

  -- `map[string]any`.
  pub data Entries (F : Type 0) : Type 0 where
    end : Entries F
    entry : Bytes → Value F → Entries F → Entries F

  -- `map[any]any`.
  pub data AnyEntries (F : Type 0) : Type 0 where
    any_end : AnyEntries F
    any_entry : Value F → Value F → AnyEntries F → AnyEntries F

  -- A `map[string]any` that may be nil.
  pub data Dict (F : Type 0) : Type 0 where
    no_dict : Dict F
    dict : Entries F → Dict F

module _ {F : Type 0} where
  unfoldable pub get : Bytes → Entries F → Option (Value F)
  get k end = none
  get k (entry j v m) = if eqb j k then some v else get k m

  unfoldable pub put : Bytes → Value F → Entries F → Entries F
  put k v end = entry k v end
  put k v (entry j w m) = if eqb j k then entry k v m else entry j w (put k v m)

  pub get-put :
      (k j : Bytes) (v : Value F) (m : Entries F)
      → get j (put k v m) ≡ (if eqb k j then some v else get j m)
  unfolding get put
  get-put k j v end = refl
  get-put k j v (entry i w m) =
      ground (arith, eqb_iff k j, eqb_iff i k, eqb_iff i j, get-put k j v m)

  pub get-put_self : (k : Bytes) (v : Value F) (m : Entries F) → get k (put k v m) ≡ some v
  get-put_self k v m = rw (get-put k k v m, eqb_refl k)
