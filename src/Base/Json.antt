-- ===== src/Base/Json.antt =====
-- JSON values, as encoding/json reads them. The text syntax is a pair of functions that the
-- theorems take as a parameter; what is decoded from a value is written out.
use garm_provider_truenas.Base.{◌≡◌, Bool, Option, some}
use garm_provider_truenas.Base.Text.{Text}

mutual
  pub data Value : Type 0 where
    null : Value
    boolean : Bool → Value
    number : Text → Value
    string : Text → Value
    array : Items → Value
    object : Fields → Value

  pub data Items : Type 0 where
    end : Items
    item : Value → Items → Items

  pub data Fields : Type 0 where
    close : Fields
    field : Text → Value → Fields → Fields

-- `json.Marshal` and `json.Unmarshal`, between texts and values.
pub record Json : Type 0 where
  pub marshal : Value → Text
  pub unmarshal : Text → Option Value

-- What is written is read back.
abbrev pub ReadsBack : Json → Value → Type 0
ReadsBack json v = json.unmarshal (json.marshal v) ≡ some v
