-- ===== src/Json.antt =====
-- What the program uses of encoding/json: objects of flags and texts, read and written by the tags of a struct.
use integration_suricata_n_d.Base.{
  Bool, true, false, Option, none, some, List, [], ◌∷◌, if◌then◌else◌, Bytes, codes, bytes_eq,
}
use integration_suricata_n_d.Config.{is_empty}
use integration_suricata_n_d.Sys.{other, Error, outer, Result, ok, err}

pub data Value : Type 0 where
  flag : Bool → Value
  text : Bytes → Value

-- The members in their order. A text stands for itself, as it does where it is UTF-8: that encoding/json replaces other bytes is
-- left out.
abbrev pub Object : Type 0
Object = List (Bytes × Value)

-- The value of a member: the last of its name.
abbrev pub member_of : Bytes → Object → Option Value
member_of k [] = none
member_of k ((j, v) ∷ o) = elim (member_of k o) [
  | some u ↦ some u
  | none ↦ if bytes_eq j k then some v else none
]

abbrev pub wrong_type : Error
wrong_type = outer other (codes "json: cannot unmarshal into Go struct field")

-- A member that is not there leaves the zero value.
abbrev pub as_flag : Option Value → Result Bool
as_flag none = ok false
as_flag (some (flag b)) = ok b
as_flag (some (text s)) = err wrong_type

abbrev pub as_text : Option Value → Result Bytes
as_text none = ok []
as_text (some (text s)) = ok s
as_text (some (flag b)) = err wrong_type

-- A member with `omitempty`.
abbrev pub omit_flag : Bytes → Bool → Object
omit_flag k true = (k, flag true) ∷ []
omit_flag k false = []

abbrev pub omit_text : Bytes → Bytes → Object
omit_text k s = if is_empty s then [] else (k, text s) ∷ []
