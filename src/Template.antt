-- ===== src/Template.antt =====
-- integration/render_template.go: filling the `${NAME}` references of a template from the environment.
pub mod Filled
pub mod Referred
pub mod Rendered
use integration_suricata_n_d.Base.{
  ℕ, zero, suc, ◌+◌, Bool, true, false, not, ◌&&◌, ◌||◌, Option, none, some, List, [], ◌∷◌, ◌++◌,
  ltb, leb, ◌==◌, bytes_eq, if◌then◌else◌, Bytes, codes, length,
}
use integration_suricata_n_d.Text.{trim_space, fields, split, scan_until}
use integration_suricata_n_d.Sys.{Error, outer, other, msg, wrap, Result, ok, err}

-- `[A-Za-z_]` and `[A-Za-z0-9_]`
unfoldable pub is_name_start : ℕ → Bool
is_name_start c = leb b'a' c && leb c b'z' || leb b'A' c && leb c b'Z' || c == b'_'

unfoldable pub is_name_byte : ℕ → Bool
is_name_byte c = is_name_start c || leb b'0' c && leb c b'9'

-- The name bytes in front, if a "}" follows them.
unfoldable pub name_to_brace : Bytes → Option Bytes
name_to_brace [] = none
name_to_brace (c ∷ s) =
    let rest = name_to_brace s in
    if c == b'}'
    then some []
    else if is_name_byte c
    then elim rest [ none ↦ none | some n ↦ some (c ∷ n) ]
    else none

-- `envVarRe` at the front of the text: the name in the braces.
unfoldable pub match_var : Bytes → Option Bytes
match_var (a ∷ b ∷ c ∷ s) =
    if a == b'$' && b == b'{' && is_name_start c then name_to_brace (c ∷ s) else none
match_var _ = none

pub data Piece : Type 0 where
  lit : ℕ → Piece
  var : Bytes → Piece

-- The text as the expression cuts it, after `skip` bytes of the last match.
unfoldable pub pieces_from : ℕ → Bytes → List Piece
pieces_from skip [] = []
pieces_from (suc skip) (c ∷ s) = pieces_from skip s
pieces_from zero (c ∷ s) = elim (match_var (c ∷ s)) [
  | none ↦ lit c ∷ pieces_from zero s
  | some name ↦ var name ∷ pieces_from (length name + 2) s
]

abbrev pub pieces : Bytes → List Piece
pieces s = pieces_from 0 s

-- `a < b` on strings.
unfoldable pub bytes_lt : Bytes → Bytes → Bool
bytes_lt [] [] = false
bytes_lt [] (y ∷ b) = true
bytes_lt (x ∷ a) [] = false
bytes_lt (x ∷ a) (y ∷ b) = ltb x y || x == y && bytes_lt a b

-- The set of names, kept sorted: what `sort.Strings` makes of the map's keys.
unfoldable pub insert_name : Bytes → List Bytes → List Bytes
insert_name v [] = v ∷ []
insert_name v (u ∷ us) =
    let rest = insert_name v us in
    if bytes_eq v u then u ∷ us else if bytes_lt v u then v ∷ u ∷ us else u ∷ rest

unfoldable pub vars_of : List Piece → List Bytes
vars_of [] = []
vars_of (lit c ∷ ps) = vars_of ps
vars_of (var v ∷ ps) = insert_name v (vars_of ps)

-- The variables that the environment lacks.
unfoldable pub missing_vars : (Bytes → Option Bytes) → List Bytes → List Bytes
missing_vars env [] = []
missing_vars env (v ∷ vs) =
    let rest = missing_vars env vs in elim (env v) [ none ↦ v ∷ rest | some x ↦ rest ]

abbrev pub iface_var : Bytes
iface_var = codes "SURICATA_IFACE"

-- The loop of `detectDefaultIface` over the lines; the flag is `first`.
unfoldable pub find_iface : Bool → List Bytes → Option Bytes
find_iface first [] = none
find_iface first (l ∷ lines) =
    let line = trim_space l in
    let next = find_iface first lines in
    let later = find_iface false lines in
    if bytes_eq line [] then next else if first then later else elim (fields line) [
      | [] ↦ later
      | a ∷ [] ↦ later
      | a ∷ b ∷ more ↦ if bytes_eq b (codes "00000000") then some a else later
    ]

-- `detectDefaultIface`, given what reading /proc/net/route gives.
unfoldable pub detect_default_iface : Result Bytes → Result Bytes
detect_default_iface (err e) = err (wrap (codes "failed to read /proc/net/route: ") e [])
detect_default_iface (ok table) =
    let (lines, long) = scan_until (split table) in
    elim (find_iface true lines) [
      | some name ↦ ok name
      | none ↦
          if long
          then err (
              wrap (codes "failed to scan /proc/net/route: ")
                (outer other (codes "bufio.Scanner: token too long")) [])
          else err (msg (codes "default interface not found in /proc/net/route"))
    ]

unfoldable pub member : Bytes → List Bytes → Bool
member v [] = false
member v (u ∷ us) = bytes_eq v u || member v us

-- `autoDetectEnv`: the variables that it finds, none or the one.
unfoldable pub auto_detect_env : Result Bytes → List Bytes → Result (Bytes → Option Bytes)
auto_detect_env route missing =
    if not (member iface_var missing) then ok (λ v. none) else elim (detect_default_iface route) [
      | err e ↦ err e
      | ok [] ↦ ok (λ v. none)
      | ok (c ∷ s) ↦ ok (λ v. if bytes_eq v iface_var then some (c ∷ s) else none)
    ]

abbrev pub or_else_env : (Bytes → Option Bytes) → (Bytes → Option Bytes) → Bytes → Option Bytes
or_else_env env more v = elim (env v) [ some x ↦ some x | none ↦ more v ]

-- `ReplaceAllStringFunc`; a name that the map lacks would give the empty text.
unfoldable pub substitute : (Bytes → Option Bytes) → List Piece → Bytes
substitute env [] = []
substitute env (lit c ∷ ps) = c ∷ substitute env ps
substitute env (var v ∷ ps) = elim (env v) [
  | none ↦ substitute env ps
  | some x ↦ x ++ substitute env ps
]

-- `strings.Join(missing, ", ")`
unfoldable pub comma_join : List Bytes → Bytes
comma_join [] = []
comma_join (v ∷ []) = v
comma_join (v ∷ u ∷ vs) = v ++ (codes ", " ++ comma_join (u ∷ vs))

abbrev not_set : List Bytes → Error
not_set vs = msg (codes "template requires env vars not set: " ++ comma_join vs)

-- The rest of the function, once there are variables and some are missing.
unfoldable pub render_missing :
    (Bytes → Option Bytes) → Result Bytes → List Piece → List Bytes → Result Bytes
render_missing env route ps missing = elim (auto_detect_env route missing) [
  | err e ↦ err e
  | ok found ↦ elim (missing_vars found missing) [
    | [] ↦ ok (substitute (or_else_env env found) ps)
    | v ∷ vs ↦ err (not_set (v ∷ vs))
  ]
]

-- `RenderTemplateStrict`, whose report of the names its callers drop.
unfoldable pub render_template_strict : (Bytes → Option Bytes) → Result Bytes → Bytes → Result Bytes
render_template_strict env route input =
    let ps = pieces input in
    elim (vars_of ps) [
      | [] ↦ ok input
      | v ∷ vs ↦ elim (missing_vars env (v ∷ vs)) [
        | [] ↦ ok (substitute env ps)
        | m ∷ ms ↦ render_missing env route ps (m ∷ ms)
      ]
    ]
