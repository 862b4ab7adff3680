-- ===== src/Validate/Steps.antt =====
-- What each step of the checks accepts: `integration/validate_ndpi_config.go`.
use integration_suricata_n_d.Base.{
  Bool, true, false, not, Option, none, some, [], ◌≡◌, ◌⊎◌, ◌↔◌, ap, arith, Bytes, codes,
  if◌then◌else◌,
}
use integration_suricata_n_d.Text.{contains, to_lower}
use integration_suricata_n_d.Sys.{
  Result, ok, err, World, Node, read_file, is_dir, base, Fault, missing, is_directory_error,
}
use integration_suricata_n_d.Service.Reach.{stat_fine, call_fine}
use integration_suricata_n_d.Validate.{must_be_file, must_be_dir, template_error}

-- The path holds something that is not a directory, or a directory.
abbrev pub holds_file : World → Bytes → Bool
holds_file w p = elim (w.files p) [ none ↦ false | some n ↦ not (is_dir n.kind) ]

abbrev pub holds_dir : World → Bytes → Bool
holds_dir w p = elim (w.files p) [ none ↦ false | some n ↦ is_dir n.kind ]

pub must_be_file_lem :
    (path what : Bytes) (w : World)
    → w.faults ≡ []
    → (((must_be_file path what w).0 ≡ none) ↔ (holds_file w path ≡ true))
      × ((must_be_file path what w).1 ≡ w)
unfolding must_be_file
must_be_file_lem path what w h =
    let answer = ap (λ (r : Result Node × World). r.0) (stat_fine path w h) in
    let same = ap (λ (r : Result Node × World). r.1) (stat_fine path w h) in
    (rw (answer, must_be_file) (ground arith), same)

pub must_be_dir_lem :
    (path what : Bytes) (w : World)
    → w.faults ≡ []
    → (((must_be_dir path what w).0 ≡ none) ↔ (holds_dir w path ≡ true))
      × ((must_be_dir path what w).1 ≡ w)
unfolding must_be_dir
must_be_dir_lem path what w h =
    let answer = ap (λ (r : Result Node × World). r.0) (stat_fine path w h) in
    let same = ap (λ (r : Result Node × World). r.1) (stat_fine path w h) in
    (rw (answer, must_be_dir) (ground arith), same)

-- The text mentions what the check looks for.
abbrev pub Mentions : Bytes → Bytes → Type 0
Mentions plugin text =
    (contains (to_lower text) (codes "plugins") ≡ true)
    × ((contains (to_lower text) (to_lower (base plugin)) ≡ true)
        ⊎ (contains (to_lower text) (codes "ndpi.so") ≡ true))

pub template_error_lem :
    (plugin text : Bytes) → (template_error plugin text ≡ none) ↔ Mentions plugin text
unfolding template_error
template_error_lem plugin text = ground arith

abbrev read_result : Bytes → Option Fault × World → Result Bytes × World
read_result p c = elim c.0 [
  | some x ↦ (err x.error, c.1)
  | none ↦ (
    elim (c.1.files p) [
      | none ↦ err missing
      | some n ↦ if is_dir n.kind then err is_directory_error else ok n.content
    ],
    c.1,
  )
]

-- Where no system call fails, reading gives the content of a file, and leaves the machine as it is.
pub read_file_fine :
    (p : Bytes) (w : World) → w.faults ≡ [] → read_file p w ≡ read_result p (none, w)
unfolding read_file
read_file_fine p w h = ap (read_result p) (call_fine w h)
