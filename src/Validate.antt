-- ===== src/Validate.antt =====
-- integration/validate_config.go and validate_ndpi_config.go: the checks before a start.
pub mod Passed
pub mod Steps
use integration_suricata_n_d.Base.{
  Bool, true, false, not, ◌&&◌, Option, none, some, ◌++◌, if◌then◌else◌, Bytes, codes, le_zero, [],
}
use integration_suricata_n_d.Text.{contains, to_lower}
use integration_suricata_n_d.Config.{is_shutdown}
use integration_suricata_n_d.Options.{NdpiValidateOptions}
use integration_suricata_n_d.Sys.{
  not_exist, Error, msg, wrap, is_kind, Result, ok, err, Node, M, stat, read_file, is_dir, base,
  join_path,
}

-- The message for a path that cannot be looked at.
abbrev pub no_access : Bytes → Bytes → Error → Error
no_access what path e =
    if is_kind not_exist e
    then msg (what ++ (codes " not found: " ++ path))
    else wrap (codes "cannot access " ++ (what ++ (codes " (" ++ (path ++ codes "): ")))) e []

-- `mustBeFile`
unfoldable pub must_be_file : Bytes → Bytes → M (Option Error)
must_be_file path what w =
    let (r, w') = stat path w in
    (
      elim r [
        | err e ↦ some (no_access what path e)
        | ok n ↦
            if is_dir n.kind
            then some (msg (what ++ (codes " must be a file, got directory: " ++ path)))
            else none
      ],
      w',
    )

-- `mustBeDir`
unfoldable pub must_be_dir : Bytes → Bytes → M (Option Error)
must_be_dir path what w =
    let (r, w') = stat path w in
    (
      elim r [
        | err e ↦ some (no_access what path e)
        | ok n ↦
            if not (is_dir n.kind)
            then some (msg (what ++ (codes " must be a directory: " ++ path)))
            else none
      ],
      w',
    )

-- The last steps of `ValidateLocalResources`.
unfoldable pub check_template : Bytes → M (Option Error)
check_template path w =
    let (r, w') = stat path w in
    (
      elim r [
        | err e ↦ some (
            if is_kind not_exist e
            then msg (codes "suricata template not found: " ++ path)
            else wrap (codes "cannot access template (" ++ (path ++ codes "): ")) e [])
        | ok n ↦
            if is_dir n.kind
            then some (msg (codes "suricata template must be a file, got a directory: " ++ path))
            else none
      ],
      w',
    )

-- `ValidateLocalResources`, given the error of `Glob` on a pattern; the program only warns of the files that are found.
unfoldable pub validate_local_resources : (Bytes → Option Error) → Bytes → Bytes → M (Option Error)
validate_local_resources glob_error rules template w =
    let (r, w1) = stat rules w in
    elim r [
      | err e ↦ (
        some (
            if is_kind not_exist e
            then msg (codes "nDPI rules directory not found: " ++ rules)
            else wrap (codes "cannot access nDPI rules directory (" ++ (rules ++ codes "): ")) e
                []),
        w1,
      )
      | ok n ↦
          if not (is_dir n.kind)
          then (some (msg (codes "nDPI rules path is not a directory: " ++ rules)), w1)
          else elim (glob_error (join_path rules (codes "*"))) [
            | some e ↦ (
              some (
                  wrap (codes "failed to list files in rules directory (" ++ (rules ++ codes "): "))
                    e []),
              w1,
            )
            | none ↦ check_template template w1
          ]
    ]

-- The checks of the template's text: the error, or none.
unfoldable pub template_error : Bytes → Bytes → Option Error
template_error plugin text =
    let lower = to_lower text in
    if not (contains lower (codes "plugins"))
    then some (msg (codes "suricata template has no 'plugins' block (nDPI will not be loaded)"))
    else if not (contains lower (to_lower (base plugin))) && not (contains lower (codes "ndpi.so"))
    then some (
        msg (
          codes
            "suricata template does not mention ndpi.so in 'plugins' block (plugin won't be loaded)"))
    else none

-- The checks behind the template's.
unfoldable pub check_reload : NdpiValidateOptions → M (Option Error)
check_reload o w =
    let (e, w') = must_be_file o.suricata_sc_path (codes "suricatasc") w in
    (
      elim e [
        | some x ↦ some x
        | none ↦
            if is_shutdown o.reload_command
            then some (msg (codes "reload_command=shutdown is forbidden"))
            else if le_zero o.reload_timeout
            then some (msg (codes "reload_timeout must be > 0"))
            else none
      ],
      w',
    )

-- From the template on.
unfoldable pub check_text : NdpiValidateOptions → M (Option Error)
check_text o w =
    let (t, w') = read_file o.suricata_template_path w in
    elim t [
      | err e ↦ (
        some (
            wrap
              (codes "failed to read Suricata template ("
                ++ (o.suricata_template_path ++ codes "): "))
              e []),
        w',
      )
      | ok text ↦ elim (template_error o.ndpi_plugin_path text) [
        | some e ↦ (some e, w')
        | none ↦ check_reload o w'
      ]
    ]

-- `ValidateNDPIConfig`, whose warnings are left out.
unfoldable pub validate_ndpi_config : NdpiValidateOptions → M (Option Error)
validate_ndpi_config o w =
    let (e, w1) = must_be_file o.ndpi_plugin_path (codes "nDPI plugin (ndpi.so)") w in
    elim e [
      | some x ↦ (some x, w1)
      | none ↦
          (let (e', w2) = must_be_dir o.ndpi_rules_dir (codes "nDPI rules directory") w1 in
            elim e' [ some x ↦ (some x, w2) | none ↦ check_text o w2 ])
    ]
