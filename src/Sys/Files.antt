-- ===== src/Sys/Files.antt =====
-- The operations of `fsutil.FS` and `fsutil.File` as `fsutil.OSFS` has them.
use integration_suricata_n_d.Base.{
  ℕ, Option, none, some, List, [], ◌∷◌, ◌++◌, Bytes, Bool, true, false, bytes_eq, if◌then◌else◌,
  codes, take,
}
use integration_suricata_n_d.Text.{has_suffix}
use integration_suricata_n_d.Sys.Errors.{not_exist, other, Error, outer, Result, ok, err}
use integration_suricata_n_d.Sys.Machine.{
  NodeKind, regular, directory, socket, Node, Fault, M, call, update,
}

abbrev pub missing : Error
missing = outer not_exist (codes "no such file or directory")

abbrev pub is_directory_error : Error
is_directory_error = outer other (codes "is a directory")

abbrev pub is_dir : NodeKind → Bool
is_dir directory = true
is_dir _ = false

abbrev pub is_socket : NodeKind → Bool
is_socket socket = true
is_socket _ = false

unfoldable pub stat : Bytes → M (Result Node)
unfolding call
stat path w =
    let (f, w') = call w in
    elim f [
      | some x ↦ (err x.error, w')
      | none ↦ (elim (w'.files path) [ none ↦ err missing | some n ↦ ok n ], w')
    ]

unfoldable pub read_file : Bytes → M (Result Bytes)
unfolding call
read_file path w =
    let (f, w') = call w in
    elim f [
      | some x ↦ (err x.error, w')
      | none ↦ (
        elim (w'.files path) [
          | none ↦ err missing
          | some n ↦ if is_dir n.kind then err is_directory_error else ok n.content
        ],
        w',
      )
    ]

abbrev pub join_path : Bytes → Bytes → Bytes
join_path d name = if has_suffix d (codes "/") then d ++ name else d ++ (b'/' ∷ name)

-- `CreateTemp` draws random parts until the name is free, and fails when it has drawn them all.
unfoldable pub draw :
    (Bytes → Option Node) → (Bytes → Bytes) → List Bytes → Option (Bytes × List Bytes)
draw files name [] = none
draw files name (r ∷ rs) =
    let more = draw files name rs in
    elim (files (name r)) [ none ↦ some (name r, rs) | some n ↦ more ]

-- `CreateTemp(dir, before + "*" + after)` makes an empty file with mode 0o600.
unfoldable pub create_temp : Bytes → Bytes → Bytes → M (Result Bytes)
unfolding call draw update has_suffix
create_temp d before after w =
    let (f, w') = call w in
    elim f [
      | some x ↦ (err x.error, w')
      | none ↦ elim (draw w'.files (λ r. join_path d (before ++ (r ++ after))) w'.temps) [
        | none ↦ (err (outer other (codes "file exists")), w')
        | some (t, ts) ↦ (
          ok t,
          record w' {
            files =
                update w'.files t (some (record { content = []; mode = 0o600; kind = regular }));
            temps = ts;
          },
        )
      ]
    ]

abbrev pub write_node : Bytes → Option Node → Option Node
write_node p none = none
write_node p (some n) = some (record n { content = n.content ++ p })

abbrev pub chmod_node : ℕ → Option Node → Option Node
chmod_node mode none = none
chmod_node mode (some n) = some (record n { mode = mode })

abbrev fault_error : Option Fault → Option Error
fault_error none = none
fault_error (some x) = some x.error

-- `tmp.Write(data)`; a write that fails may have written a part.
unfoldable pub write : Bytes → Bytes → M (Option Error)
unfolding call update
write tmp content w =
    let (f, w') = call w in
    let part : Bytes = elim f [ none ↦ content | some x ↦ take x.done content ] in
    (fault_error f, record w' { files = update w'.files tmp (write_node part (w'.files tmp)) })

unfoldable pub chmod : Bytes → ℕ → M (Option Error)
unfolding call update
chmod tmp mode w =
    let (f, w') = call w in
    elim f [
      | some x ↦ (some x.error, w')
      | none ↦ (none, record w' { files = update w'.files tmp (chmod_node mode (w'.files tmp)) })
    ]

-- `Sync` and `Close` change nothing that the model holds.
unfoldable pub flush : M (Option Error)
unfolding call
flush w = let (f, w') = call w in (fault_error f, w')

-- `Rename`: the new name holds the old file, in one step. A directory is not replaced.
unfoldable pub rename : Bytes → Bytes → M (Option Error)
unfolding call update
rename old new w =
    let (f, w') = call w in
    elim f [
      | some x ↦ (some x.error, w')
      | none ↦ elim (w'.files old) [
        | none ↦ (some missing, w')
        | some n ↦
            if elim (w'.files new) [ none ↦ false | some m ↦ is_dir m.kind ]
            then (some is_directory_error, w')
            else if bytes_eq old new
            then (none, w')
            else (none, record w' { files = update (update w'.files new (some n)) old none })
      ]
    ]

unfoldable pub remove : Bytes → M (Option Error)
unfolding call update
remove path w =
    let (f, w') = call w in
    elim f [
      | some x ↦ (some x.error, w')
      | none ↦ elim (w'.files path) [
        | none ↦ (some missing, w')
        | some n ↦ (none, record w' { files = update w'.files path none })
      ]
    ]
