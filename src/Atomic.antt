-- ===== src/Atomic.antt =====
-- `writeFileAtomic` of integration/atomic_write.go.
pub mod Frame
pub mod Others
use integration_suricata_n_d.Base.{ℕ, Option, none, some, List, [], ◌∷◌, Bytes, codes}
use integration_suricata_n_d.Sys.{
  Error, Result, ok, err, World, M, create_temp, write, chmod, flush, rename, remove, dir,
}

-- `if err := m; err != nil { return err }`
abbrev pub then_return : M (Option Error) → M (Option Error) → M (Option Error)
then_return m rest w = elim (m w).0 [ none ↦ rest (m w).1 | some e ↦ (some e, (m w).1) ]

-- `if err := m; err != nil { _ = tmp.Close(); return err }`
abbrev pub or_close : M (Option Error) → M (Option Error)
or_close m w = elim (m w).0 [ none ↦ (none, (m w).1) | some e ↦ (some e, (flush (m w).1).1) ]

-- `os.Open(dir)`, and where that works `Sync` and `Close` of the directory, with all errors dropped. To open a directory changes
-- as little as `Sync` and `Close` do, so it is the same call of the machine.
abbrev pub sync_dir : M (Option Error)
sync_dir w = elim (flush w).0 [
  | none ↦ (none, (flush (flush (flush w).1).1).1)
  | some e ↦ (none, (flush w).1)
]

-- From the new file to its new name: `Write`, `Chmod`, `Sync`, `Close`, `Rename`, and then the directory, read from the end.
abbrev pub rename_sync : Bytes → Bytes → M (Option Error)
rename_sync tmp path = then_return (rename tmp path) sync_dir

abbrev pub close_rename : Bytes → Bytes → M (Option Error)
close_rename tmp path = then_return flush (rename_sync tmp path)

abbrev pub sync_rename : Bytes → Bytes → M (Option Error)
sync_rename tmp path = then_return (or_close flush) (close_rename tmp path)

abbrev pub chmod_rename : Bytes → Bytes → ℕ → M (Option Error)
chmod_rename tmp path perm = then_return (or_close (chmod tmp perm)) (sync_rename tmp path)

unfoldable pub fill_and_rename : Bytes → Bytes → Bytes → ℕ → M (Option Error)
fill_and_rename tmp path content perm =
    then_return (or_close (write tmp content)) (chmod_rename tmp path perm)

-- The deferred `fs.Remove(tmpName)`, whose error is dropped.
abbrev pub removing : Bytes → M (Option Error) → M (Option Error)
removing tmp m w = ((m w).0, (remove tmp (m w).1).1)

unfoldable pub write_file_atomic : Bytes → Bytes → ℕ → M (Option Error)
write_file_atomic path content perm w =
    let (t, w') = create_temp (dir path) (codes ".suricata.yaml.") (codes ".tmp") w in
    elim t [
      | err e ↦ (some e, w')
      | ok tmp ↦ removing tmp (fill_and_rename tmp path content perm) w'
    ]
