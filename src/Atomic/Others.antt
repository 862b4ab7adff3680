-- ===== src/Atomic/Others.antt =====
-- The files that `writeFileAtomic` leaves alone: `integration/atomic_write.go`.
use integration_suricata_n_d.Base.{
  ℕ, Option, none, ◌≡◌, ◌≢◌, ap, ◌∙◌, Bytes, Option-cases, inl, inr, codes,
}
use integration_suricata_n_d.Sys.{
  Error, Result-cases, Node, World, M, create_temp, write, chmod, flush, rename, dir,
}
use integration_suricata_n_d.Sys.Effects.{
  write-SameBut, chmod-SameBut, remove-SameBut, rename_others, create_temp_ok, create_temp_failed,
}
use integration_suricata_n_d.Atomic.{
  then_return, or_close, sync_dir, rename_sync, close_rename, sync_rename, chmod_rename,
  fill_and_rename, write_file_atomic,
}
use integration_suricata_n_d.Atomic.Frame.{sync_dir-files, flush-SameBut, or_close-SameBut}

-- Two worlds that agree on every path but `tmp` and `path`.
abbrev Apart : Bytes → Bytes → World → World → Type 0
Apart tmp path w v = (q : Bytes) → q ≢ tmp → q ≢ path → v.files q ≡ w.files q

Apart-then_return :
    (tmp path : Bytes) (m rest : M (Option Error))
    → ((w : World) → Apart tmp path w (m w).1)
    → ((w : World) → Apart tmp path w (rest w).1)
    → (w : World) → Apart tmp path w (then_return m rest w).1
Apart-then_return tmp path m rest h k w q d d' = elim (Option-cases (m w).0) [
  | inl e ↦ rw (e, then_return) (k (m w).1 q d d' ∙ h w q d d')
  | inr (x, e) ↦ rw (e, then_return) (h w q d d')
]

fill_and_rename-Apart :
    (tmp path content : Bytes) (perm : ℕ) (w : World)
    → Apart tmp path w (fill_and_rename tmp path content perm w).1
unfolding fill_and_rename
fill_and_rename-Apart tmp path content perm =
    Apart-then_return tmp path (or_close (write tmp content)) (chmod_rename tmp path perm)
      (λ w q d d'. or_close-SameBut tmp (write tmp content) w (write-SameBut tmp content w) q d)
      (Apart-then_return tmp path (or_close (chmod tmp perm)) (sync_rename tmp path)
        (λ w q d d'. or_close-SameBut tmp (chmod tmp perm) w (chmod-SameBut tmp perm w) q d)
        (Apart-then_return tmp path (or_close flush) (close_rename tmp path)
          (λ w q d d'. or_close-SameBut tmp flush w (flush-SameBut tmp w) q d)
          (Apart-then_return tmp path flush (rename_sync tmp path)
            (λ w q d d'. flush-SameBut tmp w q d)
            (Apart-then_return tmp path (rename tmp path) sync_dir
              (λ w q d d'. rename_others tmp path w q d d')
              (λ w q d d'. ap (λ (f : Bytes → Option Node). f q) (sync_dir-files w))))))

-- A call touches no other path that held something, also where its own path held nothing.
pub write_file_atomic_others :
    (path content : Bytes) (perm : ℕ) (w : World) (q : Bytes)
    → q ≢ path
    → w.files q ≢ none
    → (write_file_atomic path content perm w).1.files q ≡ w.files q
unfolding write_file_atomic
write_file_atomic_others path content perm w q d h =
    elim (Result-cases (create_temp (dir path) (codes ".suricata.yaml.") (codes ".tmp") w).0) [
      | inr (x, e) ↦
          rw (e, write_file_atomic)
            (ap (λ (f : Bytes → Option Node). f q) (create_temp_failed (dir path) _ _ w x e))
      | inl (tmp, e) ↦
          let v = (create_temp (dir path) (codes ".suricata.yaml.") (codes ".tmp") w).1 in
          let made = create_temp_ok (dir path) _ _ w tmp e in
          let apart : q ≢ tmp = λ p. h (ap w.files p ∙ made.0) in
          rw (e, write_file_atomic)
            (remove-SameBut tmp (fill_and_rename tmp path content perm v).1 q apart
              ∙ fill_and_rename-Apart tmp path content perm v q apart d
              ∙ made.2 q apart)
    ]
