-- ===== src/Atomic/Frame.antt =====
-- What `writeFileAtomic` does to the files, whatever system calls fail.
use integration_suricata_n_d.Base.{
  ℕ, Option, none, some, [], ◌≡◌, ◌≢◌, ◌⊎◌, refl, sym, ap, ◌∙◌, arith, Bytes, Option-cases, inl,
  inr, codes,
}
use integration_suricata_n_d.Sys.{
  Error, Result, ok, err, Node, regular, World, M, create_temp, write, chmod, flush, rename, dir,
}
use integration_suricata_n_d.Sys.Effects.{
  SameBut, update_self, update_ne, write-SameBut, chmod-SameBut, flush-files, remove-SameBut,
  write_ok, chmod_ok, rename_failed, rename_ok, create_temp_ok, create_temp_failed,
}
use integration_suricata_n_d.Atomic.{
  sync_dir, rename_sync, then_return, or_close, close_rename, sync_rename, chmod_rename,
  fill_and_rename, removing, write_file_atomic,
}

-- The file that a complete write leaves.
abbrev pub written : Bytes → ℕ → Node
written content perm = record { content = content; mode = perm; kind = regular }

-- How a write ends that began in `w`: with the new file under `path`, or with an error and the old
-- files. Only the temporary name is free to change.
abbrev Ends : Bytes → Bytes → Node → World → Option Error × World → Type 0
Ends tmp path new w r =
    ((r.0 ≡ none)
      × (r.1.files path ≡ some new)
      × ((q : Bytes) → q ≢ tmp → q ≢ path → r.1.files q ≡ w.files q))
    ⊎ ((e : Error) × (r.0 ≡ some e) × SameBut tmp w r.1)

Ends-from :
    (tmp path : Bytes) (new : Node) (w v : World) (r : Option Error × World)
    → SameBut tmp w v
    → Ends tmp path new v r
    → Ends tmp path new w r
Ends-from tmp path new w v r s (inl (e, p, o)) = inl (e, p, λ q d d'. o q d d' ∙ s q d)
Ends-from tmp path new w v r s (inr (x, e, o)) = inr (x, e, λ q d. o q d ∙ s q d)

then_return-Ends :
    (tmp path : Bytes) (new : Node) (m rest : M (Option Error)) (w : World)
    → SameBut tmp w (m w).1
    → ((m w).0 ≡ none → Ends tmp path new (m w).1 (rest (m w).1))
    → Ends tmp path new w (then_return m rest w)
then_return-Ends tmp path new m rest w s k = elim (Option-cases (m w).0) [
  | inl e ↦ rw (e, then_return) (Ends-from tmp path new w (m w).1 (rest (m w).1) s (k e))
  | inr (x, e) ↦ rw (e, then_return) (inr (x, refl, s))
]

pub or_close-SameBut :
    (tmp : Bytes) (m : M (Option Error)) (w : World)
    → SameBut tmp w (m w).1
    → SameBut tmp w (or_close m w).1
or_close-SameBut tmp m w s = elim (Option-cases (m w).0) [
  | inl e ↦ rw (e, or_close) s
  | inr (x, e) ↦
      rw (e, or_close) (λ q d. ap (λ (f : Bytes → Option Node). f q) (flush-files (m w).1) ∙ s q d)
]

or_close_ok :
    (m : M (Option Error)) (w : World)
    → (or_close m w).0 ≡ none
    → ((m w).0 ≡ none) × ((or_close m w).1 ≡ (m w).1)
or_close_ok m w h = ground arith

pub flush-SameBut : (tmp : Bytes) (w : World) → SameBut tmp w (flush w).1
flush-SameBut tmp w q d = ap (λ (f : Bytes → Option Node). f q) (flush-files w)

rename-Ends :
    (tmp path : Bytes) (new : Node) (w : World)
    → tmp ≢ path
    → w.files tmp ≡ some new
    → Ends tmp path new w (rename tmp path w)
rename-Ends tmp path new w d h = elim (Option-cases (rename tmp path w).0) [
  | inl e ↦
      let f = rename_ok tmp path w new d h e in
      inl (
        e,
        rw f (update_ne _ tmp none path (λ p. d (sym p)) ∙ update_self w.files path (some new)),
        λ q t p. rw f (update_ne _ tmp none q t ∙ update_ne w.files path (some new) q p),
      )
  | inr (x, e) ↦
      inr (x, e, λ q t. ap (λ (f : Bytes → Option Node). f q) (rename_failed tmp path w x e))
]

sync_dir-eq-none : (w : World) → (sync_dir w).0 ≡ none
sync_dir-eq-none w = ground arith

pub sync_dir-files : (w : World) → (sync_dir w).1.files ≡ w.files
sync_dir-files w = elim (Option-cases (flush w).0) [
  | inl e ↦
      rw (e, sync_dir)
        (flush-files (flush (flush w).1).1 ∙ (flush-files (flush w).1 ∙ flush-files w))
  | inr (x, e) ↦ rw (e, sync_dir) (flush-files w)
]

rename_sync-Ends :
    (tmp path : Bytes) (new : Node) (w : World)
    → tmp ≢ path
    → w.files tmp ≡ some new
    → Ends tmp path new w (rename_sync tmp path w)
rename_sync-Ends tmp path new w d h =
    let v = (rename tmp path w).1 in
    let at : (q : Bytes) → (sync_dir v).1.files q ≡ v.files q =
      λ q. ap (λ (f : Bytes → Option Node). f q) (sync_dir-files v) in
    elim (rename-Ends tmp path new w d h) [
      | inl (e, p, o) ↦
          rw (e, then_return) (inl (sync_dir-eq-none v, at path ∙ p, λ q t t'. at q ∙ o q t t'))
      | inr (x, e, o) ↦ rw (e, then_return) (inr (x, refl, o))
    ]

close_rename-Ends :
    (tmp path : Bytes) (new : Node) (w : World)
    → tmp ≢ path
    → w.files tmp ≡ some new
    → Ends tmp path new w (close_rename tmp path w)
close_rename-Ends tmp path new w d h =
    then_return-Ends tmp path new flush (rename_sync tmp path) w (flush-SameBut tmp w)
      λ e. rename_sync-Ends tmp path new (flush w).1 d (at_tmp (flush-files w) ∙ h)
  where
    at_tmp : {f g : Bytes → Option Node} → f ≡ g → f tmp ≡ g tmp
    at_tmp p = ap (λ (f : Bytes → Option Node). f tmp) p

sync_rename-Ends :
    (tmp path : Bytes) (new : Node) (w : World)
    → tmp ≢ path
    → w.files tmp ≡ some new
    → Ends tmp path new w (sync_rename tmp path w)
sync_rename-Ends tmp path new w d h =
    then_return-Ends tmp path new (or_close flush) (close_rename tmp path) w
      (or_close-SameBut tmp flush w (flush-SameBut tmp w))
      λ e. close_rename-Ends tmp path new (or_close flush w).1 d (
        ap (λ (v : World). v.files tmp) (or_close_ok flush w e).1
        ∙ ap (λ (f : Bytes → Option Node). f tmp) (flush-files w)
        ∙ h)

chmod_rename-Ends :
    (tmp path : Bytes) (perm : ℕ) (n : Node) (w : World)
    → tmp ≢ path
    → w.files tmp ≡ some n
    → Ends tmp path (record n { mode = perm }) w (chmod_rename tmp path perm w)
chmod_rename-Ends tmp path perm n w d h =
    then_return-Ends tmp path (record n { mode = perm }) (or_close (chmod tmp perm))
      (sync_rename tmp path) w (or_close-SameBut tmp (chmod tmp perm) w (chmod-SameBut tmp perm w))
      λ e.
        let (fine, same) = or_close_ok (chmod tmp perm) w e in
        sync_rename-Ends tmp path (record n { mode = perm }) (or_close (chmod tmp perm) w).1 d
          (ap (λ (v : World). v.files tmp) same ∙ chmod_ok tmp perm w n h fine)

fill_and_rename-Ends :
    (tmp path content : Bytes) (perm : ℕ) (w : World)
    → tmp ≢ path
    → w.files tmp ≡ some (record { content = []; mode = 0o600; kind = regular })
    → Ends tmp path (written content perm) w (fill_and_rename tmp path content perm w)
unfolding fill_and_rename
fill_and_rename-Ends tmp path content perm w d h =
    then_return-Ends tmp path (written content perm) (or_close (write tmp content))
      (chmod_rename tmp path perm) w
      (or_close-SameBut tmp (write tmp content) w (write-SameBut tmp content w))
      λ e.
        let (fine, same) = or_close_ok (write tmp content) w e in
        chmod_rename-Ends tmp path perm (record { content = content; mode = 0o600; kind = regular })
          (or_close (write tmp content) w).1 d
          (ap (λ (v : World). v.files tmp) same ∙ write_ok tmp content w _ h fine)

-- How a whole call ends: `path` holds all of the new file if there is no error and the old one if there is, and
-- what any other path held it still holds.
abbrev pub AllOrNothing : Bytes → Node → World → Node → Option Error × World → Type 0
AllOrNothing path new w old r =
    (((r.0 ≡ none) × (r.1.files path ≡ some new)) ⊎ ((r.0 ≢ none) × (r.1.files path ≡ some old)))
    × ((q : Bytes) → q ≢ path → w.files q ≢ none → r.1.files q ≡ w.files q)

module _ (tmp path : Bytes) (new old : Node) (w v : World) (free : w.files tmp ≡ none)
    (held : w.files path ≡ some old) (kept : SameBut tmp w v) where
  apart : (q : Bytes) → w.files q ≢ none → q ≢ tmp
  apart q h e = h (rw e free)

  apart_path : path ≢ tmp
  apart_path = apart path (λ e. cc)

  removing-AllOrNothing :
      (m : M (Option Error))
      → Ends tmp path new v (m v)
      → AllOrNothing path new w old (removing tmp m v)
  removing-AllOrNothing m (inl (e, p, o)) = (
    inl (e, remove-SameBut tmp (m v).1 path apart_path ∙ p),
    λ q d h. remove-SameBut tmp (m v).1 q (apart q h) ∙ o q (apart q h) d ∙ kept q (apart q h),
  )
  removing-AllOrNothing m (inr (x, e, o)) = (
    inr (
      λ n. cc (n, e),
      remove-SameBut tmp (m v).1 path apart_path ∙ o path apart_path ∙ kept path apart_path ∙ held,
    ),
    λ q d h. remove-SameBut tmp (m v).1 q (apart q h) ∙ o q (apart q h) ∙ kept q (apart q h),
  )

-- Whatever system calls fail, a call of `writeFileAtomic` on a path that holds a file ends in one of two ways:
-- with no error, and then the path holds all of the new content with the mode asked for, or with an error, and
-- then it holds the old file; and every other path that held something holds the same after.
pub write_file_atomic-AllOrNothing :
    (path content : Bytes) (perm : ℕ) (w : World) (old : Node)
    → w.files path ≡ some old
    → AllOrNothing path (written content perm) w old (write_file_atomic path content perm w)
unfolding write_file_atomic
write_file_atomic-AllOrNothing path content perm w old h =
    go (create_temp (dir path) (codes ".suricata.yaml.") (codes ".tmp") w).0 refl
  where
    v : World
    v = (create_temp (dir path) (codes ".suricata.yaml.") (codes ".tmp") w).1

    go :
        (t : Result Bytes)
        → (create_temp (dir path) (codes ".suricata.yaml.") (codes ".tmp") w).0 ≡ t
        → AllOrNothing path (written content perm) w old (write_file_atomic path content perm w)
    go (err x) e =
        let same = create_temp_failed (dir path) _ _ w x e in
        rw (e, write_file_atomic) (inr (λ n. cc, rw same h), λ q d k. rw same)
    go (ok tmp) e =
        let made = create_temp_ok (dir path) _ _ w tmp e in
        let differ : tmp ≢ path = λ p. cc (made.0, h, ap w.files p) in
        rw (e, write_file_atomic)
          (removing-AllOrNothing tmp path (written content perm) old w v made.0 h made.2
            (fill_and_rename tmp path content perm)
            (fill_and_rename-Ends tmp path content perm v differ made.1))
