-- ===== src/Sys/Effects.antt =====
-- What each file operation does to the files: at its own path, and at the others.
use integration_suricata_n_d.Base.{
  ℕ, Option, none, some, List, [], ◌∷◌, ◌++◌, ◌≡◌, ◌≢◌, ap, ◌∙◌, arith, Bytes, bytes_eq_iff,
  bytes_eq_self, Option-cases, inl, inr,
}
use integration_suricata_n_d.Sys.Errors.{Error, ok, err}
use integration_suricata_n_d.Sys.Machine.{regular, Node, World, call, update, run, combined_output}
use integration_suricata_n_d.Sys.Files.{
  draw, create_temp, write, chmod, flush, rename, remove, chmod_node, join_path,
}

pub update_self :
    (files : Bytes → Option Node) (p : Bytes) (n : Option Node) → update files p n p ≡ n
unfolding update
update_self files p n = rw (bytes_eq_self p)

pub update_ne :
    (files : Bytes → Option Node) (p : Bytes) (n : Option Node) (q : Bytes)
    → q ≢ p
    → update files p n q ≡ files q
unfolding update
update_ne files p n q h = ground (arith, bytes_eq_iff p q)

pub call-files : (w : World) → (call w).1.files ≡ w.files
unfolding call
call-files w = ground arith

-- The two worlds have the same files, but for the one at `tmp`.
abbrev pub SameBut : Bytes → World → World → Type 0
SameBut tmp w v = (q : Bytes) → q ≢ tmp → v.files q ≡ w.files q

pub write-SameBut : (tmp c : Bytes) (w : World) → SameBut tmp w (write tmp c w).1
unfolding write
write-SameBut tmp c w q h =
    update_ne (call w).1.files tmp _ q h ∙ ap (λ (f : Bytes → Option Node). f q) (call-files w)

pub chmod-SameBut : (tmp : Bytes) (mode : ℕ) (w : World) → SameBut tmp w (chmod tmp mode w).1
unfolding chmod
chmod-SameBut tmp mode w q h = ground (
  arith,
  call-files w,
  update_ne (call w).1.files tmp (chmod_node mode ((call w).1.files tmp)) q h,
)

pub flush-files : (w : World) → (flush w).1.files ≡ w.files
unfolding flush
flush-files w = call-files w

pub remove-SameBut : (tmp : Bytes) (w : World) → SameBut tmp w (remove tmp w).1
unfolding remove
remove-SameBut tmp w q h = ground (arith, call-files w, update_ne (call w).1.files tmp none q h)

pub write_ok :
    (tmp c : Bytes) (w : World) (n : Node)
    → w.files tmp ≡ some n
    → (write tmp c w).0 ≡ none
    → (write tmp c w).1.files tmp ≡ some (record n { content = n.content ++ c })
unfolding write
write_ok tmp c w n h e = ground (
  arith,
  call-files w,
  update_self (call w).1.files tmp (some (record n { content = n.content ++ c })),
)

pub chmod_ok :
    (tmp : Bytes) (mode : ℕ) (w : World) (n : Node)
    → w.files tmp ≡ some n
    → (chmod tmp mode w).0 ≡ none
    → (chmod tmp mode w).1.files tmp ≡ some (record n { mode = mode })
unfolding chmod
chmod_ok tmp mode w n h e =
    ground (arith, call-files w, update_self (call w).1.files tmp (some (record n { mode = mode })))

-- A rename that fails changes no file.
pub rename_failed :
    (old new : Bytes) (w : World) (e : Error)
    → (rename old new w).0 ≡ some e
    → (rename old new w).1.files ≡ w.files
unfolding rename
rename_failed old new w e h = ground (arith, call-files w)

-- A rename that works leaves the old file under the new name.
pub rename_ok :
    (old new : Bytes) (w : World) (n : Node)
    → old ≢ new
    → w.files old ≡ some n
    → (rename old new w).0 ≡ none
    → (rename old new w).1.files ≡ update (update w.files new (some n)) old none
unfolding rename
rename_ok old new w n d h e = ground (arith, call-files w, bytes_eq_iff old new)

pub draw_free :
    (files : Bytes → Option Node) (name : Bytes → Bytes) (rs : List Bytes) (t : Bytes)
    (ts : List Bytes)
    → draw files name rs ≡ some (t, ts)
    → files t ≡ none
unfolding draw
draw_free files name [] t ts h = cc
draw_free files name (r ∷ rs) t ts h = elim (Option-cases (files (name r))) [
  | inl free ↦ ground (arith, free)
  | inr (n, taken) ↦ draw_free files name rs t ts (ground (arith, taken))
]

-- `CreateTemp` gives a name that was free, with an empty file under it, and touches nothing else.
pub create_temp_ok :
    (d before after : Bytes) (w : World) (t : Bytes)
    → (create_temp d before after w).0 ≡ ok t
    → (w.files t ≡ none)
      × ((create_temp d before after w).1.files t
          ≡ some (record { content = []; mode = 0o600; kind = regular }))
      × SameBut t w (create_temp d before after w).1
unfolding create_temp
create_temp_ok d before after w t h =
    let files = (call w).1.files in
    let empty : Option Node = some (record { content = []; mode = 0o600; kind = regular }) in
    elim (Option-cases (draw files (λ r. join_path d (before ++ (r ++ after))) (call w).1.temps)) [
      | inl out ↦ ground (arith, out)
      | inr ((t', ts), e) ↦ (
        ground (arith, e, call-files w, draw_free files _ _ t' ts e),
        ground (arith, e, update_self files t empty),
        λ q d. ground (arith, e, call-files w, update_ne files t empty q d),
      )
    ]

pub create_temp_failed :
    (d before after : Bytes) (w : World) (e : Error)
    → (create_temp d before after w).0 ≡ err e
    → (create_temp d before after w).1.files ≡ w.files
unfolding create_temp
create_temp_failed d before after w e h = ground (arith, call-files w)

pub rename_others :
    (old new : Bytes) (w : World) (q : Bytes)
    → q ≢ old
    → q ≢ new
    → (rename old new w).1.files q ≡ w.files q
unfolding rename
rename_others old new w q d d' = elim (Option-cases (w.files old)) [
  | inl e ↦ ground (arith, call-files w, e)
  | inr (n, e) ↦ ground (
    arith,
    call-files w,
    e,
    update_ne (update (call w).1.files new (some n)) old none q d,
    update_ne (call w).1.files new (some n) q d',
  )
]

pub combined_output-files :
    (name : Bytes) (args : List Bytes) (w : World) → (combined_output name args w).1.files ≡ w.files
unfolding combined_output
combined_output-files name args w = ground arith

pub combined_output-log :
    (name : Bytes) (args : List Bytes) (w : World)
    → (combined_output name args w).1.log ≡ w.log ++ (run name args ∷ [])
unfolding combined_output
combined_output-log name args w = ground arith
