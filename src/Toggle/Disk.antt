-- ===== src/Toggle/Disk.antt =====
-- What `SetNDPIEnabledWithFS` does to the files.
use integration_suricata_n_d.Base.{
  Bool, true, false, Option, none, some, Option-cases, List, [], ◌≡◌, ◌≢◌, ◌⊎◌, refl, ap, ◌∙◌,
  arith, Bytes, inl, inr, codes,
}
use integration_suricata_n_d.Text.{join, end_line, scan_lines, replace_crlf}
use integration_suricata_n_d.Sys.{
  Error, wrap, Result, ok, err, Result-cases, Node, World, stat, read_file,
}
use integration_suricata_n_d.Sys.Effects.{call-files}
use integration_suricata_n_d.Atomic.{write_file_atomic}
use integration_suricata_n_d.Atomic.Frame.{written, write_file_atomic-AllOrNothing}
use integration_suricata_n_d.Toggle.{
  not_found, read_lines, toggle_lines, perm_of, store_lines, set_ndpi_enabled,
}

pub stat-files : (path : Bytes) (w : World) → (stat path w).1.files ≡ w.files
unfolding stat
stat-files path w = ground (arith, call-files w)

pub read_file-files : (path : Bytes) (w : World) → (read_file path w).1.files ≡ w.files
unfolding read_file
read_file-files path w = ground (arith, call-files w)

-- What is read is what the path holds.
pub read_file_ok :
    (path : Bytes) (w : World) (b : Bytes)
    → (read_file path w).0 ≡ ok b
    → (n : Node) × (w.files path ≡ some n) × (n.content ≡ b)
unfolding read_file
read_file_ok path w b h = elim (Option-cases (w.files path)) [
  | inl e ↦ absurd (ground (arith, call-files w, e))
  | inr (n, e) ↦ (n, e, ground (arith, call-files w, e))
]

pub read_lines_ok :
    (path : Bytes) (w : World) (lines : List Bytes)
    → (read_lines path w).0 ≡ ok lines
    → (n : Node) × (w.files path ≡ some n) × (scan_lines (replace_crlf n.content) ≡ some lines)
unfolding read_lines
read_lines_ok path w lines h = elim (Result-cases (read_file path w).0) [
  | inr (x, e) ↦ absurd (ground (arith, e))
  | inl (b, e) ↦ let (n, f, c) = read_file_ok path w b e in (n, f, rw c (scanned b e))
]
  where
    scanned : (b : Bytes) → (read_file path w).0 ≡ ok b → scan_lines (replace_crlf b) ≡ some lines
    scanned b e = ground (arith, e)

pub read_lines-files : (path : Bytes) (w : World) → (read_lines path w).1.files ≡ w.files
unfolding read_lines
read_lines-files path w = ground (arith, read_file-files path w)

-- How a call ends: with the answer that nothing had to change, or with an error, and the path as it was; or with the answer
-- that the line was set, and the new lines in the file.
abbrev pub SetEnds : Bytes → Bytes → Bool → World → Node → Result (Bool × Bool) × World → Type 0
SetEnds path plugin enable w old r =
    ((((e : Error) × (r.0 ≡ err e)) ⊎ (r.0 ≡ ok (false, enable))) × (r.1.files path ≡ some old))
    ⊎ ((r.0 ≡ ok (true, enable))
        × ((lines : List Bytes) × (new : List Bytes) × (n : Node) × (scan_lines
                (replace_crlf old.content)
              ≡ some lines)
            × (toggle_lines plugin enable lines ≡ some (new, true))
            × (r.1.files path ≡ some n)
            × (n.content ≡ end_line (join new))))

abbrev pub Keeps : Bytes → World → World → Type 0
Keeps path w v = (q : Bytes) → q ≢ path → w.files q ≢ none → v.files q ≡ w.files q

module _ (path plugin : Bytes) (enable : Bool) (w v : World) (old : Node) (same : v.files ≡ w.files)
    (held : w.files path ≡ some old) where
  store_lines_ends :
      (lines new : List Bytes)
      → scan_lines (replace_crlf old.content) ≡ some lines
      → toggle_lines plugin enable lines ≡ some (new, true)
      → SetEnds path plugin enable w old (store_lines path enable new v)
        × Keeps path w (store_lines path enable new v).1
  unfolding store_lines
  store_lines_ends lines new scanned toggled =
      let u = (stat path v).1 in
      let perm = perm_of (stat path v).0 in
      let here : u.files ≡ w.files = stat-files path v ∙ same in
      let now : u.files path ≡ some old = ap (λ (f : Bytes → Option Node). f path) here ∙ held in
      let (ends, others) =
        write_file_atomic-AllOrNothing path (end_line (join new)) perm u old now in
      (
        elim ends [
          | inl (fine, f) ↦ inr (
            ground (arith, fine),
            (lines, new, written (end_line (join new)) perm, scanned, toggled, f, refl),
          )
          | inr (bad, f) ↦
              elim (Option-cases (write_file_atomic path (end_line (join new)) perm u).0) [
                | inl e ↦ absurd (bad e)
                | inr (x, e) ↦ inl (
                  inl (wrap (codes "failed to write suricata config: ") x [], ground (arith, e)),
                  f,
                )
              ]
        ],
        λ q d k. others q d (rw here k) ∙ ap (λ (f : Bytes → Option Node). f q) here,
      )

-- Setting the plugin line of a configuration that is there ends in one of two ways, whatever system calls fail. With an
-- error, or with the answer that nothing had to change, the configuration is what it was. With the answer that it was
-- changed, the configuration holds the old lines with the plugin's line set, joined again. No other file that was there is
-- touched.
pub set_ndpi_enabled_ends :
    (path plugin : Bytes) (enable : Bool) (w : World) (old : Node)
    → w.files path ≡ some old
    → SetEnds path plugin enable w old (set_ndpi_enabled path plugin enable w)
      × Keeps path w (set_ndpi_enabled path plugin enable w).1
unfolding set_ndpi_enabled
set_ndpi_enabled_ends path plugin enable w old held = elim (Result-cases (read_lines path w).0) [
  | inr (x, e) ↦ rw (e, set_ndpi_enabled) (inl (inl (x, refl), now), others)
  | inl (lines, e) ↦ elim (Option-cases (toggle_lines plugin enable lines)) [
    | inl t ↦
        rw (e, set_ndpi_enabled)
          (rw (t, set_ndpi_enabled) (inl (inl (not_found path, refl), now), others))
    | inr ((new, true), t) ↦
        let (n, f, scanned) = read_lines_ok path w lines e in
        let whose : n ≡ old = ground (arith, f, held) in
        rw (e, set_ndpi_enabled)
          (rw (t, set_ndpi_enabled)
            (store_lines_ends path plugin enable w v old same held lines new (rw whose at scanned)
              t))
    | inr ((new, false), t) ↦
        rw (e, set_ndpi_enabled) (rw (t, set_ndpi_enabled) (inl (inr refl, now), others))
  ]
]
  where
    v : World
    v = (read_lines path w).1

    same : v.files ≡ w.files
    same = read_lines-files path w

    now : v.files path ≡ some old
    now = ap (λ (f : Bytes → Option Node). f path) same ∙ held

    others : Keeps path w v
    others q d k = ap (λ (f : Bytes → Option Node). f q) same
