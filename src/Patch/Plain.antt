-- ===== src/Patch/Plain.antt =====
-- What `ensurePluginsNDPI` makes of the configuration.
use integration_suricata_n_d.Base.{
  ℕ, ◌+◌, ◌<◌, true, false, none, some, List, [], ◌∷◌, ◌++◌, ◌≡◌, ◌⊎◌, refl, ap, arith, Bytes,
  length, if◌then◌else◌, Bool-cases, inl, inr, All, leb, bytes_eq, bytes_eq_iff,
}
use integration_suricata_n_d.Line.{is_commented, uncomment_line, indent_width}
use integration_suricata_n_d.Patch.Blocks.{is_key}
use integration_suricata_n_d.Patch.Plugins.{plugins, names_ndpi, scan_plugins, insert_at}

-- The lines that the search in a block goes past: blank ones, and deeper ones that do not name the plugin.
abbrev pub Passes : ℕ → Bytes → Type 0
Passes indent l = (l ≡ []) ⊎ ((indent < indent_width l) × (names_ndpi l ≡ false))

-- A plain line of the block that names the plugin.
abbrev pub Names : ℕ → Bytes → Type 0
Names indent l = (names_ndpi l ≡ true) × (is_commented l ≡ false) × (indent < indent_width l)

-- The lines behind the key's line: behind lines that the search goes past, a plain line names the plugin.
pub record IsListed (indent : ℕ) (lines : List Bytes) : Type 0 where
  pub skipped : List Bytes
  pub plugin : Bytes
  pub rest : List Bytes
  pub lines_are : lines ≡ skipped ++ (plugin ∷ rest)
  pub passed : All (Passes indent) skipped
  pub names : Names indent plugin

-- The first line of the key `plugins` is plain, and under it a plain line names the plugin. This says nothing of the YAML that
-- the lines are.
pub record NamesPlainly (indent : ℕ) (lines : List Bytes) : Type 0 where
  pub before : List Bytes
  pub header : Bytes
  pub after : List Bytes
  pub lines_are : lines ≡ before ++ (header ∷ after)
  pub others_differ : All (λ l. is_key plugins l ≡ false) before
  pub is_header : is_key plugins header ≡ true
  pub plain : is_commented header ≡ false
  pub listed : IsListed indent after

-- How the search in a block ends: at a line that names the plugin, or at the end of the block.
abbrev ScanFinds : ℕ → List Bytes → ℕ → Type 0
ScanFinds indent lines k =
    (skipped : List Bytes) × (plugin : Bytes) × (rest : List Bytes) × (lines
      ≡ skipped ++ (plugin ∷ rest))
    × All (Passes indent) skipped
    × (names_ndpi plugin ≡ true)
    × (indent < indent_width plugin)
    × ((scan_plugins indent lines k).0
        ≡ skipped ++ ((if is_commented plugin then uncomment_line plugin else plugin) ∷ rest))
    × ((scan_plugins indent lines k).2 ≡ some (is_commented plugin))

abbrev ScanEnds : ℕ → List Bytes → ℕ → Type 0
ScanEnds indent lines k =
    (skipped : List Bytes) × (rest : List Bytes) × (lines ≡ skipped ++ rest)
    × All (Passes indent) skipped
    × (scan_plugins indent lines k ≡ (lines, k + length skipped, none))

pub scan_plugins-cases :
    (indent : ℕ) (lines : List Bytes) (k : ℕ) → ScanFinds indent lines k ⊎ ScanEnds indent lines k
unfolding scan_plugins
scan_plugins-cases indent [] k = inr ([], [], refl, tt, ground arith)
scan_plugins-cases indent (l ∷ lines) k = elim (Bool-cases (bytes_eq l [])) [
  | inl e ↦ elim (scan_plugins-cases indent lines (k + 1)) [
    | inl (skipped, plugin, rest, a, p, n, i, s, f) ↦ inl (
      l ∷ skipped,
      plugin,
      rest,
      ap (◌∷◌ l) a,
      (inl ((bytes_eq_iff l []).0 e), p),
      n,
      i,
      rw (e, scan_plugins) (ap (◌∷◌ l) s),
      rw (e, scan_plugins) f,
    )
    | inr (skipped, rest, a, p, s) ↦ inr (
      l ∷ skipped,
      rest,
      ap (◌∷◌ l) a,
      (inl ((bytes_eq_iff l []).0 e), p),
      rw (e, scan_plugins) (rw (s, scan_plugins) (ground arith)),
    )
  ]
  | inr e ↦ elim (Bool-cases (leb (indent_width l) indent)) [
    | inl w ↦
        inr ([], l ∷ lines, refl, tt, rw (e, scan_plugins) (rw (w, scan_plugins) (ground arith)))
    | inr w ↦ elim (Bool-cases (names_ndpi l)) [
      | inl n ↦ elim (Bool-cases (is_commented l)) [
        | inl c ↦ inl (
          [],
          l,
          lines,
          refl,
          tt,
          n,
          ground (arith, w),
          rw (e, scan_plugins)
              (rw (w, scan_plugins) (rw (n, scan_plugins) (rw (c, scan_plugins) refl))),
          rw (e, scan_plugins)
              (rw (w, scan_plugins) (rw (n, scan_plugins) (rw (c, scan_plugins) refl))),
        )
        | inr c ↦ inl (
          [],
          l,
          lines,
          refl,
          tt,
          n,
          ground (arith, w),
          rw (e, scan_plugins)
              (rw (w, scan_plugins) (rw (n, scan_plugins) (rw (c, scan_plugins) refl))),
          rw (e, scan_plugins)
              (rw (w, scan_plugins) (rw (n, scan_plugins) (rw (c, scan_plugins) refl))),
        )
      ]
      | inr n ↦ elim (scan_plugins-cases indent lines (k + 1)) [
        | inl (skipped, plugin, rest, a, p, n', i, s, f) ↦ inl (
          l ∷ skipped,
          plugin,
          rest,
          ap (◌∷◌ l) a,
          (inr (ground (arith, w), n), p),
          n',
          i,
          rw (e, scan_plugins) (rw (w, scan_plugins) (rw (n, scan_plugins) (ap (◌∷◌ l) s))),
          rw (e, scan_plugins) (rw (w, scan_plugins) (rw (n, scan_plugins) f)),
        )
        | inr (skipped, rest, a, p, s) ↦ inr (
          l ∷ skipped,
          rest,
          ap (◌∷◌ l) a,
          (inr (ground (arith, w), n), p),
          rw (e, scan_plugins)
              (rw (w, scan_plugins) (rw (n, scan_plugins) (rw (s, scan_plugins) (ground arith)))),
        )
      ]
    ]
  ]
]

pub insert_at-length :
    (xs : List Bytes) (l : Bytes) (ys : List Bytes)
    → insert_at (length xs) l (xs ++ ys) ≡ xs ++ (l ∷ ys)
unfolding insert_at
insert_at-length [] l ys = refl
insert_at-length (x ∷ xs) l ys = ap (◌∷◌ x) (insert_at-length xs l ys)
