-- ===== src/Patch/Blocks.antt =====
-- `findBlock`, `findBlockRange`, `makeBlockUncommented`, `sliceEqual` and `ensureBlockExact`.
use integration_suricata_n_d.Base.{
  ℕ, ◌+◌, Bool, true, false, not, ◌&&◌, ◌||◌, Option, none, some, List, [], ◌∷◌, ◌++◌, leb,
  bytes_eq, if◌then◌else◌, Bytes, codes, take, drop,
}
use integration_suricata_n_d.Line.{normalize_key, indent_width, is_commented, uncomment_line}

-- `key + ":"`
abbrev pub key_line : Bytes → Bytes
key_line key = key ++ codes ":"

-- `normalizeKey(line) == keyLine`
abbrev pub is_key : Bytes → Bytes → Bool
is_key key line = bytes_eq (normalize_key line) (key_line key)

-- `line == "" || indentWidth(line) > base`: the line goes on a block.
abbrev pub goes_on : ℕ → Bytes → Bool
goes_on base line = bytes_eq line [] || not (leb (indent_width line) base)

-- The lines that `findBlock` appends behind the key's line.
unfoldable pub block_body : ℕ → List Bytes → List Bytes
block_body base [] = []
block_body base (l ∷ lines) =
    if bytes_eq l []
    then l ∷ block_body base lines
    else if leb (indent_width l) base
    then []
    else l ∷ block_body base lines

-- The block, and the indentation of its first line.
unfoldable pub find_block : List Bytes → Bytes → Option (List Bytes × ℕ)
find_block [] key = none
find_block (line ∷ lines) key =
    if not (is_key key line)
    then find_block lines key
    else some (line ∷ block_body (indent_width line) lines, indent_width line)

-- The inner loop of `findBlockRange` from index `j`: the `end` that it leaves.
unfoldable pub block_end : ℕ → List Bytes → ℕ → ℕ
block_end base [] j = j
block_end base (l ∷ lines) j =
    let rest = block_end base lines (j + 1) in
    if bytes_eq l [] then rest else if leb (indent_width l) base then j else rest

-- The outer loop from index `i`: start, end and base indentation.
unfoldable pub range_from : List Bytes → Bytes → ℕ → Option (ℕ × ℕ × ℕ)
range_from [] key i = none
range_from (line ∷ lines) key i =
    if not (is_key key line)
    then range_from lines key (i + 1)
    else some (i, block_end (indent_width line) lines (i + 1), indent_width line)

unfoldable pub find_block_range : List Bytes → Bytes → Option (ℕ × ℕ × ℕ)
find_block_range lines key = range_from lines key 0

unfoldable pub make_block_uncommented : List Bytes → List Bytes
make_block_uncommented [] = []
make_block_uncommented (l ∷ lines) =
    (if is_commented l then uncomment_line l else l) ∷ make_block_uncommented lines

unfoldable pub slice_equal : List Bytes → List Bytes → Bool
slice_equal [] [] = true
slice_equal (a ∷ xs) (b ∷ ys) = bytes_eq a b && slice_equal xs ys
slice_equal _ _ = false

-- `len(lines) > 0 && lines[len(lines)-1] != ""`
unfoldable pub lacks_blank_end : List Bytes → Bool
lacks_blank_end [] = false
lacks_blank_end (l ∷ []) = not (bytes_eq l [])
lacks_blank_end (l ∷ m ∷ lines) = lacks_blank_end (m ∷ lines)

abbrev pub with_blank_end : List Bytes → List Bytes
with_blank_end lines = if lacks_blank_end lines then lines ++ ([] ∷ []) else lines

-- The template's block, where it has one (`hasTemplate`). The error of the source is always nil.
unfoldable pub ensure_block_exact : List Bytes → Option (List Bytes) → Bytes → List Bytes × Bool
ensure_block_exact lines none key = (lines, false)
ensure_block_exact lines (some block) key =
    let tpl = make_block_uncommented block in
    elim (find_block_range lines key) [
      | none ↦ (with_blank_end lines ++ tpl, true)
      | some (start, end, base) ↦
          if slice_equal (drop start (take end lines)) tpl
          then (lines, false)
          else (take start lines ++ (tpl ++ drop end lines), true)
    ]
