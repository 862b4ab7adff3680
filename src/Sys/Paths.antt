-- ===== src/Sys/Paths.antt =====
-- `filepath.Base`, and `filepath.Dir` on a path that is clean.
use integration_suricata_n_d.Base.{
  Option, none, some, [], ◌∷◌, reverse, Bytes, ◌==◌, if◌then◌else◌, codes,
}

abbrev slash : Bytes
slash = codes "/"

-- Of a path from its last byte: what stands before the first "/", and what stands behind it.
unfoldable pub last_name : Bytes → Bytes
last_name [] = []
last_name (c ∷ s) = let more = last_name s in if c == b'/' then [] else c ∷ more

unfoldable pub before_name : Bytes → Option Bytes
before_name [] = none
before_name (c ∷ s) = let more = before_name s in if c == b'/' then some s else more

unfoldable pub drop_slashes : Bytes → Bytes
drop_slashes [] = []
drop_slashes (c ∷ s) = if c == b'/' then drop_slashes s else c ∷ s

unfoldable pub base : Bytes → Bytes
unfolding last_name drop_slashes
base [] = codes "."
base (c ∷ s) = elim (reverse (last_name (drop_slashes (reverse (c ∷ s))))) [
  | [] ↦ slash
  | d ∷ n ↦ d ∷ n
]

unfoldable pub dir : Bytes → Bytes
unfolding before_name
dir path = elim (before_name (reverse path)) [
  | none ↦ codes "."
  | some [] ↦ slash
  | some (c ∷ s) ↦ reverse (c ∷ s)
]
