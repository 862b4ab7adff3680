-- ===== src/Reconcile/Named.antt =====
-- How the target names the plugin after a real run: `integration/reconcile.go` with the patch of
-- `integration/patch_suricata_config.go`.
use integration_suricata_n_d.Base.{
  ℕ, ◌≤◌, true, Option, some, List, ◌≡◌, arith, Bytes, inl, inr, All,
}
use integration_suricata_n_d.Text.Joined.{NoReturn}
use integration_suricata_n_d.Sys.{Result, ok, World, Node, read_file}
use integration_suricata_n_d.Line.Key.{IsNormal}
use integration_suricata_n_d.Template.{render_template_strict}
use integration_suricata_n_d.Options.{ApplyConfigOptions}
use integration_suricata_n_d.Patch.{find_block, plugins, split_lines}
use integration_suricata_n_d.Patch.Plain.{NamesPlainly}
use integration_suricata_n_d.Patch.Written.{patch_config-NamesPlainly}
use integration_suricata_n_d.Reconcile.{reconcile_config}
use integration_suricata_n_d.Reconcile.Preview.{Rendered}
use integration_suricata_n_d.Reconcile.Safety.{reconcile_config_safe}

Rendered-once :
    (env : Bytes → Option Bytes) (route : Result Bytes) (template : Bytes) (w : World)
    (raw rendered rendered' : Bytes)
    → (read_file template w).0 ≡ ok raw
    → render_template_strict env route raw ≡ ok rendered
    → Rendered env route template w rendered'
    → rendered' ≡ rendered
Rendered-once env route template w raw rendered rendered' f r (raw', f', r') =
    let same : raw' ≡ raw = ground (arith, f, f') in ground (arith, r, rw same at r')

-- When a real run reports that it applied the new configuration, then in the target the first line of the key `plugins` does not
-- begin with a comment mark, and under it, behind only blank lines and deeper ones that do not name "ndpi.so", stands a line that
-- names "ndpi.so", does not begin with a comment mark, and is deeper than the key of the rendered template; where neither
-- the rendered template nor the old configuration has a carriage return, their lines are ASCII and have no two comment marks, and
-- the template's key is indented by one blank at most.
pub reconcile_config-NamesPlainly :
    (env : Bytes → Option Bytes) (route : Result Bytes) (sha256_hex : Bytes → Bytes)
    (opts : ApplyConfigOptions) (w : World) (target raw rendered : Bytes) (old : Node)
    → (reconcile_config env route sha256_hex opts w).0.0.target_config_path ≡ target
    → w.files target ≡ some old
    → (read_file opts.template_path w).0 ≡ ok raw
    → render_template_strict env route raw ≡ ok rendered
    → NoReturn rendered × All IsNormal (split_lines rendered)
    → NoReturn old.content × All IsNormal (split_lines old.content)
    → ((block : List Bytes) (indent : ℕ)
        → find_block (split_lines rendered) plugins ≡ some (block, indent)
        → indent ≤ 1)
    → (reconcile_config env route sha256_hex opts w).0.0.applied ≡ true
    → (n : Node) × (block : List Bytes) × (indent : ℕ) × ((reconcile_config env route sha256_hex
            opts w).1.files
          target
        ≡ some n)
      × (find_block (split_lines rendered) plugins ≡ some (block, indent))
      × NamesPlainly indent (split_lines n.content)
reconcile_config-NamesPlainly env route sha256_hex opts w target raw rendered old t held f r
      (rt, nt) (rc, nc) small done =
    elim (reconcile_config_safe env route sha256_hex opts w target old t held).0 [
      | inl (na, _) ↦ absurd (ground (arith, na, done))
      | inr (_, _, (n, rendered', now, text, p)) ↦
          let same = Rendered-once env route opts.template_path w raw rendered rendered' f r text in
          let (block, indent, found, loaded) =
            patch_config-NamesPlainly rendered old.content n.content true rt rc nt nc small
              (rw same at p) in
          (n, block, indent, now, found, loaded)
    ]
