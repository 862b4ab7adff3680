-- ===== src/Sys/Machine.antt =====
-- The state of the machine, and programs over it.
use integration_suricata_n_d.Base.{
  ℕ, Option, none, some, List, [], ◌∷◌, ◌++◌, Bytes, bytes_eq, if◌then◌else◌, codes,
}
use integration_suricata_n_d.Sys.Errors.{other, Error, outer}

pub data NodeKind : Type 0 where
  regular directory socket : NodeKind

pub record Node : Type 0 where
  pub content : Bytes
  pub mode : ℕ
  pub kind : NodeKind

-- A system call that fails, after it has written `done` bytes if it is a write.
pub record Fault : Type 0 where
  pub error : Error
  pub done : ℕ

-- What a command gives: its output, its error, and `ctx.Err()` when it has ended.
pub record RunResult : Type 0 where
  pub output : Bytes
  pub failure : Option Error
  pub context : Option Error

pub data Event : Type 0 where
  run : Bytes → List Bytes → Event
  dial : Bytes → Event

-- The files by path; the outcomes of the coming system calls, where no entry means that the call
-- works; the names that `CreateTemp` will draw; the results of the coming commands and of the
-- coming dials; and the commands and dials so far, the latest last.
pub record World : Type 0 where
  pub files : Bytes → Option Node
  pub faults : List (Option Fault)
  pub temps : List Bytes
  pub results : List RunResult
  pub dials : List (Option Error)
  pub log : List Event

abbrev pub M : Type 0 → Type 0
M A = World → A × World

infixl 5 ◌>>=◌
abbrev pub ◌>>=◌ : {A B : Type 0} → M A → (A → M B) → M B
◌>>=◌ m f w = f (m w).0 (m w).1

abbrev pub pure : {A : Type 0} → A → M A
pure a w = (a, w)

-- The outcome of the next system call.
unfoldable pub call : M (Option Fault)
call w = elim w.faults [ [] ↦ (none, w) | f ∷ fs ↦ (f, record w { faults = fs }) ]

abbrev pub no_result : RunResult
no_result = record {
  output = [];
  failure = some (outer other (codes "exec: not started"));
  context = none;
}

-- `CombinedOutput(ctx, name, args...)`. A command leaves the files that the model holds alone.
unfoldable pub combined_output : Bytes → List Bytes → M RunResult
combined_output name args w =
    let said = record w { log = w.log ++ (run name args ∷ []) } in
    elim w.results [ [] ↦ (no_result, said) | r ∷ rs ↦ (r, record said { results = rs }) ]

-- `DialTimeout("unix", path, timeout)`: none is a connection, which the program closes unread.
unfoldable pub dial_timeout : Bytes → M (Option Error)
dial_timeout path w =
    let said = record w { log = w.log ++ (dial path ∷ []) } in
    elim w.dials [ [] ↦ (none, said) | r ∷ rs ↦ (r, record said { dials = rs }) ]

unfoldable pub update : (Bytes → Option Node) → Bytes → Option Node → Bytes → Option Node
update files p n q = if bytes_eq p q then n else files q
