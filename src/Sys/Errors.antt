-- ===== src/Sys/Errors.antt =====
-- Go errors: what a call out of the repository returns, and what `fmt.Errorf` builds.
use integration_suricata_n_d.Base.{Bool, true, false, List, ◌++◌, ◌≡◌, refl, Bytes, ◌⊎◌, inl, inr}

-- What `errors.Is` and `os.IsNotExist` can tell of an error from outside.
pub data Kind : Type 0 where
  not_exist permission deadline_exceeded canceled conn_refused other : Kind

abbrev pub same_kind : Kind → Kind → Bool
same_kind not_exist not_exist = true
same_kind permission permission = true
same_kind deadline_exceeded deadline_exceeded = true
same_kind canceled canceled = true
same_kind conn_refused conn_refused = true
same_kind other other = true
same_kind _ _ = false

-- `outer` is an error of a library with its text, `msg` one of `fmt.Errorf` with no `%w`, `wrap`
-- one with its text before and after `%w`. `report` keeps the format and the arguments of a
-- message with `%q` or `%v`, whose text the program only shows.
pub data Error : Type 0 where
  outer : Kind → Bytes → Error
  msg : Bytes → Error
  wrap : Bytes → Error → Bytes → Error
  report : Bytes → List Bytes → Error

-- `errors.Is(err, kind)`
unfoldable pub is_kind : Kind → Error → Bool
is_kind k (outer j text) = same_kind k j
is_kind k (msg text) = false
is_kind k (wrap before e after) = is_kind k e
is_kind k (report format args) = false

-- `err.Error()`, up to the verbs of a `report`.
unfoldable pub error_text : Error → Bytes
error_text (outer k text) = text
error_text (msg text) = text
error_text (wrap before e after) = before ++ (error_text e ++ after)
error_text (report format args) = format

-- A value or an error, as Go returns `(T, error)`.
pub data Result {ℓ} (A : Type ℓ) : Type ℓ where
  ok : A → Result A
  err : Error → Result A

pub Result-cases {ℓ} :
    {A : Type ℓ} (r : Result A) → ((a : A) × (r ≡ ok a)) ⊎ ((e : Error) × (r ≡ err e))
Result-cases (ok a) = inl (a, refl)
Result-cases (err e) = inr (e, refl)
