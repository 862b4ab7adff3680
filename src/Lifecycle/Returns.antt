-- ===== src/Lifecycle/Returns.antt =====
-- When `RunWithSignals` goes on, and what it returns.
use integration_suricata_n_d.Base.{
  ℕ, suc, ◌+◌, ◌≤◌, ◌<◌, Bool, true, false, Option, none, some, ◌≡◌, ◌⊎◌, refl, sym, subst, arith,
  inl, inr, Bool-cases,
}
use integration_suricata_n_d.Sys.{canceled, Error, is_kind}
use integration_suricata_n_d.Lifecycle.{
  Phase, waiting, stopping, draining, returned, Service, running, ended, Stop, not_called,
  came_back, State, launched, timed_out, after_stop, Occurrence, finish, signal, stop_returns,
  expire_stopping, expire_draining, Branch, take_result, take_signal, take_end, take_expiry,
}

-- Runs in which the function takes a number of branches, with any events between them.
pub data Run (s : State) : ℕ → State → Type 0 where
  start : Run s 0 s
  happens : {n : ℕ} {t u : State} → Run s n t → Occurrence t u → Run s n u
  takes : {n : ℕ} {t u : State} → Run s n t → Branch t u → Run s (suc n) u

-- How many branches the function still takes, at most.
abbrev pub rank : Phase → ℕ
rank waiting = 2
rank stopping = 1
rank (draining x) = 1
rank (returned x) = 0

Occurrence-rank : {s t : State} → Occurrence s t → rank t.phase ≤ rank s.phase
Occurrence-rank (finish s e h) = omega arith
Occurrence-rank (signal s h) = omega arith
Occurrence-rank (stop_returns s e h) = ground (arith, h)
Occurrence-rank (expire_stopping s h k) = omega arith
Occurrence-rank (expire_draining s x h k) = omega arith

Branch-rank : {s t : State} → Branch s t → rank t.phase < rank s.phase
Branch-rank (take_result s e h k) = ground (arith, h)
Branch-rank (take_signal s h k) = ground (arith, h)
Branch-rank (take_end s x e h k) = ground (arith, h)
Branch-rank (take_expiry s x h k) = ground (arith, h)

Run-rank : {s t : State} {n : ℕ} → Run s n t → n + rank t.phase ≤ rank s.phase
Run-rank start = omega arith
Run-rank (happens r e) = omega (arith, Run-rank r, Occurrence-rank e)
Run-rank (takes r b) = omega (arith, Run-rank r, Branch-rank b)

abbrev pub IsReturned : Phase → Type 0
IsReturned (returned x) = Unit
IsReturned _ = ⊥

-- Returned, or with nothing to go on with: at the first select while Start runs and no signal has come; in Stop; or at the
-- second select while Start runs and the time has not run out.
abbrev pub Rests : State → Type 0
Rests s =
    IsReturned s.phase
    ⊎ ((s.phase ≡ waiting) × (s.service ≡ running) × (s.signalled ≡ false))
    ⊎ (s.phase ≡ stopping)
    ⊎ ((x : Option Error) × (s.phase ≡ draining x) × (s.service ≡ running) × (s.expired ≡ false))

Phase-cases :
    (p : Phase)
    → (p ≡ waiting) ⊎ (p ≡ stopping) ⊎ ((x : Option Error) × (p ≡ draining x)) ⊎ IsReturned p
Phase-cases waiting = inl refl
Phase-cases stopping = inr (inl refl)
Phase-cases (draining x) = inr (inr (inl (x, refl)))
Phase-cases (returned x) = inr (inr (inr tt))

Service-cases : (v : Service) → (v ≡ running) ⊎ ((e : Option Error) × (v ≡ ended e))
Service-cases running = inl refl
Service-cases (ended e) = inr (e, refl)

stuck-Rests : (s : State) → ((t : State) → Branch s t → ⊥) → Rests s
stuck-Rests s stuck = elim (Phase-cases s.phase) [
  | inl w ↦ elim (Service-cases s.service) [
    | inr (e, v) ↦ absurd (stuck _ (take_result s e w v))
    | inl v ↦ elim (Bool-cases s.signalled) [
      | inl b ↦ absurd (stuck _ (take_signal s w b))
      | inr b ↦ inr (inl (w, v, b))
    ]
  ]
  | inr (inl w) ↦ inr (inr (inl w))
  | inr (inr (inl (x, w))) ↦ elim (Service-cases s.service) [
    | inr (e, v) ↦ absurd (stuck _ (take_end s x e w v))
    | inl v ↦ elim (Bool-cases s.expired) [
      | inl b ↦ absurd (stuck _ (take_expiry s x w b))
      | inr b ↦ inr (inr (inr (x, w, v, b)))
    ]
  ]
  | inr (inr (inr r)) ↦ inl r
]

-- The function takes at most two branches of its selects, whatever happens outside. And where it can take none, it has
-- returned, or Start still runs and no signal has come, or Stop has not come back, or, after it, Start still runs and the time
-- has not run out.
pub Run-Rests :
    {n : ℕ} {t : State} → Run launched n t → (n ≤ 2) × (((u : State) → Branch t u → ⊥) → Rests t)
Run-Rests r = (omega (arith, Run-rank r), stuck-Rests _)

-- No error, or that of a context that was canceled.
abbrev pub IsQuiet : Option Error → Type 0
IsQuiet none = Unit
IsQuiet (some e) = is_kind canceled e ≡ true

-- The result `r`, where Start has ended with `e` and Stop has come back with `x`.
abbrev pub Combines : Option Error → Option Error → Option Error → Type 0
Combines e x r = (IsQuiet e × (r ≡ x)) ⊎ ((IsQuiet e → ⊥) × (r ≡ e))

-- What a result means, by Start, by Stop, and by whether a signal has come and the time has run out.
abbrev pub Explains : Service → Stop → Bool → Bool → Option Error → Type 0
Explains v p signalled expired r =
    ((p ≡ not_called) × (v ≡ ended r))
    ⊎ ((signalled ≡ true)
        × ((x : Option Error) × (e : Option Error) × (p ≡ came_back x)
            × (v ≡ ended e)
            × Combines e x r))
    ⊎ ((signalled ≡ true)
        × (expired ≡ true)
        × ((x : Option Error) × (p ≡ came_back x))
        × (r ≡ some timed_out))

after_stop-Combines : (e x : Option Error) → Combines e x (after_stop e x)
unfolding after_stop
after_stop-Combines none x = inl (tt, refl)
after_stop-Combines (some e) x = elim (Bool-cases (is_kind canceled e)) [
  | inl k ↦ rw (k, after_stop) (inl (refl, refl))
  | inr k ↦ rw (k, after_stop) (inr (λ q. absurd (cc (q)), refl))
]

-- What each phase tells.
abbrev pub Sound : Phase → Service → Stop → Bool → Bool → Type 0
Sound waiting v p signalled expired = p ≡ not_called
Sound stopping v p signalled expired = signalled ≡ true
Sound (draining x) v p signalled expired = (signalled ≡ true) × (p ≡ came_back x)
Sound (returned r) v p signalled expired = Explains v p signalled expired r

abbrev pub IsSound : State → Type 0
IsSound s = Sound s.phase s.service s.stop_call s.signalled s.expired

Sound-finish :
    (p : Phase) (v : Service) (z : Stop) (a b : Bool) (e : Option Error)
    → v ≡ running
    → Sound p v z a b
    → Sound p (ended e) z a b
Sound-finish waiting v z a b e h i = i
Sound-finish stopping v z a b e h i = i
Sound-finish (draining x) v z a b e h i = i
Sound-finish (returned r) v z a b e h (inl (n, k)) = ground (arith, h, k)
Sound-finish (returned r) v z a b e h (inr (inl (s, (x, e', n, k, q)))) =
    absurd (ground (arith, h, k))
Sound-finish (returned r) v z a b e h (inr (inr k)) = inr (inr k)

Sound-signal :
    (p : Phase) (v : Service) (z : Stop) (a b : Bool) → Sound p v z a b → Sound p v z true b
Sound-signal waiting v z a b i = i
Sound-signal stopping v z a b i = refl
Sound-signal (draining x) v z a b i = (refl, i.1)
Sound-signal (returned r) v z a b (inl k) = inl k
Sound-signal (returned r) v z a b (inr (inl (s, k))) = inr (inl (refl, k))
Sound-signal (returned r) v z a b (inr (inr (s, k, n, q))) = inr (inr (refl, k, n, q))

in_phase :
    (s : State) (p : Phase)
    → s.phase ≡ p
    → IsSound s
    → Sound p s.service s.stop_call s.signalled s.expired
in_phase s p h i = subst (λ q. Sound q s.service s.stop_call s.signalled s.expired) h i

Occurrence-IsSound : {s t : State} → Occurrence s t → IsSound s → IsSound t
Occurrence-IsSound (finish s e h) i =
    Sound-finish s.phase s.service s.stop_call s.signalled s.expired e h i
Occurrence-IsSound (signal s h) i =
    Sound-signal s.phase s.service s.stop_call s.signalled s.expired i
Occurrence-IsSound (stop_returns s e h) i = (in_phase s stopping h i, refl)
Occurrence-IsSound (expire_stopping s h k) i =
    subst (λ p. Sound p s.service s.stop_call s.signalled true) (sym h) (in_phase s stopping h i)
Occurrence-IsSound (expire_draining s x h k) i =
    subst (λ p. Sound p s.service s.stop_call s.signalled true) (sym h)
      (in_phase s (draining x) h i)

Branch-IsSound : {s t : State} → Branch s t → IsSound s → IsSound t
Branch-IsSound (take_result s e h k) i = inl (in_phase s waiting h i, k)
Branch-IsSound (take_signal s h k) i = k
Branch-IsSound (take_end s x e h k) i =
    let (signalled, back) = in_phase s (draining x) h i in
    inr (inl (signalled, (x, e, back, k, after_stop-Combines e x)))
Branch-IsSound (take_expiry s x h k) i =
    let (signalled, back) = in_phase s (draining x) h i in inr (inr (signalled, k, (x, back), refl))

Run-IsSound : {n : ℕ} {t : State} → Run launched n t → IsSound t
Run-IsSound start = refl
Run-IsSound (happens r e) = Occurrence-IsSound e (Run-IsSound r)
Run-IsSound (takes r b) = Branch-IsSound b (Run-IsSound r)

-- What the function returns is what Start ended with, and then Stop was not called; or a signal has come and Stop has come
-- back, and it is the error of Start, if Start ended with one that is not of a canceled context, and what Stop came back with
-- otherwise; or a signal has come, Stop has come back and the time has run out, and it is an error that says so.
pub Run-Explains :
    {n : ℕ} {t : State} (r : Option Error)
    → Run launched n t
    → t.phase ≡ returned r
    → Explains t.service t.stop_call t.signalled t.expired r
Run-Explains {t = t} r run h = in_phase t (returned r) h (Run-IsSound run)
