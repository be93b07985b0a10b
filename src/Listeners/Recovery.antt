-- ===== src/Listeners/Recovery.antt =====
-- Closing and reopening of the ports of src/services/stratum-v1.service.ts.
use lido.Base.{
  ℕ, ◌+◌, ◌≤◌, ◌<◌, ◌≡◌, refl, ap, ◌∙◌, sym, subst, Bool, true, false, not, Bool-cases, inl, inr,
  List, [], ◌∷◌, map, length, All, arith, leb, if◌then◌else◌,
}
use lido.Listeners.{
  Listener, StratumService, Limits, Load, listen, pause_listener, resume_listener, pause_accepting,
  resume_accepting, any_paused, is_overloaded, is_healthy, count_healthy, react, check_backpressure,
  monitor, with_checks,
}

-- A port is open or paused, and not both.
abbrev pub IsEither : Listener → Type 0
IsEither l = l.server ≡ not l.paused

abbrev reopened : Listener → Listener
reopened l = record l { server = true; paused = false }

resumed_at :
    (p : ℕ) (server paused : Bool)
    → server ≡ not paused
    → resume_listener (record { port = p; server = server; paused = paused })
      ≡ record { port = p; server = true; paused = false }
unfolding resume_listener listen
resumed_at p true false e = refl
resumed_at p false true e = refl
resumed_at p true true e = absurd (ground arith)
resumed_at p false false e = absurd (ground arith)

resumed : (l : Listener) → IsEither l → resume_listener l ≡ reopened l
resumed l e = resumed_at l.port l.server l.paused e

abbrev pub opened : List Listener → List Listener
opened = map reopened

map-resumed : (ls : List Listener) → All IsEither ls → map resume_listener ls ≡ opened ls
map-resumed [] h = refl
map-resumed (l ∷ ls) h = cc (resumed l h.0, map-resumed ls h.1)

module _ (limits : Limits) where
  -- One check short of the count that is needed.
  react_early :
      (over healthy : Bool) (s : StratumService)
      → s.healthy_backpressure_checks + 1 < limits.healthy_checks
      → ((react limits over true healthy s).listeners ≡ s.listeners)
        × ((react limits over true healthy s).healthy_backpressure_checks
            ≤ s.healthy_backpressure_checks + 1)
  unfolding react count_healthy
  react_early true healthy s few = (refl, omega arith)
  react_early false false s few = (refl, omega arith)
  react_early false true s few = ground arith

  -- A closed port stays closed for as long as there were too few checks since the count was 0,
  -- whatever they measured.
  pub stays_closed :
      (loads : List Load) (s : StratumService)
      → any_paused s.listeners ≡ true
      → s.healthy_backpressure_checks + length loads < limits.healthy_checks
      → (monitor limits loads s).listeners ≡ s.listeners
  unfolding monitor
  stays_closed [] s paused few = refl
  stays_closed (load ∷ loads) s paused few =
      let (same, count) : ((check_backpressure limits load s).listeners ≡ s.listeners)
          × ((check_backpressure limits load s).healthy_backpressure_checks
              ≤ s.healthy_backpressure_checks + 1) =
        unfold check_backpressure in
        subst
          (λ b.
            ((react limits (is_overloaded limits load) b (is_healthy limits load) s).listeners
              ≡ s.listeners)
            × ((react limits (is_overloaded limits load) b (is_healthy limits load)
                  s).healthy_backpressure_checks
                ≤ s.healthy_backpressure_checks + 1))
          (sym paused)
          (react_early (is_overloaded limits load) (is_healthy limits load) s (omega arith)) in
      stays_closed loads (check_backpressure limits load s) (ap any_paused same ∙ paused)
        (omega arith)
      ∙ same

  -- A load under which ports are opened again.
  abbrev pub IsCalm : Load → Type 0
  IsCalm load = (is_overloaded limits load ≡ false) × (is_healthy limits load ≡ true)

  calm_check :
      (load : Load) (s : StratumService)
      → IsCalm load
      → any_paused s.listeners ≡ true
      → check_backpressure limits load s
        ≡ count_healthy limits (with_checks (s.healthy_backpressure_checks + 1) s)
  unfolding check_backpressure react
  calm_check load s (under, well) paused = rw (under, well, paused)

  -- While a port is closed, as many calm checks as are configured, with none counted yet, open every
  -- port and set the count back to 0.
  pub resumes_after :
      (loads : List Load) (s : StratumService)
      → any_paused s.listeners ≡ true
      → All IsEither s.listeners
      → All IsCalm loads
      → 0 < length loads
      → s.healthy_backpressure_checks + length loads ≡ limits.healthy_checks
      → monitor limits loads s
        ≡ record { listeners = opened s.listeners; healthy_backpressure_checks = 0 }
  unfolding monitor
  resumes_after [] s paused either calm some_load n = absurd (omega arith)
  resumes_after (load ∷ []) s paused either calm some_load n =
      calm_check load s calm.0 paused
      ∙ (unfold count_healthy in
          unfold resume_accepting in
          let e : leb limits.healthy_checks (s.healthy_backpressure_checks + 1) ≡ true =
            ground arith in
          rw (e, map-resumed s.listeners either))
  resumes_after (load ∷ later ∷ loads) s paused either calm some_load n =
      let e : leb limits.healthy_checks (s.healthy_backpressure_checks + 1) ≡ false =
        ground arith in
      let step : check_backpressure limits load s
          ≡ with_checks (s.healthy_backpressure_checks + 1) s =
        calm_check load s calm.0 paused ∙ (unfold count_healthy in rw e) in
      ap (monitor limits (later ∷ loads)) step
      ∙ resumes_after (later ∷ loads) (with_checks (s.healthy_backpressure_checks + 1) s) paused
          either calm.1 (omega arith) (omega arith)

pause-IsEither_at :
    (p : ℕ) (server paused : Bool)
    → server ≡ not paused
    → IsEither (pause_listener (record { port = p; server = server; paused = paused }))
unfolding pause_listener
pause-IsEither_at p true false e = refl
pause-IsEither_at p false true e = refl
pause-IsEither_at p true true e = absurd (ground arith)
pause-IsEither_at p false false e = absurd (ground arith)

pause-IsEither : (ls : List Listener) → All IsEither ls → All IsEither (map pause_listener ls)
pause-IsEither [] h = tt
pause-IsEither (l ∷ ls) h = (pause-IsEither_at l.port l.server l.paused h.0, pause-IsEither ls h.1)

resume-IsEither : (ls : List Listener) → All IsEither ls → All IsEither (map resume_listener ls)
resume-IsEither [] h = tt
resume-IsEither (l ∷ ls) h = (subst IsEither (sym (resumed l h.0)) refl, resume-IsEither ls h.1)

module _ (limits : Limits) where
  count_healthy-IsEither :
      (s : StratumService)
      → All IsEither s.listeners
      → All IsEither (count_healthy limits s).listeners
  unfolding count_healthy resume_accepting
  count_healthy-IsEither s h =
      elim (Bool-cases (leb limits.healthy_checks s.healthy_backpressure_checks)) [
        | inl enough ↦
            subst
              (λ b. All IsEither ((if b then with_checks 0 (resume_accepting s) else s).listeners))
              (sym enough) (resume-IsEither s.listeners h)
        | inr few ↦
            subst
              (λ b. All IsEither ((if b then with_checks 0 (resume_accepting s) else s).listeners))
              (sym few) h
      ]

  react-IsEither :
      (over paused healthy : Bool) (s : StratumService)
      → All IsEither s.listeners
      → All IsEither (react limits over paused healthy s).listeners
  unfolding react pause_accepting
  react-IsEither true false healthy s h = pause-IsEither s.listeners h
  react-IsEither true true healthy s h = h
  react-IsEither false false healthy s h = h
  react-IsEither false true false s h = h
  react-IsEither false true true s h =
      count_healthy-IsEither (with_checks (s.healthy_backpressure_checks + 1) s) h

  -- Whatever the checks measure, a port stays open or paused and never both or neither.
  pub monitor-IsEither :
      (loads : List Load) (s : StratumService)
      → All IsEither s.listeners
      → All IsEither (monitor limits loads s).listeners
  unfolding monitor check_backpressure
  monitor-IsEither [] s h = h
  monitor-IsEither (load ∷ loads) s h = monitor-IsEither loads (check_backpressure limits load s) (
      react-IsEither (is_overloaded limits load) (any_paused s.listeners) (is_healthy limits load) s
        h)
