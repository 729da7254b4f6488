-- ===== src/Reducer/Apply/Resume.antt =====
-- The replay of a log that has one event more.
use fdos_genesis.Prelude.{◌≡◌, refl, ap, ◌∙◌, List, [], ◌∷◌, ◌++◌, arith}
use fdos_genesis.Kernel.Result.{ok}
use fdos_genesis.Kernel.Exec.{pure}
use fdos_genesis.Kernel.Exec.Inversion.{bind-eq-ok}
use fdos_genesis.Model.{State}
use fdos_genesis.Reducer.Seals.{Seals}
use fdos_genesis.Reducer.Payload.{RuntimeEvent}
use fdos_genesis.Reducer.Apply.{apply_runtime_event, replay}

module _ (seals : Seals) where
  -- It reaches the end if the shorter log does and the event is then applied without an error.
  pub replay-append :
      (es : List RuntimeEvent) (e : RuntimeEvent) (s₀ : State) {s : State}
      → replay seals (es ++ e ∷ []) s₀ ≡ (ok tt, s)
      → (s' : State) × (replay seals es s₀ ≡ (ok tt, s')) × ((apply_runtime_event seals e s').1 ≡ s)
  unfolding replay
  replay-append [] e s₀ h =
      let (u, p, q) = bind-eq-ok (apply_runtime_event seals e) (λ _. pure tt) s₀ h in
      (s₀, refl, ground arith)
  replay-append (x ∷ es) e s₀ h =
      let (u, p, q) =
        bind-eq-ok (apply_runtime_event seals x) (λ _. replay seals (es ++ e ∷ [])) s₀ h in
      let (s', r, done) = replay-append es e (apply_runtime_event seals x s₀).1 q in
      (s', rw (p, r) refl, done)

  -- The other direction.
  pub replay_then :
      (es : List RuntimeEvent) (e : RuntimeEvent) (s₀ s : State) {t : State}
      → replay seals es s₀ ≡ (ok tt, s)
      → apply_runtime_event seals e s ≡ (ok tt, t)
      → replay seals (es ++ e ∷ []) s₀ ≡ (ok tt, t)
  unfolding replay
  replay_then [] e s₀ s {t} h k =
      let same : s₀ ≡ s = ap (λ x. x.1) h in
      let start : apply_runtime_event seals e s₀ ≡ (ok tt, t) =
        ap (apply_runtime_event seals e) same ∙ k in
      rw start refl
  replay_then (x ∷ es) e s₀ s {t} h k =
      let (u, p, q) = bind-eq-ok (apply_runtime_event seals x) (λ _. replay seals es) s₀ h in
      let rest = replay_then es e (apply_runtime_event seals x s₀).1 s q k in rw (p, rest) refl
