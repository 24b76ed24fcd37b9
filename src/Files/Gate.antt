-- ===== src/Files/Gate.antt =====
-- The two rate gates: `PublicUploadGateGuard` of apps/api/src/files/public-upload-gate.ts and
-- `acquirePreviewRender` of apps/api/src/cases/case.service.ts, for one key of their maps.
use authorization_document.Model.Rows.{Time}
use authorization_document.Base.{
  refl, ℕ, none, some, false, [], ◌∷◌, inl, inr, ok, err, suc, Option, List, if◌then◌else◌, Result,
  ◌<◌, ◌≤◌, leb, ◌==◌, ◌+◌, All, ◌||◌, ◌-◌, arith, too_many, too_many_requests, ◌≡◌, Bool-cases,
  ◌⊎◌, subst, sym,
}

pub record GateState : Type 0 where
  pub started_at : Time
  pub attempts : ℕ
  pub active : ℕ

-- The constants of a gate.
pub record GateLimits : Type 0 where
  pub window : ℕ
  pub max_attempts : ℕ
  pub max_active : ℕ

abbrev pub upload_limits : GateLimits
upload_limits = record { window = 60000; max_attempts = 12; max_active = 2 }

abbrev pub preview_limits : GateLimits
preview_limits = record { window = 60000; max_attempts = 6; max_active = 1 }

-- The state of the current window, a new one where the old one has passed.
abbrev pub current_state : GateLimits → Time → Option GateState → GateState
current_state limits now none = record { started_at = now; attempts = 0; active = 0 }
current_state limits now (some s) =
    if leb (s.started_at + limits.window) now
    then record { started_at = now; attempts = 0; active = 0 }
    else s

-- Entering the gate.
unfoldable pub enter : GateLimits → Time → Option GateState → Result GateState
enter limits now state =
    let s = current_state limits now state in
    if leb limits.max_attempts s.attempts || leb limits.max_active s.active
    then (err (too_many too_many_requests))
    else (ok (record s { attempts = s.attempts + 1; active = s.active + 1 }))

-- The release of an entry writes to the state object that it was counted in, which `started_at` tells
-- from that of a later window; `Math.max(0, active - 1)` is subtraction on ℕ.
unfoldable pub leave : Time → Option GateState → Option GateState
leave started none = none
leave started (some s) =
    if s.started_at == started then some (record s { active = s.active - 1 }) else some s

pub data GateEvent : Type 0 where
  entering : Time → GateEvent
  leaving : Time → GateEvent

-- How many of the events are admitted entries, in their order.
unfoldable pub admitted : GateLimits → Option GateState → List GateEvent → ℕ
admitted limits state [] = 0
admitted limits state (entering now ∷ rest) = elim (enter limits now state) [
  | ok s ↦ suc (admitted limits (some s) rest)
  | err e ↦ admitted limits state rest
]
admitted limits state (leaving started ∷ rest) = admitted limits (leave started state) rest

-- The entries lie before the end of the window that starts at a time.
abbrev pub IsInWindow : GateLimits → Time → GateEvent → Type 0
IsInWindow limits start (entering now) = now < start + limits.window
IsInWindow limits start (leaving started) = Unit

enter_in_window :
    (limits : GateLimits) (now : Time) (s : GateState)
    → now < s.started_at + limits.window
    → (enter limits now (some s) ≡ err (too_many too_many_requests))
      ⊎ ((enter limits now (some s)
            ≡ ok (record s { attempts = s.attempts + 1; active = s.active + 1 }))
          × (s.attempts + 1 ≤ limits.max_attempts))
unfolding enter
enter_in_window limits now s h =
    let inside : leb (s.started_at + limits.window) now ≡ false = ground arith in
    elim (Bool-cases (leb limits.max_attempts s.attempts || leb limits.max_active s.active)) [
      | inl full ↦ inl (rw (inside, full) refl)
      | inr free ↦ inr (rw (inside, free) refl, ground arith)
    ]

leave_split :
    (started : Time) (s : GateState)
    → (t : GateState) × (leave started (some s) ≡ some t)
      × (t.attempts ≡ s.attempts)
      × (t.started_at ≡ s.started_at)
unfolding leave
leave_split started s = elim (Bool-cases (s.started_at == started)) [
  | inl e ↦ (record s { active = s.active - 1 }, rw e refl, refl, refl)
  | inr e ↦ (s, rw e refl, refl, refl)
]

-- From a state, whatever enters and leaves before its window ends, at most the attempts that are
-- left of the window are admitted.
pub admitted-le-max_attempts :
    (limits : GateLimits) (s : GateState) (events : List GateEvent)
    → s.attempts ≤ limits.max_attempts
    → All (IsInWindow limits s.started_at) events
    → admitted limits (some s) events + s.attempts ≤ limits.max_attempts
unfolding admitted
admitted-le-max_attempts limits s [] h w = omega arith
admitted-le-max_attempts limits s (entering now ∷ rest) h w =
    elim (enter_in_window limits now s w.0) [
      | inl e ↦ rw (e, admitted) (admitted-le-max_attempts limits s rest h w.1)
      | inr (e, left) ↦
          let later =
            admitted-le-max_attempts limits
              (record s { attempts = s.attempts + 1; active = s.active + 1 }) rest left w.1 in
          rw (e, admitted) (omega (arith, later))
    ]
admitted-le-max_attempts limits s (leaving started ∷ rest) h w =
    let (t, e, same, start) = leave_split started s in
    let later =
      admitted-le-max_attempts limits t rest (omega (arith, same, h))
        (subst (λ x. All (IsInWindow limits x) rest) (sym start) w.1) in
    rw (e, admitted) (omega (arith, later, same))
