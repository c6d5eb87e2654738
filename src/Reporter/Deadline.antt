-- ===== src/Reporter/Deadline.antt =====
-- The limit of time that `configure_timeout` sets, as `check_control` enforces it.
use Prim.Native.Nat.{min}
use native.Mathlib.Nat.{min-le_left, min-le_right}
use tributo_knova.Prelude.{
  ℕ, ◌+◌, String, Bool, true, false, ◌&&◌, [], ◌∷◌, Option, none, some, ◌≡◌, refl, sym, ◌∙◌, ◌⊎◌,
  elem, leb, arith, if◌then◌else◌,
}
use mathlib.Core.Path.{subst}
use tributo_knova.Python.Result.{Result, ok, err, control_error}
use tributo_knova.Reporter.State.{Stream, Reporter, Moment}
use tributo_knova.Reporter.Methods.{
  past_deadline, timeout_code, set_phase, control, check_control, configure_timeout,
}

-- ExecutionControlError with CANCELLED or the timeout code of the operation
abbrev pub Stops : Bool → Result (Unit {0}) → Type 0
Stops training r =
    (code phase : String) × (elem code ("CANCELLED" ∷ timeout_code training ∷ []) ≡ true)
    × (r ≡ err (control_error code phase))

earliest :
    (o : Option ℕ) (t now : ℕ)
    → (leb t now ≡ true) ⊎ (past_deadline o now ≡ true)
    → past_deadline (elim o [ none ↦ some t | some d ↦ some (min d t) ]) now ≡ true
earliest none t now h = ground arith
earliest (some d) t now h = ground (arith, min-le_left d t, min-le_right d t)

-- the tests of `control` in their order
first_stop :
    (training terminal cancelled late : Bool) (phase : String)
    → terminal ≡ false
    → late ≡ true
    → Stops training (
        if terminal
        then ok tt
        else if cancelled
        then err (control_error "CANCELLED" phase)
        else if late
        then err (control_error (timeout_code training) phase)
        else ok tt)
first_stop training terminal true late phase t l = ("CANCELLED", phase, refl, rw t refl)
first_stop training terminal false late phase t l =
    (timeout_code training, phase, timeout_code-elem training, rw (t, l) refl)
  where
    timeout_code-elem :
        (training : Bool)
        → elem (timeout_code training) ("CANCELLED" ∷ timeout_code training ∷ []) ≡ true
    timeout_code-elem true = refl
    timeout_code-elem false = refl

module _ {F : Type 0} where
  -- when the limit starts to run
  abbrev pub received : Reporter F → Moment F → ℕ
  received self now = elim self.received_at_ms [ none ↦ now.started_ms | some t ↦ t ]

  -- The time has come for the limit or for an earlier deadline.
  abbrev pub IsLate : Reporter F → Moment F → ℕ → Moment F → Type 0
  IsLate self now limit later =
      (leb (received self now + limit) later.now_ms ≡ true)
      ⊎ (past_deadline self.deadline_at_ms later.now_ms ≡ true)

  control-Stops :
      (self : Reporter F) (now : Moment F)
      → self.terminal ≡ false
      → past_deadline self.deadline_at_ms now.now_ms ≡ true
      → Stops self.training (control self now)
  control-Stops self now =
      first_stop self.training self.terminal (self.cancel_key && now.cancelled)
        (past_deadline self.deadline_at_ms now.now_ms) self.current_phase

  set_phase-keeps :
      (self : Reporter F) (phase : Option String)
      → ((set_phase self phase).training ≡ self.training)
        × ((set_phase self phase).terminal ≡ self.terminal)
        × ((set_phase self phase).deadline_at_ms ≡ self.deadline_at_ms)
  set_phase-keeps self none = (refl, refl, refl)
  set_phase-keeps self (some phase) = (ground arith, ground arith, ground arith)

  -- After `configure_timeout` with a limit, `check_control` of a reporter that is not terminal raises
  -- ExecutionControlError, with CANCELLED or with the operation's timeout code, at any time from
  -- the limit's end on, counted from when the request was received, or from an earlier deadline on:
  -- configuring a limit never postpones one.
  pub configure_timeout-Stops :
      (self : Reporter F) (now later : Moment F) (limit : ℕ) (phase : Option String) (s : Stream)
      → self.terminal ≡ false
      → IsLate self now limit later
      → Stops self.training
          (check_control later phase
            (record { self = configure_timeout now (some limit) self; stream = s })).0
  unfolding configure_timeout check_control
  configure_timeout-Stops self now later limit phase s t late =
      let limited = configure_timeout now (some limit) self in
      let (training, term, deadline) = set_phase-keeps limited phase in
      subst (λ (b : Bool). Stops b (control (set_phase limited phase) later)) training
        (control-Stops (set_phase limited phase) later (term ∙ t) (
          subst (λ (o : Option ℕ). past_deadline o later.now_ms ≡ true) (sym deadline)
            (earliest self.deadline_at_ms (received self now + limit) later.now_ms late)))
