-- ===== src/Reporter/Once.antt =====
-- Any number of reporters, in the consumer and in the driver, write to one stream in any order.
use tributo_knova.Prelude.{
  ℕ, String, Bool, true, false, not, ◌&&◌, ◌||◌, Option, none, some, ◌≡◌, refl, sym, ap, ◌∙◌, inl,
  inr, ◌==◌, arith, Bool-cases, if◌then◌else◌, if_true,
}
use mathlib.Core.Path.{subst}
use tributo_knova.Python.Value.{Dict, is_empty}
use tributo_knova.Python.Result.{Result, ok, err}
use tributo_knova.Reporter.State.{Entry, Stream, Reporter, Moment, Host, World, M, pure, next}
use tributo_knova.Reporter.Script.{Reply, added, stale, refused, failed, atomic_xadd}
use tributo_knova.Reporter.Script.Laws.{
  OnlyNewest, Closed, atomic_xadd-OnlyNewest, atomic_xadd-Closed,
}
use tributo_knova.Reporter.Methods.{
  set_phase, check_control, settle, entry, write_atomic, write, encode, prepare, deliver, publish,
  metrics,
}

module _ {F : Type 0} {A B : Type 0} where
  -- a rule for the rest of an action: `P` before it, `Q` after it, also if it does not come to run
  pub next_rule :
      (P Q : World F → Type 0) (f : A → M F B) (r : Result A × World F)
      → P r.1
      → ((w : World F) → P w → Q w)
      → ((a : A) (w : World F) → P w → Q (f a w).1)
      → Q (next f r).1
  next_rule P Q f (ok a, w) p i k = k a w p
  next_rule P Q f (err e, w) p i k = i w p

module _ {F : Type 0} (host : Host F) where
  -- The stream is as it was, or has been through the script once.
  pub data Appends (s : Stream) : Stream → Type 0 where
    same : Appends s s
    scripted :
        {t : Stream} (e : Entry) (n : ℕ) (event_type : String)
        → (atomic_xadd host s e n event_type).1 ≡ t
        → Appends s t

  -- an atomic reporter in front of the stream
  abbrev pub At : Stream → World F → Type 0
  At s w = (w.stream ≡ s) × (w.self.atomic ≡ true)

  abbrev pub After : Stream → World F → Type 0
  After s w = Appends s w.stream

  At-After : (s : Stream) (w : World F) → At s w → After s w
  At-After s w h = subst (λ t. Appends t w.stream) h.0 same

  pub settle-stream :
      (event : Dict F) (r : Reply) (w : World F) → (settle event r w).1.stream ≡ w.stream
  settle-stream event added w = ground arith
  settle-stream event stale w = refl
  settle-stream event refused w = refl
  settle-stream event failed w = refl

  write_atomic-After :
      (event_type : String) (event : Dict F) (encoded : String) (s : Stream) (w : World F)
      → w.stream ≡ s
      → After s (write_atomic host event_type event encoded w).1
  unfolding write_atomic
  write_atomic-After event_type event encoded s w e =
      rw settle-stream
        (rw e (scripted (entry host w.self encoded) w.self.max_stream_length event_type refl))

  write-After :
      (event_type : String) (event : Dict F) (encoded : String) (s : Stream) (w : World F)
      → At s w
      → After s (write host event_type event encoded w).1
  unfolding write
  write-After event_type event encoded s w h =
      if_true (λ (p : Result (Dict F) × World F). After s p.1) w.self.atomic _ _ h.1
        (write_atomic-After event_type event encoded s w h.0)

  deliver-After :
      (event_type : String) (event : Dict F) (encoded : String) (s : Stream) (w : World F)
      → At s w
      → After s (deliver host event_type event encoded w).1
  deliver-After event_type event encoded s w h =
      elim (Bool-cases
        (w.self.terminal || (event_type == "ACCEPTED" && not (is_empty w.self.snapshot)))) [
          | inl skip ↦ rw skip (At-After s w h)
          | inr go ↦ rw go (write-After event_type event encoded s w h)
        ]

  pub set_phase-atomic :
      (self : Reporter F) (phase : Option String) → (set_phase self phase).atomic ≡ self.atomic
  set_phase-atomic self none = refl
  set_phase-atomic self (some phase) = ground arith

  pub check_control-At :
      (now : Moment F) (phase : Option String) (s : Stream) (w : World F)
      → At s w
      → At s (check_control now phase w).1
  unfolding check_control
  check_control-At now phase s w h = (h.0, set_phase-atomic w.self phase ∙ h.1)

  publish-After :
      (now : Moment F) (event_type : String) (payload : Dict F) (phase : Option String) (s : Stream)
      (w : World F)
      → At s w
      → After s (publish host now event_type payload phase w).1
  unfolding publish
  publish-After now event_type payload phase s w h =
      next_rule (At s) (After s) _
        ((if event_type == "COMPLETED" then check_control now none else pure tt) w)
        (checked (event_type == "COMPLETED")) (At-After s)
        λ _ v hv.
          next_rule (At s) (After s) _ (prepare host v.self now event_type payload phase, v) hv
            (At-After s)
            λ event v hv.
              next_rule (At s) (After s) _ (encode host v.self event, v) hv (At-After s)
                λ encoded v hv. deliver-After event_type event encoded s v hv
    where
      checked : (b : Bool) → At s ((if b then check_control now none else pure tt) w).1
      checked true = check_control-At now none s w h
      checked false = h

  metrics-After :
      (now : Moment F) (payload : Dict F) (s : Stream) (w : World F)
      → At s w
      → After s (metrics host now payload w).1
  unfolding metrics
  metrics-After now payload s w h =
      next_rule (At s) (After s) _ (check_control now (some "TRAINING") w)
        (check_control-At now (some "TRAINING") s w h) (At-After s)
        λ _ v hv. publish-After now "METRICS" payload (some "EXECUTING") s v hv

  -- A call of some atomic reporter, in whatever state it is, on the stream as it stands.
  pub data Step (s : Stream) : Stream → Type 0 where
    publishes :
        {t : Stream} (w : World F) (now : Moment F) (event_type : String) (payload : Dict F)
        (phase : Option String)
        → w.stream ≡ s
        → w.self.atomic ≡ true
        → (publish host now event_type payload phase w).1.stream ≡ t
        → Step s t
    measures :
        {t : Stream} (w : World F) (now : Moment F) (payload : Dict F)
        → w.stream ≡ s
        → w.self.atomic ≡ true
        → (metrics host now payload w).1.stream ≡ t
        → Step s t

  pub data Reach (s : Stream) : Stream → Type 0 where
    start : Reach s s
    next_step : {t u : Stream} → Reach s t → Step t u → Reach s u

  pub Step-Appends : {s t : Stream} → Step s t → Appends s t
  Step-Appends {s} {t} (publishes w now event_type payload phase e a r) =
      subst (Appends s) r (publish-After now event_type payload phase s w (e, a))
  Step-Appends {s} {t} (measures w now payload e a r) =
      subst (Appends s) r (metrics-After now payload s w (e, a))

  Appends-OnlyNewest : {s t : Stream} → Appends s t → OnlyNewest host s → OnlyNewest host t
  Appends-OnlyNewest same h = h
  Appends-OnlyNewest {s} (scripted e n event_type r) h =
      subst (OnlyNewest host) r (atomic_xadd-OnlyNewest host s e n event_type h)

  Appends-Closed : {s t : Stream} → Appends s t → Closed host s → t ≡ s
  Appends-Closed same h = refl
  Appends-Closed {s} (scripted e n event_type r) h =
      sym r ∙ ap (λ (p : Reply × Stream). p.1) (atomic_xadd-Closed host s e n event_type h)

  -- Whatever calls of whatever reporters are interleaved, each writing by the script: a stream whose
  -- entries before the newest are not terminal stays one. So from an empty stream there is at
  -- most one terminal event, and it is the last.
  pub Reach-OnlyNewest : {s t : Stream} → Reach s t → OnlyNewest host s → OnlyNewest host t
  Reach-OnlyNewest start h = h
  Reach-OnlyNewest (next_step r st) h = Appends-OnlyNewest (Step-Appends st) (Reach-OnlyNewest r h)

  -- Once the newest entry is terminal, no call of any reporter that writes by the script changes the
  -- stream.
  pub Reach-Closed : {s t : Stream} → Reach s t → Closed host s → t ≡ s
  Reach-Closed start h = refl
  Reach-Closed {s} (next_step r st) h =
      let e = Reach-Closed r h in
      Appends-Closed (Step-Appends st) (subst (Closed host) (sym e) h) ∙ e
