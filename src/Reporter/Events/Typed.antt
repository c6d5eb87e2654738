-- ===== src/Reporter/Events/Typed.antt =====
-- The event of a terminal call carries the call's event type.
use tributo_knova.Prelude.{
  String, Bool, true, false, List, [], ◌∷◌, Option, ◌≡◌, refl, ◌⊎◌, inl, inr, ◌==◌, eq_iff, elem,
  arith, Bool-cases, if◌then◌else◌,
}
use mathlib.Core.Path.{subst}
use tributo_knova.Python.Value.{Value, Dict, string, find, get_or, get, is_none, put}
use tributo_knova.Python.Value.Laws.{get-put}
use tributo_knova.Python.Result.{Result, ok, ok-injective, from_ok}
use tributo_knova.Reporter.State.{Reporter, Moment, Host}
use tributo_knova.Reporter.Codes.{terminal_events}
use tributo_knova.Reporter.Events.{
  present, int_at, float_at, base, rows, training_event, inference_completed, inference_cancelled,
  inference_failed, inference_event, event_of,
}

-- no key of the list is the event's type
abbrev Others : List String → Type 0
Others [] = Unit
Others (k ∷ ks) = ((k == "event_type") ≡ false) × Others ks

pub terminal_cases :
    (event_type : String)
    → elem event_type terminal_events ≡ true
    → (event_type ≡ "COMPLETED") ⊎ ((event_type ≡ "FAILED") ⊎ (event_type ≡ "CANCELLED"))
terminal_cases event_type h = ground (
  arith,
  eq_iff event_type "COMPLETED",
  eq_iff event_type "FAILED",
  eq_iff event_type "CANCELLED",
)

module _ {F : Type 0} where
  -- the event has the type
  pub record HasType (d : Dict F) (s : String) : Type 0 where
    pub is : get d "event_type" ≡ string s

  pub HasType-put :
      (d : Dict F) (k : String) (v : Value F) {s : String}
      → (k == "event_type") ≡ false
      → HasType d s
      → HasType (put d k v) s
  HasType-put d k v n h = record { is = rw (get-put, n) h.is }

  pub HasType-ok : {d out : Dict F} {s : String} → ok d ≡ ok out → HasType d s → HasType out s
  HasType-ok {d} {out} {s} e h = subst (λ (x : Dict F). HasType x s) (ok-injective e) h

  -- a property of both outcomes of a choice
  either_event :
      (P : Dict F → Type 0) (b : Bool) (x y : Result (Dict F)) {out : Dict F}
      → (x ≡ ok out → P out)
      → (y ≡ ok out → P out)
      → (if b then x else y) ≡ ok out
      → P out
  either_event P true x y hx hy e = hx e
  either_event P false x y hx hy e = hy e

  HasType-present :
      (payload : Dict F) (k : String) (d : Dict F) {s : String}
      → (k == "event_type") ≡ false
      → HasType d s
      → HasType (present payload k d) s
  HasType-present payload k d n h = elim (Bool-cases (is_none (get payload k))) [
    | inl e ↦ rw e h
    | inr e ↦ rw e (HasType-put d k _ n h)
  ]

module _ {F : Type 0} (host : Host F) where
  HasType-base :
      (self : Reporter F) (now : Moment F) (event_type : String) (phase : Option String)
      → HasType (base host self now event_type phase) event_type
  unfolding get get_or find
  HasType-base self now event_type phase = record { is = refl }

  HasType-rows :
      (d payload : Dict F) (keys : List String) {s : String} {out : Dict F}
      → Others keys
      → HasType d s
      → rows host d payload keys ≡ ok out
      → HasType out s
  unfolding rows
  HasType-rows d payload [] o h e = HasType-ok e h
  HasType-rows d payload (k ∷ keys) o h e =
      from_ok (int_at host payload k) _ e
        λ n _ e'. HasType-rows (put d k n) payload keys o.1 (HasType-put d k n o.0 h) e'

  module _ (self : Reporter F) (now : Moment F) (payload : Dict F) (phase : Option String) where
    training_completed :
        {out : Dict F}
        → training_event host self now "COMPLETED" payload phase ≡ ok out
        → HasType out "COMPLETED"
    unfolding training_event
    training_completed e = HasType-ok e (
        HasType-present payload _ _ refl (
          HasType-present payload _ _ refl (
            HasType-put _ _ _ refl (
              HasType-put _ _ _ refl (
                HasType-put _ _ _ refl (HasType-put _ _ _ refl (HasType-base self now _ phase)))))))

    training_cancelled :
        {out : Dict F}
        → training_event host self now "CANCELLED" payload phase ≡ ok out
        → HasType out "CANCELLED"
    unfolding training_event
    training_cancelled e =
        HasType-ok e
          (HasType-put _ _ _ refl (HasType-put _ _ _ refl (HasType-base self now _ phase)))

    training_failed :
        {out : Dict F}
        → training_event host self now "FAILED" payload phase ≡ ok out
        → HasType out "FAILED"
    unfolding training_event
    training_failed e = HasType-ok e (
        HasType-put _ _ _ refl
          (HasType-put _ _ _ refl (HasType-put _ _ _ refl (HasType-base self now _ phase))))

    completed :
        {out : Dict F}
        → inference_completed host self now (base host self now "COMPLETED" phase) payload ≡ ok out
        → HasType out "COMPLETED"
    completed e = from_ok (rows host _ payload _) _ e λ d e1 e2. HasType-ok e2 (
        HasType-put _ _ _ refl (
          HasType-put _ _ _ refl (
            HasType-put _ _ _ refl (
              HasType-rows _ payload ("processed_rows" ∷ "result_rows" ∷ "total_rows" ∷ [])
                (refl, (refl, (refl, tt))) (HasType-put _ _ _ refl (HasType-base self now _ phase))
                e1))))

    cancelled :
        {out : Dict F}
        → inference_cancelled host self now (base host self now "CANCELLED" phase) payload ≡ ok out
        → HasType out "CANCELLED"
    cancelled e = from_ok (rows host _ payload _) _ e λ d e1 h1.
        from_ok (float_at host payload "percent") _ h1 λ percent _ h2. HasType-ok h2 (
          HasType-put _ _ _ refl (
            HasType-put _ _ _ refl (
              HasType-put _ _ _ refl (
                HasType-put _ _ _ refl (
                  HasType-rows _ payload ("processed_rows" ∷ "result_rows" ∷ "total_rows" ∷ [])
                    (refl, (refl, (refl, tt))) (HasType-base self now _ phase) e1)))))

    failed :
        {out : Dict F}
        → inference_failed host self now (base host self now "FAILED" phase) payload ≡ ok out
        → HasType out "FAILED"
    failed e = from_ok (rows host _ payload _) _ e λ d e1 h1. HasType-ok h1 (
        HasType-put _ _ _ refl (
          HasType-rows _ payload ("processed_rows" ∷ "result_rows" ∷ []) (refl, (refl, tt))
            (HasType-put _ _ _ refl (HasType-put _ _ _ refl (HasType-base self now _ phase))) e1))

    completed_event :
        {out : Dict F}
        → event_of host self now "COMPLETED" payload phase ≡ ok out
        → HasType out "COMPLETED"
    unfolding event_of inference_event
    completed_event e =
        either_event (λ x. HasType x "COMPLETED") self.training _ _ training_completed completed e

    cancelled_event :
        {out : Dict F}
        → event_of host self now "CANCELLED" payload phase ≡ ok out
        → HasType out "CANCELLED"
    unfolding event_of inference_event
    cancelled_event e =
        either_event (λ x. HasType x "CANCELLED") self.training _ _ training_cancelled cancelled e

    failed_event :
        {out : Dict F}
        → event_of host self now "FAILED" payload phase ≡ ok out
        → HasType out "FAILED"
    unfolding event_of inference_event
    failed_event e =
        either_event (λ x. HasType x "FAILED") self.training _ _ training_failed failed e

    -- A terminal call makes an event of its own type.
    pub event_of-HasType :
        (event_type : String) {out : Dict F}
        → elem event_type terminal_events ≡ true
        → event_of host self now event_type payload phase ≡ ok out
        → HasType out event_type
    event_of-HasType event_type h e = elim (terminal_cases event_type h) [
      | inl c ↦ rw c (completed_event (rw c at e))
      | inr (inl f) ↦ rw f (failed_event (rw f at e))
      | inr (inr x) ↦ rw x (cancelled_event (rw x at e))
    ]
