-- ===== src/Reporter/Closing.antt =====
-- What a reporter may rely on once a call of `publish` for a terminal event has returned.
use tributo_knova.Prelude.{
  if_true, if_either, ℕ, zero, suc, ◌<◌, String, Bool, true, false, not, ◌&&◌, ◌||◌, [], ◌∷◌,
  Option, none, some, ◌≡◌, ◌≢◌, refl, sym, ap, ◌∙◌, ◌==◌, elem, arith, inl, inr, if◌then◌else◌,
}
use mathlib.Core.Path.{subst}
use tributo_knova.Python.Value.{Dict, object, string, get, is_empty}
use tributo_knova.Python.Result.{Result, ok, err, from_ok}
use tributo_knova.Reporter.State.{Entry, Stream, Reporter, Moment, Host, World, M, pure, next}
use tributo_knova.Reporter.Codes.{terminal_events}
use tributo_knova.Reporter.Script.{
  Reply, added, stale, refused, failed, field_of, Verdict, terminal, open_ended, unindexable,
  decide, latest, append, atomic_xadd,
}
use tributo_knova.Reporter.Script.Laws.{is_closing, Closed}
use tributo_knova.Reporter.Events.{event_of}
use tributo_knova.Reporter.Events.Typed.{
  HasType, HasType-put, HasType-ok, terminal_cases, event_of-HasType,
}
use tributo_knova.Reporter.Methods.{
  set_phase, check_control, set_error_code, settle, entry, write_atomic, write, encode, prepare,
  deliver, publish,
}
use tributo_knova.Reporter.Once.{set_phase-atomic, settle-stream}

module _ {F A B : Type 0} where
  -- the rest of an action that returned
  pub next_ok :
      (C : World F → Type 0) (f : A → M F B) (r : Result A × World F) {b : B}
      → (next f r).0 ≡ ok b
      → ((a : A) (w : World F) → r ≡ (ok a, w) → (f a w).0 ≡ ok b → C (f a w).1)
      → C (next f r).1
  next_ok C f (ok a, w) h k = k a w refl h
  next_ok C f (err e, w) h k = cc

-- Decoding what was encoded gives an object with the same texts at the same keys.
pub record IsLossless {F : Type 0} (host : Host F) : Type 0 where
  pub round :
      (d : Dict F) (t : String)
      → host.dumps d ≡ some t
      → (d' : Dict F) × (host.loads t ≡ some (object d'))
        × ((k s : String) → get d k ≡ string s → get d' k ≡ string s)

settle-failed :
    {F : Type 0} (event : Dict F) (reply : Reply) (w : World F) {out : Dict F}
    → (settle event reply w).0 ≡ ok out
    → reply ≢ failed
settle-failed event added w o = λ e. cc
settle-failed event stale w o = λ e. cc
settle-failed event refused w o = λ e. cc
settle-failed event failed w o = cc

not_accepted :
    (event_type : String)
    → elem event_type terminal_events ≡ true
    → (event_type == "ACCEPTED") ≡ false
not_accepted event_type t = elim (terminal_cases event_type t) [
  | inl c ↦ rw c refl
  | inr (inl f) ↦ rw f refl
  | inr (inr x) ↦ rw x refl
]

marked : (a b c : Bool) → b ≡ false → (a || (b && c)) ≡ true → a ≡ true
marked a b c f e = ground arith

module _ {F : Type 0} (host : Host F) where
  atomic_xadd-closes :
      (s : Stream) (e : Entry) (n : ℕ) (event_type : String)
      → 0 < n
      → (event_type == "ACCEPTED") ≡ false
      → is_closing host e ≡ true
      → (atomic_xadd host s e n event_type).0 ≢ failed
      → Closed host (atomic_xadd host s e n event_type).1
  unfolding atomic_xadd latest
  atomic_xadd-closes s e zero event_type p a c f = absurd (omega arith)
  atomic_xadd-closes [] e (suc n) event_type p a c f = c
  atomic_xadd-closes (x ∷ s) e (suc n) event_type p a c f = go (latest host (x ∷ s)) refl
    where
      go :
          (o : Option Verdict)
          → latest host (x ∷ s) ≡ o
          → Closed host (append (decide o event_type) (suc n) e (x ∷ s))
      go none h = c
      go (some terminal) h = ground arith
      go (some open_ended) h = rw a c
      go (some unindexable) h = absurd (f (ap (λ (v : Option Verdict). decide v event_type) h))

  -- A reporter that writes by the script to a stream with room for an entry, under a field of its
  -- own, and that is marked terminal only if the stream is closed.
  pub record IsReady (w : World F) : Type 0 where
    pub atomic : w.self.atomic ≡ true
    pub own_field : (w.self.outer_identity_field == "payload") ≡ false
    pub room : 0 < w.self.max_stream_length
    pub settled : w.self.terminal ≡ true → Closed host w.stream

  set_phase-facts :
      (self : Reporter F) (phase : Option String)
      → ((set_phase self phase).outer_identity_field ≡ self.outer_identity_field)
        × ((set_phase self phase).max_stream_length ≡ self.max_stream_length)
        × ((set_phase self phase).terminal ≡ self.terminal)
  set_phase-facts self none = (refl, refl, refl)
  set_phase-facts self (some phase) = (ground arith, ground arith, ground arith)

  pub check_control-IsReady :
      (now : Moment F) (phase : Option String) (w : World F)
      → IsReady w
      → IsReady (check_control now phase w).1
  unfolding check_control
  check_control-IsReady now phase w r =
      let (outer, length, term) = set_phase-facts w.self phase in
      record {
        atomic = set_phase-atomic host w.self phase ∙ r.atomic;
        own_field = rw outer r.own_field;
        room = rw length r.room;
        settled = λ t. r.settled (sym term ∙ t);
      }

  module _ (lossless : IsLossless host) where
    pub payload-entry :
        (self : Reporter F) (encoded : String)
        → (self.outer_identity_field == "payload") ≡ false
        → field_of (entry host self encoded) "payload" ≡ some encoded
    unfolding field_of
    payload-entry self encoded own = rw own refl

    entry-is_closing :
        (self : Reporter F) (event : Dict F) (event_type encoded : String)
        → (self.outer_identity_field == "payload") ≡ false
        → elem event_type terminal_events ≡ true
        → HasType event event_type
        → host.dumps event ≡ some encoded
        → is_closing host (entry host self encoded) ≡ true
    entry-is_closing self event event_type encoded own t h d =
        let (d', loaded, same) = lossless.round event encoded d in
        rw (payload-entry self encoded own, loaded, same "event_type" event_type h.is, t) refl

    write_atomic-closes :
        (event_type : String) (event : Dict F) (encoded : String) (w : World F) {out : Dict F}
        → IsReady w
        → elem event_type terminal_events ≡ true
        → HasType event event_type
        → host.dumps event ≡ some encoded
        → (write_atomic host event_type event encoded w).0 ≡ ok out
        → Closed host (write_atomic host event_type event encoded w).1.stream
    unfolding write_atomic
    write_atomic-closes event_type event encoded w {out} r t h d o = rw settle-stream (
        atomic_xadd-closes w.stream (entry host w.self encoded) w.self.max_stream_length event_type
          r.room (not_accepted event_type t)
          (entry-is_closing w.self event event_type encoded r.own_field t h d)
          (settle-failed event _ _ o))

    write-closes :
        (event_type : String) (event : Dict F) (encoded : String) (w : World F) {out : Dict F}
        → IsReady w
        → elem event_type terminal_events ≡ true
        → HasType event event_type
        → host.dumps event ≡ some encoded
        → (write host event_type event encoded w).0 ≡ ok out
        → Closed host (write host event_type event encoded w).1.stream
    unfolding write
    write-closes event_type event encoded w {out} r t h d =
        if_true (λ (p : Result (Dict F) × World F). p.0 ≡ ok out → Closed host p.1.stream)
          w.self.atomic _ _ r.atomic (write_atomic-closes event_type event encoded w r t h d)

    pub encode-eq-ok :
        (self : Reporter F) (event : Dict F) {encoded : String}
        → encode host self event ≡ ok encoded
        → host.dumps event ≡ some encoded
    encode-eq-ok self event e = ground arith

    set_error_code-HasType :
        (training : Bool) (event_type : String) (event : Dict F)
        → HasType event event_type
        → HasType (set_error_code training event_type event) event_type
    set_error_code-HasType training event_type event h =
        if_either (λ (d : Dict F). HasType d event_type) (event_type == "FAILED") _ _
          (λ _. HasType-put event "error_code" _ refl h) (λ _. h)

    prepare-HasType :
        (self : Reporter F) (now : Moment F) (event_type : String) (payload : Dict F)
        (phase : Option String) {event : Dict F}
        → elem event_type terminal_events ≡ true
        → prepare host self now event_type payload phase ≡ ok event
        → HasType event event_type
    unfolding prepare
    prepare-HasType self now event_type payload phase t e =
        from_ok (event_of host self now event_type _ _) _ e λ made e1 e2. HasType-ok e2 (
          set_error_code-HasType self.training event_type made
            (event_of-HasType host self now _ _ event_type t e1))

    deliver-closes :
        (event_type : String) (event : Dict F) (encoded : String) (w : World F) {out : Dict F}
        → IsReady w
        → elem event_type terminal_events ≡ true
        → HasType event event_type
        → host.dumps event ≡ some encoded
        → (deliver host event_type event encoded w).0 ≡ ok out
        → Closed host (deliver host event_type event encoded w).1.stream
    deliver-closes event_type event encoded w {out} r t h d =
        if_either (λ (p : Result (Dict F) × World F). p.0 ≡ ok out → Closed host p.1.stream)
          (w.self.terminal || (event_type == "ACCEPTED" && not (is_empty w.self.snapshot))) _ _
          (λ e _. r.settled (marked w.self.terminal _ _ (not_accepted event_type t) e))
          (λ _. write-closes event_type event encoded w r t h d)

    -- Once a reporter's `publish` of a terminal event has returned, without an exception, the newest entry
    -- of the stream is terminal: the event itself or one that was there before it. The reporter writes
    -- by the script, to a stream with room for an entry, and its own `terminal` mark is right; and
    -- decoding what was encoded gives an object with the same texts.
    pub publish-Closed :
        (now : Moment F) (event_type : String) (payload : Dict F) (phase : Option String)
        (w : World F) {out : Dict F}
        → elem event_type terminal_events ≡ true
        → IsReady w
        → (publish host now event_type payload phase w).0 ≡ ok out
        → Closed host (publish host now event_type payload phase w).1.stream
    unfolding publish
    publish-Closed now event_type payload phase w {out} t r o =
        next_ok (λ v. Closed host v.stream) _
          ((if event_type == "COMPLETED" then check_control now none else pure tt) w) o
          λ _ v e1 o1.
            let ready =
              subst IsReady (ap (λ (p : Result (Unit {0}) × World F). p.1) e1)
                (checked (event_type == "COMPLETED")) in
            next_ok (λ v. Closed host v.stream) _
              (prepare host v.self now event_type payload phase, v) o1
              λ event v2 e2 o2.
                next_ok (λ v. Closed host v.stream) _ (encode host v2.self event, v2) o2
                  λ encoded v3 e3 o3.
                    deliver-closes event_type event encoded v3
                      (subst IsReady (ap (λ (p : Result String × World F). p.1) e3)
                        (subst IsReady (ap (λ (p : Result (Dict F) × World F). p.1) e2) ready))
                      t
                      (prepare-HasType v.self now event_type payload phase t
                        (ap (λ (p : Result (Dict F) × World F). p.0) e2))
                      (encode-eq-ok v2.self event (ap (λ (p : Result String × World F). p.0) e3)) o3
      where
        checked : (b : Bool) → IsReady ((if b then check_control now none else pure tt) w).1
        checked true = check_control-IsReady now none w r
        checked false = r
