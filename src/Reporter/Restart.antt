-- ===== src/Reporter/Restart.antt =====
-- A reporter that is built on a stream that holds its operation's terminal event.
use tributo_knova.Prelude.{
  false, Bool, ◌∙◌, ℕ, zero, suc, ◌<◌, String, true, [], ◌∷◌, some, ◌≡◌, refl, arith, inl, inr,
  Bool-cases, if_true,
}
use mathlib.Core.Path.{subst}
use tributo_knova.Python.Value.{Dict, object, get}
use tributo_knova.Reporter.State.{Entry, Stream, Reporter, Host}
use tributo_knova.Reporter.Script.Laws.{is_closing, NoneClosing, OnlyNewest, Closed}
use tributo_knova.Reporter.Script.{field_of, trim}
use tributo_knova.Reporter.Events.{identity_key}
use tributo_knova.Reporter.Methods.{is_terminal_event}
use tributo_knova.Reporter.Restore.{
  Restored, restored, text_is, restore_event, restore_entry, restore_snapshot, restore, init,
}
use tributo_knova.Reporter.Restore.Steps.{
  Holds, Holds-and_then, Holds-map, SameSetup, SameSetup-refl, SameSetup-trans, Marks, Keeps,
  Unmarked, restore_event-Marks, restore_entry-Keeps, restore_entry-Unmarked, Reads, IsRestored,
  IsRestored-and_then, restore_entry-IsRestored,
}

module _ {F : Type 0} (host : Host F) where
  restore_snapshot-Keeps :
      (s : Stream) (self : Reporter F) → Holds (Keeps self) (restore_snapshot host s self)
  unfolding restore_snapshot
  restore_snapshot-Keeps [] self = (SameSetup-refl self, λ t. t)
  restore_snapshot-Keeps (e ∷ s) self =
      Holds-and_then (Keeps self) (Keeps self) (restore_entry host self (field_of e "payload")) _
        (restore_entry-Keeps host self (field_of e "payload"))
        λ r (same, mark).
          Holds-map (Keeps r) (Keeps self) (restore_snapshot host s r)
            (λ q (again, kept). (SameSetup-trans q r self again same, λ t. kept (mark t)))
            (restore_snapshot-Keeps s r)

  -- the entry is a terminal event of the operation
  pub record IsOwnEnd (self : Reporter F) (e : Entry) : Type 0 where
    pub raw : String
    pub event : Dict F
    pub has_payload : field_of e "payload" ≡ some raw
    pub decodes : host.loads raw ≡ some (object event)
    pub own : text_is self.operation_id (get event (identity_key host self.training)) ≡ true
    pub ends : is_terminal_event event ≡ true

  abbrev pub IsTerminal : Reporter F → Type 0
  IsTerminal r = r.terminal ≡ true

  own_end-IsTerminal :
      (self : Reporter F) (e : Entry)
      → IsOwnEnd self e
      → Holds IsTerminal (restore_entry host self (field_of e "payload"))
  own_end-IsTerminal self e o =
      rw (o.has_payload, o.decodes)
        (if_true (Holds IsTerminal)
          (text_is self.operation_id (get o.event (identity_key host self.training))) _ _ o.own
          (Holds-map (Marks o.event self) IsTerminal (restore_event host self o.event)
            (λ r (_, mark). let k = o.ends in ground arith)
            (restore_event-Marks host self o.event)))

  restore_snapshot-own_end :
      (s : Stream) (self : Reporter F) (e : Entry)
      → IsOwnEnd self e
      → Holds IsTerminal (restore_snapshot host (e ∷ s) self)
  unfolding restore_snapshot
  restore_snapshot-own_end s self e o =
      Holds-and_then IsTerminal IsTerminal (restore_entry host self (field_of e "payload")) _
        (own_end-IsTerminal self e o)
        λ r t.
          Holds-map (Keeps r) IsTerminal (restore_snapshot host s r) (λ q (_, kept). kept t)
            (restore_snapshot-Keeps s r)

  -- the reporter can read each entry
  abbrev pub AllReads : Stream → Type 0
  AllReads [] = Unit
  AllReads (e ∷ s) = Reads host (field_of e "payload") × AllReads s

  trim-AllReads : (n : ℕ) (s : Stream) → AllReads s → AllReads (trim n s)
  trim-AllReads zero s h = tt
  trim-AllReads (suc n) [] h = tt
  trim-AllReads (suc n) (e ∷ s) h = (h.0, trim-AllReads n s h.1)

  restore_snapshot-IsRestored :
      (s : Stream) (self : Reporter F) → AllReads s → IsRestored host (restore_snapshot host s self)
  unfolding restore_snapshot
  restore_snapshot-IsRestored [] self h = (self, refl)
  restore_snapshot-IsRestored (e ∷ s) self h =
      IsRestored-and_then host (restore_entry host self (field_of e "payload")) _
        (restore_entry-IsRestored host self (field_of e "payload") h.0)
        λ r. restore_snapshot-IsRestored s r h.1

  restore_trim-own_end :
      (n : ℕ) (s : Stream) (self : Reporter F) (e : Entry)
      → 0 < n
      → IsOwnEnd self e
      → Holds IsTerminal (restore_snapshot host (trim n (e ∷ s)) self)
  restore_trim-own_end zero s self e room o = absurd (omega arith)
  restore_trim-own_end (suc n) s self e room o = restore_snapshot-own_end (trim n s) self e o

  -- A reporter is built, and is terminal from the start.
  abbrev pub IsBuiltTerminal : Restored F → Type 0
  IsBuiltTerminal made = (r : Reporter F) × (made ≡ restored r) × IsTerminal r

  built : (made : Restored F) → IsRestored host made → Holds IsTerminal made → IsBuiltTerminal made
  built made (r, e) h = (r, e, subst (Holds IsTerminal) e h)

  -- On a stream whose newest entry is a terminal event of its operation, with room for an entry, a
  -- reporter that reads the stream can be built, and it is terminal from the start, where every
  -- entry that decodes to an object has an event type that can be hashed and a phase that is a
  -- text or is not truthy.
  pub init-terminal :
      (s : Stream) (self : Reporter F) (e : Entry)
      → 0 < self.max_stream_length
      → IsOwnEnd self e
      → AllReads (e ∷ s)
      → IsBuiltTerminal (init host true (e ∷ s) self)
  unfolding init restore
  init-terminal s self e room o readable =
      built _
        (restore_snapshot-IsRestored (trim self.max_stream_length (e ∷ s)) _
          (trim-AllReads self.max_stream_length (e ∷ s) readable))
        (restore_trim-own_end self.max_stream_length s _ e room (record {
          raw = o.raw;
          event = o.event;
          has_payload = o.has_payload;
          decodes = o.decodes;
          own = o.own;
          ends = o.ends;
        }))

  -- the other way round: entries that are not terminal leave the mark as it is
  open_snapshot :
      (n : ℕ) (s : Stream) (self : Reporter F)
      → NoneClosing host s
      → Holds (Unmarked self) (restore_snapshot host (trim n s) self)
  unfolding restore_snapshot
  open_snapshot zero s self h = refl
  open_snapshot (suc n) [] self h = refl
  open_snapshot (suc n) (e ∷ s) self h =
      Holds-and_then (Unmarked self) (Unmarked self)
        (restore_entry host self (field_of e "payload")) _
        (restore_entry-Unmarked host self (field_of e "payload") h.0)
        λ r same.
          Holds-map (Unmarked r) (Unmarked self) (restore_snapshot host (trim n s) r)
            (λ q again. again ∙ same) (open_snapshot n s r h.1)

  -- a mark that is set is right
  abbrev pub Settled : Stream → Reporter F → Type 0
  Settled s r = r.terminal ≡ true → Closed host s

  marked-Closed :
      (n : ℕ) (s : Stream) (self : Reporter F)
      → self.terminal ≡ false
      → OnlyNewest host s
      → Holds (Settled s) (restore_snapshot host (trim n s) self)
  marked-Closed n [] self f h =
      Holds-map (Unmarked self) (Settled []) (restore_snapshot host (trim n []) self)
        (λ r same t. absurd (cc)) (open_snapshot n [] self tt)
  marked-Closed n (x ∷ s) self f h = elim (Bool-cases (is_closing host x)) [
    | inl closing ↦
        Holds-map (Keeps self) (Settled (x ∷ s)) (restore_snapshot host (trim n (x ∷ s)) self)
          (λ r _ t. closing) (restore_snapshot-Keeps (trim n (x ∷ s)) self)
    | inr still_open ↦
        Holds-map (Unmarked self) (Settled (x ∷ s)) (restore_snapshot host (trim n (x ∷ s)) self)
          (λ r same t. absurd (cc)) (open_snapshot n (x ∷ s) self (still_open, h))
  ]

  -- A new reporter is marked terminal only if the stream is closed, where only the newest entry may be
  -- terminal.
  pub init-Settled :
      (reader : Bool) (s : Stream) (self : Reporter F)
      → OnlyNewest host s
      → Holds (Settled s) (init host reader s self)
  unfolding init restore
  init-Settled true s self h = marked-Closed self.max_stream_length s _ refl h
  init-Settled false s self h = λ t. cc

  restore_snapshot-SameSetup :
      (s : Stream) (fresh self : Reporter F)
      → SameSetup fresh self
      → Holds (λ r. SameSetup r self) (restore_snapshot host s fresh)
  restore_snapshot-SameSetup s fresh self h =
      Holds-map (Keeps fresh) (λ r. SameSetup r self) (restore_snapshot host s fresh)
        (λ r (same, _). SameSetup-trans r fresh self same h) (restore_snapshot-Keeps s fresh)

  -- what the constructor's arguments set stays as they set it
  pub init-SameSetup :
      (reader : Bool) (s : Stream) (self : Reporter F)
      → Holds (λ r. SameSetup r self) (init host reader s self)
  unfolding init restore
  init-SameSetup true s self =
      restore_snapshot-SameSetup (trim self.max_stream_length s) _ self
        (refl, refl, refl, refl, refl)
  init-SameSetup false s self = (refl, refl, refl, refl, refl)
