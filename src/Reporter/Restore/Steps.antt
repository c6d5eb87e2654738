-- ===== src/Reporter/Restore/Steps.antt =====
-- What one entry changes in a reporter that reads the stream.
use tributo_knova.Prelude.{
  ◌&&◌, if_either, false, true, ◌∙◌, ◌||◌, String, Option, none, some, ◌≡◌, refl, arith,
}
use tributo_knova.Python.Value.{Value, Dict, string, object, get, is_empty}
use tributo_knova.Reporter.State.{Reporter, Host}
use tributo_knova.Reporter.Script.Laws.{is_final}
use tributo_knova.Reporter.Script.{verdict, judged}
use tributo_knova.Reporter.Events.{identity_key}
use tributo_knova.Reporter.Methods.{is_terminal_event}
use tributo_knova.Reporter.Restore.{
  Restored, restored, unhashable, foreign, text_is, is_unhashable, and_then, phased, restore_phase,
  restore_event, restore_value, restore_entry,
}

module _ {F : Type 0} where
  -- the reporter, if there is one, satisfies `P`
  abbrev pub Holds : (Reporter F → Type 0) → Restored F → Type 0
  Holds P (restored r) = P r
  Holds P _ = Unit

  pub Holds-and_then :
      (P Q : Reporter F → Type 0) (first : Restored F) (rest : Reporter F → Restored F)
      → Holds P first
      → ((r : Reporter F) → P r → Holds Q (rest r))
      → Holds Q (and_then first rest)
  Holds-and_then P Q (restored r) rest p k = k r p
  Holds-and_then P Q unhashable rest p k = tt
  Holds-and_then P Q foreign rest p k = tt

  pub Holds-map :
      (P Q : Reporter F → Type 0) (r : Restored F)
      → ((s : Reporter F) → P s → Q s)
      → Holds P r
      → Holds Q r
  Holds-map P Q (restored r) k p = k r p
  Holds-map P Q unhashable k p = tt
  Holds-map P Q foreign k p = tt

  -- what the constructor's arguments set stays
  abbrev pub SameSetup : Reporter F → Reporter F → Type 0
  SameSetup a b =
      (a.atomic ≡ b.atomic)
      × (a.outer_identity_field ≡ b.outer_identity_field)
      × (a.max_stream_length ≡ b.max_stream_length)
      × (a.operation_id ≡ b.operation_id)
      × (a.training ≡ b.training)

  pub SameSetup-refl : (a : Reporter F) → SameSetup a a
  SameSetup-refl a = (refl, refl, refl, refl, refl)

  pub SameSetup-trans : (a b c : Reporter F) → SameSetup a b → SameSetup b c → SameSetup a c
  SameSetup-trans a b c (p, q, r, s, t) (u, v, w, x, y) = (p ∙ u, q ∙ v, r ∙ w, s ∙ x, t ∙ y)

  phased-SameSetup :
      (self : Reporter F) (v : Value F) → Holds (λ r. SameSetup r self) (phased self v)
  phased-SameSetup self (string s) = (refl, refl, refl, refl, refl)
  phased-SameSetup self v = tt

  -- an event of the operation, read: the setup stays, and the mark is set by a terminal event only
  abbrev pub Marks : Dict F → Reporter F → Reporter F → Type 0
  Marks event self r = SameSetup r self × (r.terminal ≡ (self.terminal || is_terminal_event event))

  -- the setup stays, and so does a mark
  abbrev pub Keeps : Reporter F → Reporter F → Type 0
  Keeps self r = SameSetup r self × (self.terminal ≡ true → r.terminal ≡ true)

  abbrev pub Unmarked : Reporter F → Reporter F → Type 0
  Unmarked self r = r.terminal ≡ self.terminal

module _ {F : Type 0} (host : Host F) where
  restore_phase-SameSetup :
      (self : Reporter F) (event : Dict F)
      → Holds (λ r. SameSetup r self) (restore_phase host self event)
  restore_phase-SameSetup self event =
      if_either (Holds (λ r. SameSetup r self))
        (is_empty self.snapshot && host.truthy (get event "phase")) _ (restored self)
        (λ _. phased-SameSetup self (get event "phase")) (λ _. SameSetup-refl self)

  pub restore_event-Marks :
      (self : Reporter F) (event : Dict F)
      → Holds (Marks event self) (restore_event host self event)
  restore_event-Marks self event =
      if_either (Holds (Marks event self)) (is_unhashable (get event "event_type")) _ _ (λ _. tt)
        (λ _.
          Holds-and_then (λ r. SameSetup r self) (Marks event self) (restore_phase host self event)
            _ (restore_phase-SameSetup self event) λ r same. (same, refl))

  pub restore_value-Keeps :
      (self : Reporter F) (o : Option (Value F)) → Holds (Keeps self) (restore_value host self o)
  restore_value-Keeps self (some (object event)) =
      if_either (Holds (Keeps self))
        (text_is self.operation_id (get event (identity_key host self.training))) _ _
        (λ _.
          Holds-map (Marks event self) (Keeps self) (restore_event host self event)
            (λ r (same, mark). (same, λ t. ground arith)) (restore_event-Marks self event))
        (λ _. (SameSetup-refl self, λ t. t))
  restore_value-Keeps self o = (SameSetup-refl self, λ t. t)

  pub restore_entry-Keeps :
      (self : Reporter F) (o : Option String) → Holds (Keeps self) (restore_entry host self o)
  restore_entry-Keeps self none = (SameSetup-refl self, λ t. t)
  restore_entry-Keeps self (some raw) = restore_value-Keeps self (host.loads raw)

  -- an entry that is not terminal leaves the mark as it is
  restore_value-Unmarked :
      (self : Reporter F) (o : Option (Value F))
      → is_final (some (verdict o)) ≡ false
      → Holds (Unmarked self) (restore_value host self o)
  restore_value-Unmarked self (some (object event)) h =
      if_either (Holds (Unmarked self))
        (text_is self.operation_id (get event (identity_key host self.training))) _ _
        (λ _.
          Holds-map (Marks event self) (Unmarked self) (restore_event host self event)
            (λ r (_, mark). let k : is_terminal_event event ≡ false = ground arith in ground arith)
            (restore_event-Marks self event))
        (λ _. refl)
  restore_value-Unmarked self o h = refl

  pub restore_entry-Unmarked :
      (self : Reporter F) (o : Option String)
      → is_final (judged host o) ≡ false
      → Holds (Unmarked self) (restore_entry host self o)
  restore_entry-Unmarked self none h = refl
  restore_entry-Unmarked self (some raw) h = restore_value-Unmarked self (host.loads raw) h

  -- What an event is that a reporter of this operation can read: its type can be hashed, and its phase
  -- is a text or is passed over.
  pub record IsReadable (event : Dict F) : Type 0 where
    pub hashable : is_unhashable (get event "event_type") ≡ false
    pub phase_text :
        host.truthy (get event "phase") ≡ true → (s : String) × (get event "phase" ≡ string s)

  -- All that the entry's payload decodes to is readable.
  abbrev pub AllReadable : Option (Value F) → Type 0
  AllReadable (some (object event)) = IsReadable event
  AllReadable _ = Unit

  abbrev pub Reads : Option String → Type 0
  Reads none = Unit
  Reads (some raw) = AllReadable (host.loads raw)

  abbrev pub IsRestored : Restored F → Type 0
  IsRestored r = (self : Reporter F) × (r ≡ restored self)

  pub IsRestored-and_then :
      (first : Restored F) (rest : Reporter F → Restored F)
      → IsRestored first
      → ((r : Reporter F) → IsRestored (rest r))
      → IsRestored (and_then first rest)
  IsRestored-and_then first rest (r, e) k = rw e (k r)

  restore_phase-IsRestored :
      (self : Reporter F) (event : Dict F)
      → IsReadable event
      → IsRestored (restore_phase host self event)
  restore_phase-IsRestored self event h =
      if_either IsRestored (is_empty self.snapshot && host.truthy (get event "phase")) _ _
        (λ t. let (s, e) = h.phase_text (ground arith) in rw e (_, refl)) (λ _. (_, refl))

  restore_event-IsRestored :
      (self : Reporter F) (event : Dict F)
      → IsReadable event
      → IsRestored (restore_event host self event)
  restore_event-IsRestored self event h = rw h.hashable (
      IsRestored-and_then (restore_phase host self event) _ (restore_phase-IsRestored self event h)
        λ r. (_, refl))

  restore_value-IsRestored :
      (self : Reporter F) (o : Option (Value F))
      → AllReadable o
      → IsRestored (restore_value host self o)
  restore_value-IsRestored self (some (object event)) h =
      if_either IsRestored _ _ _ (λ _. restore_event-IsRestored self event h) (λ _. (_, refl))
  restore_value-IsRestored self o h = (_, refl)

  pub restore_entry-IsRestored :
      (self : Reporter F) (o : Option String) → Reads o → IsRestored (restore_entry host self o)
  restore_entry-IsRestored self none h = (_, refl)
  restore_entry-IsRestored self (some raw) h = restore_value-IsRestored self (host.loads raw) h
