-- ===== src/Reporter/Restore.antt =====
-- src/tributo_knova/reporter.py: `_restore_snapshot` and the end of `__init__`, which reads the stream.
pub mod Steps
use tributo_knova.Prelude.{
  String, Bool, true, false, ◌&&◌, ◌||◌, [], ◌∷◌, Option, none, some, ◌==◌, if◌then◌else◌,
}
use tributo_knova.Python.Value.{Value, Dict, string, array, object, end, get, is_empty}
use tributo_knova.Reporter.State.{Stream, Reporter, Host}
use tributo_knova.Reporter.Script.{field_of, trim}
use tributo_knova.Reporter.Events.{identity_key}
use tributo_knova.Reporter.Methods.{snapshot_keys, keep_missing, is_terminal_event}

-- What reading comes to: the reporter; TypeError, for an event type that cannot be hashed; or a phase
-- that is not a text, which the code would keep as the current phase and which ends the model, where
-- a phase is a text. No reporter writes an event of the last two kinds.
pub data Restored (F : Type 0) : Type 0 where
  restored : Reporter F → Restored F
  unhashable foreign : Restored F

module _ {F : Type 0} where
  abbrev pub text_is : String → Value F → Bool
  text_is expected (string s) = s == expected
  text_is expected _ = false

  abbrev pub is_unhashable : Value F → Bool
  is_unhashable (array vs) = true
  is_unhashable (object d) = true
  is_unhashable _ = false

  abbrev pub and_then : Restored F → (Reporter F → Restored F) → Restored F
  and_then (restored self) rest = rest self
  and_then unhashable rest = unhashable
  and_then foreign rest = foreign

  -- `self._current_phase = event["phase"]`
  abbrev pub phased : Reporter F → Value F → Restored F
  phased self (string phase) = restored (record self { current_phase = phase })
  phased self _ = foreign

module _ {F : Type 0} (host : Host F) where
  abbrev pub restore_phase : Reporter F → Dict F → Restored F
  restore_phase self event =
      if is_empty self.snapshot && host.truthy (get event "phase")
      then phased self (get event "phase")
      else restored self

  -- One entry of the stream, in `_restore_snapshot`. The test of its type comes last there, and where it
  -- raises, what went before is lost.
  abbrev pub restore_event : Reporter F → Dict F → Restored F
  restore_event self event =
      if is_unhashable (get event "event_type")
      then unhashable
      else and_then (restore_phase self event) (λ next. restored (record next {
        snapshot = keep_missing snapshot_keys event self.snapshot;
        terminal = self.terminal || is_terminal_event event;
      }))

  -- Entries that do not decode to an object, or belong to another operation, are passed over.
  abbrev pub restore_value : Reporter F → Option (Value F) → Restored F
  restore_value self (some (object event)) =
      if text_is self.operation_id (get event (identity_key host self.training))
      then restore_event self event
      else restored self
  restore_value self _ = restored self

  -- An entry without a payload is passed over too.
  abbrev pub restore_entry : Reporter F → Option String → Restored F
  restore_entry self none = restored self
  restore_entry self (some raw) = restore_value self (host.loads raw)

  unfoldable pub restore_snapshot : Stream → Reporter F → Restored F
  unfolding field_of
  restore_snapshot [] self = restored self
  restore_snapshot (e ∷ rest) self =
      and_then (restore_entry self (field_of e "payload")) (restore_snapshot rest)

  -- the newest entries that the reader returns
  unfoldable pub restore : Stream → Reporter F → Restored F
  unfolding restore_snapshot
  restore stream self = restore_snapshot (trim self.max_stream_length stream) self

  -- the last lines of `__init__`; `reader` says that the client has `xrevrange`
  unfoldable pub init : Bool → Stream → Reporter F → Restored F
  unfolding restore
  init reader stream self =
      let fresh = record self {
        terminal = false;
        snapshot = end;
        current_phase = if self.training then "QUEUED" else "INIT";
      } in
      if reader then restore stream fresh else restored fresh
