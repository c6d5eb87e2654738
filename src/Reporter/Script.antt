-- ===== src/Reporter/Script.antt =====
-- src/tributo_knova/reporter.py: `_ATOMIC_EVENT_XADD_LUA`, which Redis runs as one step.
pub mod Laws
use tributo_knova.Prelude.{
  ℕ, zero, suc, String, Bool, true, false, List, [], ◌∷◌, Option, none, some, ◌==◌, elem,
  if◌then◌else◌,
}
use tributo_knova.Python.Value.{
  Value, Dict, null, boolean, integer, float, string, array, object, get,
}
use tributo_knova.Reporter.State.{Entry, Stream, Host}
use tributo_knova.Reporter.Codes.{terminal_events}

-- What the script returns: the new entry's id, -1 or false; or it fails.
pub data Reply : Type 0 where
  added stale refused failed : Reply

-- the first field of the entry under the name
unfoldable pub field_of : Entry → String → Option String
field_of [] name = none
field_of ((key, value) ∷ rest) name = if key == name then some value else field_of rest name

abbrev pub is_terminal_text : {F : Type 0} → Value F → Bool
is_terminal_text (string s) = elem s terminal_events
is_terminal_text _ = false

-- what the test on the decoded envelope finds: whether it is terminal, or that it fails, since a
-- number, a boolean or null has no index in Lua
pub data Verdict : Type 0 where
  terminal open_ended unindexable : Verdict

-- the newest entries, at most so many
abbrev pub trim : ℕ → Stream → Stream
trim zero s = []
trim (suc n) [] = []
trim (suc n) (e ∷ s) = e ∷ trim n s

abbrev pub decide : Option Verdict → String → Reply
decide none event_type = added
decide (some terminal) event_type = refused
decide (some unindexable) event_type = failed
decide (some open_ended) event_type = if event_type == "ACCEPTED" then stale else added

abbrev pub append : Reply → ℕ → Entry → Stream → Stream
append added length entry s = trim length (entry ∷ s)
append _ length entry s = s

module _ {F : Type 0} where
  abbrev pub verdict : Option (Value F) → Verdict
  verdict none = open_ended
  verdict (some (object d)) = if is_terminal_text (get d "event_type") then terminal else open_ended
  verdict (some (array vs)) = open_ended
  verdict (some (string s)) = open_ended
  verdict (some v) = unindexable

  abbrev pub judged : Host F → Option String → Option Verdict
  judged host none = none
  judged host (some raw) = some (verdict (host.loads raw))

  -- the payload of the newest entry, if there is one
  unfoldable pub latest : Host F → Stream → Option Verdict
  latest host [] = none
  latest host (entry ∷ rest) = judged host (field_of entry "payload")

  -- the whole script: the reply, and the stream after it
  unfoldable pub atomic_xadd : Host F → Stream → Entry → ℕ → String → Reply × Stream
  unfolding latest
  atomic_xadd host s entry length event_type =
      let reply = decide (latest host s) event_type in (reply, append reply length entry s)
