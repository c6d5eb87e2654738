-- ===== src/Reporter/State.antt =====
-- The reporter's attributes, what it takes from outside, and its methods as actions that may raise.
use tributo_knova.Prelude.{ℕ, String, Bool, List, Option}
use tributo_knova.Python.Number.{ℤ}
use tributo_knova.Python.Value.{Value, Items, Dict}
use tributo_knova.Python.Result.{Result, Exception, ok, err}

-- One stream entry: its fields in order. A stream is the list of its entries, the newest first.
abbrev pub Entry : Type 0
Entry = List (String × String)

abbrev pub Stream : Type 0
Stream = List Entry

-- `_redis` is used through the stream; `atomic` says that the client has `eval`.
pub record Reporter (F : Type 0) : Type 0 where
  pub training : Bool
  pub operation_id : String
  pub outer_identity_field : String
  pub max_event_bytes : ℕ
  pub max_stream_length : ℕ
  pub atomic : Bool
  -- there is a cancel key
  pub cancel_key : Bool
  pub received_at_ms : Option ℕ
  pub deadline_at_ms : Option ℕ
  pub terminal : Bool
  pub snapshot : Dict F
  pub current_phase : String

-- What a call observes: the time in whole milliseconds (rounded down, which decides `>=` with an
-- integer as the float does), when the reporter was built, whether the cancel key exists, and the
-- two rounded durations.
pub record Moment (F : Type 0) : Type 0 where
  pub now_ms : ℕ
  pub started_ms : ℕ
  pub cancelled : Bool
  pub since_received : ℕ → F
  pub since_start : F

-- Code that is not in the repository: the broker's `redact`, the JSON encoders and decoders, and
-- Python's conversions.
pub record Host (F : Type 0) : Type 0 where
  pub redact : Dict F → Dict F
  pub dumps : Dict F → Option String
  -- json.loads, and cjson.decode in the script: nothing for a text that they reject. That the nesting
  -- of an entry is too deep for them is not modelled.
  pub loads : String → Option (Value F)
  -- the bytes of the UTF-8 form
  pub size : String → ℕ
  pub str : Value F → String
  pub lower : String → String
  pub to_int : Value F → Option ℤ
  pub to_float : Value F → Option F
  pub to_list : Value F → Option (Items F)
  pub truthy : Value F → Bool
  -- a float literal
  pub percent : ℕ → F

pub record World (F : Type 0) : Type 0 where
  pub self : Reporter F
  pub stream : Stream

abbrev pub M : Type 0 → Type 0 → Type 0
M F A = World F → Result A × World F

module _ {F A : Type 0} where
  abbrev pub pure : A → M F A
  pure a w = (ok a, w)

  abbrev pub raise : Exception → M F A
  raise e w = (err e, w)

  abbrev pub lift : Result A → M F A
  lift r w = (r, w)

module _ {F A B : Type 0} where
  abbrev pub next : (A → M F B) → Result A × World F → Result B × World F
  next f (ok a, w) = f a w
  next f (err e, w) = (err e, w)

  infixl 5 ◌>>=◌ ◌>>◌
  abbrev pub ◌>>=◌ : M F A → (A → M F B) → M F B
  ◌>>=◌ m f w = next f (m w)

  abbrev pub ◌>>◌ : M F A → M F B → M F B
  m >> k = m >>= λ _. k
