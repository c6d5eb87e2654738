-- ===== src/Reporter/Script/Laws.antt =====
-- A stream that is written by the script alone has at most one terminal event, its newest.
use tributo_knova.Prelude.{
  ℕ, zero, suc, String, Bool, true, false, [], ◌∷◌, Option, some, ◌≡◌, refl, arith,
}
use tributo_knova.Reporter.State.{Entry, Stream, Host}
use tributo_knova.Reporter.Script.{
  Reply, added, stale, refused, failed, field_of, Verdict, terminal, judged, latest, trim, decide,
  append, atomic_xadd,
}

abbrev pub is_final : Option Verdict → Bool
is_final (some terminal) = true
is_final _ = false

module _ {F : Type 0} (host : Host F) where
  -- the payload of the entry decodes to a terminal event
  abbrev pub is_closing : Entry → Bool
  is_closing e = is_final (judged host (field_of e "payload"))

  abbrev pub NoneClosing : Stream → Type 0
  NoneClosing [] = Unit
  NoneClosing (e ∷ s) = (is_closing e ≡ false) × NoneClosing s

  -- Only the newest entry may be terminal.
  abbrev pub OnlyNewest : Stream → Type 0
  OnlyNewest [] = Unit
  OnlyNewest (e ∷ s) = NoneClosing s

  -- the newest entry is terminal
  abbrev pub Closed : Stream → Type 0
  Closed [] = ⊥
  Closed (e ∷ s) = is_closing e ≡ true

  trim-NoneClosing : (n : ℕ) (s : Stream) → NoneClosing s → NoneClosing (trim n s)
  trim-NoneClosing zero s h = tt
  trim-NoneClosing (suc n) [] h = tt
  trim-NoneClosing (suc n) (e ∷ s) h = (h.0, trim-NoneClosing n s h.1)

  trim-OnlyNewest : (n : ℕ) (e : Entry) (s : Stream) → NoneClosing s → OnlyNewest (trim n (e ∷ s))
  trim-OnlyNewest zero e s h = tt
  trim-OnlyNewest (suc n) e s h = trim-NoneClosing n s h

  -- An entry is added only behind one that is not terminal.
  NoneClosing-of_added :
      (s : Stream) (event_type : String)
      → OnlyNewest s
      → decide (latest host s) event_type ≡ added
      → NoneClosing s
  unfolding latest
  NoneClosing-of_added [] event_type h d = tt
  NoneClosing-of_added (e ∷ s) event_type h d = (ground arith, h)

  pub atomic_xadd-OnlyNewest :
      (s : Stream) (e : Entry) (n : ℕ) (event_type : String)
      → OnlyNewest s
      → OnlyNewest (atomic_xadd host s e n event_type).1
  unfolding atomic_xadd
  atomic_xadd-OnlyNewest s e n event_type h = go (decide (latest host s) event_type) refl
    where
      go : (r : Reply) → decide (latest host s) event_type ≡ r → OnlyNewest (append r n e s)
      go added d = trim-OnlyNewest n e s (NoneClosing-of_added s event_type h d)
      go stale d = h
      go refused d = h
      go failed d = h

  -- A stream that is closed stays as it is.
  pub atomic_xadd-Closed :
      (s : Stream) (e : Entry) (n : ℕ) (event_type : String)
      → Closed s
      → atomic_xadd host s e n event_type ≡ (refused, s)
  unfolding atomic_xadd latest
  atomic_xadd-Closed [] e n event_type h = absurd h
  atomic_xadd-Closed (x ∷ s) e n event_type h = ground arith
