-- ===== src/Python/Value.antt =====
-- The values that `json.loads` returns. A dict is the list of its items in order, its keys
-- distinct; `F` is the type of floats (Python/Number).
pub mod Laws
use tributo_knova.Prelude.{
  String, Bool, true, false, not, List, [], ◌∷◌, ◌++◌, Option, none, some, ◌==◌, if◌then◌else◌,
}
use tributo_knova.Python.Number.{ℤ, int_truthy, Floats}

mutual
  pub data Value (F : Type 0) : Type 0 where
    null : Value F
    boolean : Bool → Value F
    integer : ℤ → Value F
    float : F → Value F
    string : String → Value F
    array : Items F → Value F
    object : Dict F → Value F

  pub data Items (F : Type 0) : Type 0 where
    nil : Items F
    cons : Value F → Items F → Items F

  pub data Dict (F : Type 0) : Type 0 where
    end : Dict F
    field : String → Value F → Dict F → Dict F

module _ {F : Type 0} where
  abbrev pub elements : Items F → List (Value F)
  elements nil = []
  elements (cons v vs) = v ∷ elements vs

  abbrev pub items : Dict F → List (String × Value F)
  items end = []
  items (field k v d) = (k, v) ∷ items d

  abbrev pub values : Dict F → List (Value F)
  values end = []
  values (field k v d) = v ∷ values d

  abbrev pub keys : Dict F → List String
  keys end = []
  keys (field k v d) = k ∷ keys d

  unfoldable pub find : Dict F → String → Option (Value F)
  find end k = none
  find (field j v d) k = if j == k then some v else find d k

  unfoldable pub get_or : Dict F → String → Value F → Value F
  unfolding find
  get_or d k v = elim (find d k) [ none ↦ v | some w ↦ w ]

  -- d.get(k)
  unfoldable pub get : Dict F → String → Value F
  unfolding get_or
  get d k = get_or d k null

  -- the text that a value is, if it is one
  abbrev pub text_of : Value F → List String
  text_of (string s) = s ∷ []
  text_of _ = []

  -- k in d
  unfoldable pub has_key : Dict F → String → Bool
  unfolding find
  has_key d k = elim (find d k) [ none ↦ false | some w ↦ true ]

  -- v is None
  abbrev pub is_none : Value F → Bool
  is_none null = true
  is_none _ = false

  abbrev pub is_empty : Dict F → Bool
  is_empty end = true
  is_empty (field k v d) = false

  -- d[k] = v
  unfoldable pub put : Dict F → String → Value F → Dict F
  put end k v = field k v end
  put (field j w d) k v = if j == k then field j v d else field j w (put d k v)

  -- bool(v)
  unfoldable pub truthy : ⦃fl : Floats F⦄ → Value F → Bool
  truthy null = false
  truthy (boolean b) = b
  truthy (integer n) = int_truthy n
  truthy ⦃fl⦄ (float x) = not (fl.is_nought x)
  truthy (string s) = not (s == "")
  truthy (array nil) = false
  truthy (array (cons v vs)) = true
  truthy (object d) = not (is_empty d)

  -- the elements of an array, and nothing for any other value
  abbrev pub array_of : Value F → List (Value F)
  array_of (array vs) = elements vs
  array_of _ = []

  -- the texts at one key of the objects of a list, the last one first, before `acc`
  abbrev pub text_at : String → Value F → List String
  text_at k (object d) = text_of (get d k)
  text_at k _ = []

  abbrev pub texts_at : String → List (Value F) → List String → List String
  texts_at k [] acc = acc
  texts_at k (v ∷ vs) acc = texts_at k vs (text_at k v ++ acc)
