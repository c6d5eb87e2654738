-- ===== src/Tests/Codec.antt =====
-- A stand-in for what the reporter takes from outside. Its JSON keeps the texts of an object, with a
-- slash behind each key and each text; what would not be read back it does not write.
use tributo_knova.Prelude.{
  ◌*◌, String, Bool, true, false, ◌&&◌, List, [], ◌∷◌, Option, none, some, ◌≡◌, refl, ◌==◌, eq_iff,
  arith, Bool-cases, inl, inr, if◌then◌else◌,
}
use Prim.Native.String.{◌++◌}
use tributo_knova.Python.Number.{pos}
use tributo_knova.Python.Text.{split_slash}
use tributo_knova.Python.Value.{Value, Dict, string, object, nil, end, field, find, get}
use tributo_knova.Reporter.State.{Host}
use tributo_knova.Reporter.Closing.{IsLossless}
use tributo_knova.Tests.Decimal.{Decimal, millionths}

abbrev pub Texts : Type 0
Texts = List (String × String)

abbrev pub texts_in : Dict Decimal → Texts
texts_in end = []
texts_in (field k (string s) d) = (k, s) ∷ texts_in d
texts_in (field k _ d) = texts_in d

abbrev pub as_dict : Texts → Dict Decimal
as_dict [] = end
as_dict ((k, s) ∷ rest) = field k (string s) (as_dict rest)

abbrev pub written : Texts → String
written [] = ""
written ((k, s) ∷ rest) = k ++ "/" ++ s ++ "/" ++ written rest

abbrev pub paired : List String → Texts
paired (k ∷ s ∷ rest) = (k, s) ∷ paired rest
paired _ = []

unfoldable pub decoded : String → Texts
unfolding split_slash
decoded t = paired (split_slash t)

abbrev pub same_texts : Texts → Texts → Bool
same_texts [] [] = true
same_texts ((k, s) ∷ x) ((l, t) ∷ y) = k == l && s == t && same_texts x y
same_texts _ _ = false

same_texts-eq : (x y : Texts) → same_texts x y ≡ true → x ≡ y
same_texts-eq [] [] h = refl
same_texts-eq ((k, s) ∷ x) ((l, t) ∷ y) h =
    ground (arith, eq_iff k l, eq_iff s t, same_texts-eq x y)
same_texts-eq x y h = cc

unfoldable pub dumps : Dict Decimal → Option String
unfolding decoded
dumps d =
    if same_texts (decoded (written (texts_in d))) (texts_in d)
    then some (written (texts_in d))
    else none

unfoldable pub loads : String → Option (Value Decimal)
unfolding decoded
loads t = some (object (as_dict (decoded t)))

abbrev pub host : Host Decimal
unfolding dumps loads
host = record {
  redact = λ d. d;
  dumps = dumps;
  loads = loads;
  size = λ s. 0;
  str = λ v. "";
  lower = λ s. s;
  to_int = λ v. some (pos 0);
  to_float = λ v. some (millionths 0);
  to_list = λ v. some nil;
  truthy = λ v. true;
  percent = λ n. millionths (n * 1_000_000);
}

get-as_dict :
    (d : Dict Decimal) (k s : String) → get d k ≡ string s → get (as_dict (texts_in d)) k ≡ string s
unfolding get find
get-as_dict end k s h = h
get-as_dict (field j v d) k s h = ground (arith, get-as_dict d k s)

pub IsLossless-host : IsLossless host
unfolding dumps loads
IsLossless-host = record {
  round = λ d t w. elim (Bool-cases (same_texts (decoded (written (texts_in d))) (texts_in d))) [
    | inl same ↦
        let e : written (texts_in d) ≡ t = ground arith in
        (
          as_dict (decoded t),
          refl,
          λ k s h. rw (← e) (
              rw (same_texts-eq (decoded (written (texts_in d))) (texts_in d) same)
                (get-as_dict d k s h)),
        )
    | inr other ↦ absurd (ground arith)
  ];
}
