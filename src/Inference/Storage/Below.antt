-- ===== src/Inference/Storage/Below.antt =====
-- A path of an artifact stays below the storage of its model.
use Prim.Native.String.{◌++◌}
use tributo_knova.Prelude.{
  String, false, List, [], ◌∷◌, elem, any, All, eq_iff, ◌≡◌, sym, ap, ◌∙◌, arith,
}
use tributo_knova.Python.Text.{split_slash, strip, rstrip_slash}
use tributo_knova.Python.Result.{ok, from_ok, ok-injective}
use tributo_knova.Validation.Training.Prefix.{
  NoSlash, IsPlain, directory, split_slash-NoSlash, directory-split_slash,
}
use tributo_knova.Inference.Checks.{ensure, stripped}
use tributo_knova.Inference.Checks.Laws.{ensure-eq-ok, stripped-eq-ok}
use tributo_knova.Inference.Storage.{is_safe_path, join_uri}

plain :
    (parts : List String)
    → any (λ part. elem part ("" ∷ "." ∷ ".." ∷ [])) parts ≡ false
    → All NoSlash parts
    → All IsPlain parts
plain [] h n = tt
plain (p ∷ ps) h (n, ns) =
    (ground (arith, eq_iff p "", eq_iff p ".", eq_iff p ".."), plain ps (ground arith) ns)

-- The URI is the root, a slash and the path, which is made of plain names with slashes between.
pub record IsBelow (root path uri : String) : Type 0 where
  pub parts : List String
  pub names : directory parts ≡ strip path ++ "/"
  pub all_plain : All IsPlain parts
  pub placed : uri ≡ rstrip_slash root ++ ("/" ++ strip path)

-- A URI that `_join_uri` returns is the root without the slashes at its end, a slash, and the path
-- without the whitespace around it; and the parts of the path between its slashes are not empty
-- and no dot segments.
pub join_uri-IsBelow :
    (root path : String) {uri : String} → join_uri root path ≡ ok uri → IsBelow root path uri
unfolding join_uri
join_uri-IsBelow root path h = from_ok (stripped path "model artifact path") _ h λ relative e1 h1.
    from_ok (ensure (is_safe_path relative) _) _ h1 λ _ e2 h2.
      let safe = ensure-eq-ok (is_safe_path relative) _ e2 in
      let same = stripped-eq-ok path "model artifact path" e1 in
      record {
        parts = split_slash relative;
        names = rw (← same) (directory-split_slash relative);
        all_plain = plain (split_slash relative) (ground arith) (split_slash-NoSlash relative);
        placed = sym (ok-injective h2) ∙ ap (λ (r : String). rstrip_slash root ++ ("/" ++ r)) same;
      }
