-- ===== src/Python/Path.antt =====
-- Python's `posixpath`: `join` and `normpath`.
use Prim.Native.String as Str
use tributo_knova.Prelude.{
  String, Bool, not, ◌&&◌, ◌||◌, List, [], ◌∷◌, ◌≡◌, refl, elem, ◌==◌, if◌then◌else◌,
}
use tributo_knova.Python.Text.{starts_with, starts_slash, ends_slash, split_slash}

-- posixpath.join(a, b)
abbrev pub join_path : String → String → String
join_path a b =
    if starts_slash b
    then b
    else if a == "" || ends_slash a
    then Str.◌++◌ a b
    else Str.◌++◌ a (Str.◌++◌ "/" b)

-- The components of a normal path, the last one first. A way up removes the component before it; at
-- the root it is dropped, and at the start of a relative path it stays.
abbrev pub push_component : Bool → String → List String → List String
push_component absolute part [] =
    if elem part ("" ∷ "." ∷ []) || (part == ".." && absolute) then [] else part ∷ []
push_component absolute part (last ∷ before) =
    if elem part ("" ∷ "." ∷ [])
    then last ∷ before
    else if part == ".." && not (last == "..")
    then before
    else part ∷ last ∷ before

unfoldable pub normal_components : Bool → List String → List String → List String
normal_components absolute [] done = done
normal_components absolute (part ∷ parts) done =
    normal_components absolute parts (push_component absolute part done)

-- "/".join(reversed(components)), behind some text
abbrev pub joined : List String → String → String
joined [] rest = rest
joined (part ∷ []) rest = Str.◌++◌ part rest
joined (part ∷ parts) rest = joined parts (Str.◌++◌ "/" (Str.◌++◌ part rest))

-- the slashes at the start: exactly two are kept
abbrev pub root_of : String → String
root_of path =
    if starts_with path "//" && not (starts_with path "///")
    then "//"
    else if starts_slash path
    then "/"
    else ""

-- posixpath.normpath(path)
unfoldable pub normpath : String → String
unfolding normal_components
normpath path =
    let normal =
      Str.◌++◌ (root_of path)
        (joined (normal_components (starts_slash path) (split_slash path) []) "") in
    if normal == "" then "." else normal

normpath_tests :
    (normpath "/a/./b//../c/" ≡ "/a/c")
    × (normpath "../a/../.." ≡ "../..")
    × (normpath "//" ≡ "//")
    × (normpath "" ≡ ".")
    × (normpath "/../x" ≡ "/x")
    × (join_path "/a" "b" ≡ "/a/b")
unfolding normpath starts_with starts_slash ends_slash split_slash
normpath_tests = (refl, refl, refl, refl, refl, refl)
