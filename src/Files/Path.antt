-- ===== src/Files/Path.antt =====
-- user_client/service/file_service.go: `filepath.Join` of the Go library, on systems with `/`, by which the
-- files are named.
use bc_abe.Common.{ℕ, Bool, true, false, List, [], ◌∷◌, ◌++◌, ◌==◌, ◌||◌, if◌then◌else◌, is_empty}
use bc_abe.Text.{Text, codes, ◌=ᵗ◌}

-- A character in front of the first of the elements.
unfoldable pub onto_first : ℕ → List Text → List Text
onto_first c [] = (c ∷ []) ∷ []
onto_first c (w ∷ ws) = (c ∷ w) ∷ ws

-- The elements of a path, empty ones included.
unfoldable pub elements : Text → List Text
unfolding onto_first
elements [] = [] ∷ []
elements (c ∷ t) = let rest = elements t in if c == b'/' then [] ∷ rest else onto_first c rest

-- `..` behind the elements that are kept, the last one first: it removes the last one, stays in front of
-- a path that is not rooted, and is nothing at the root.
parent : Bool → List Text → List Text
parent true [] = []
parent false [] = codes ".." ∷ []
parent rooted (last ∷ kept) = if last =ᵗ codes ".." then codes ".." ∷ last ∷ kept else kept

unfoldable pub cleaned : Bool → List Text → List Text → List Text
unfolding parent
cleaned rooted kept [] = kept
cleaned rooted kept (w ∷ ws) =
    cleaned rooted
      (if is_empty w || w =ᵗ codes "."
        then kept
        else if w =ᵗ codes ".."
        then parent rooted kept
        else w ∷ kept)
      ws

-- The elements joined by `/`, the last one first.
unfoldable pub joined : List Text → Text
joined [] = []
joined (w ∷ []) = w
joined (w ∷ v ∷ ws) = joined (v ∷ ws) ++ b'/' ∷ w

unfoldable pub is_rooted : Text → Bool
is_rooted [] = false
is_rooted (c ∷ t) = c == b'/'

unfoldable pub or_dot : Text → Text
or_dot [] = codes "."
or_dot (c ∷ t) = c ∷ t

-- `filepath.Clean`
unfoldable pub clean : Text → Text
unfolding is_rooted cleaned joined elements or_dot
clean path =
    let kept = joined (cleaned (is_rooted path) [] (elements path)) in
    if is_rooted path then b'/' ∷ kept else or_dot kept

-- `filepath.Join` of two elements, of which an empty first one is passed over.
unfoldable pub join : Text → Text → Text
unfolding clean
join [] name = if is_empty name then [] else clean name
join (c ∷ dir) name = clean ((c ∷ dir) ++ b'/' ∷ name)
