-- ===== src/Conductor/NameTree.antt =====
-- `split_by_prefixes` and the `find_all` of `build_strategy_rec`: property names grouped by the
-- words that they begin with.
pub mod Chunks
pub mod Leaves
use emucpu.Prelude.{
  ℕ, zero, suc, Bool, true, false, not, ◌&&◌, leb, ◌==◌, if◌then◌else◌, List, [], ◌∷◌, ◌++◌, map,
  Result, ok, raise, ◌>>=◌, length, max,
}
use emucpu.Prelude.Dict.{Dict}
use emucpu.Prelude.Text.{Text, text_eq}

unfoldable pub is_upper : ℕ → Bool
is_upper c = leb b'A' c && leb c b'Z'

unfoldable pub starts_upper : Text → Bool
unfolding is_upper
starts_upper [] = false
starts_upper (c ∷ s) = is_upper c

-- `re.split(r"_([A-Z])|_|([A-Z])", name)`: the text before the first match, and for each match the
-- letter that it captured with the text up to the next. A letter behind `_` belongs to the same
-- match, so nothing stands between the two.
unfoldable pub pieces : Text → Text × List Text
unfolding is_upper starts_upper
pieces [] = ([], [])
pieces (c ∷ s) =
    let (p, r) = pieces s in
    if c == b'_'
    then (if starts_upper s then (p, r) else ([], p ∷ r))
    else if is_upper c
    then ([], (c ∷ p) ∷ r)
    else (c ∷ p, r)

-- The first piece stands in the list unless it is empty.
unfoldable pub chunks_of : Text × List Text → List Text
chunks_of ([], r) = r
chunks_of (c ∷ p, r) = (c ∷ p) ∷ r

unfoldable pub chunk_name : Text → List Text
unfolding pieces chunks_of
chunk_name name = chunks_of (pieces name)

-- A name, or a list of such.
mutual
  pub data Tree : Type 0 where
    leaf : Text → Tree
    node : Trees → Tree

  pub data Trees : Type 0 where
    nil : Trees
    cons : Tree → Trees → Trees

-- `chunks[0]` of an empty list; `out_of_fuel` is the model's own.
pub data GroupError : Type 0 where
  index_error : GroupError
  out_of_fuel : GroupError

-- The chunks of a name that are left, and the name.
abbrev pub Chunked : Type 0
Chunked = List Text × Text

-- `buckets[k].append(x)`, or a new bucket.
unfoldable pub add_to : Text → Chunked → Dict (List Chunked) → Dict (List Chunked)
add_to k x [] = (k, x ∷ []) ∷ []
add_to k x ((j, b) ∷ r) = if text_eq j k then (j, b ++ x ∷ []) ∷ r else (j, b) ∷ add_to k x r

-- The first loop of `group`.
unfoldable pub spread :
    List Chunked
    → List Text
    → Dict (List Chunked)
    → Result GroupError (List Text × Dict (List Chunked))
unfolding add_to
spread [] done buckets = ok (done, buckets)
spread (([], name) ∷ props) done buckets = raise index_error
spread ((c ∷ [], name) ∷ props) done buckets = spread props (done ++ name ∷ []) buckets
spread ((c ∷ d ∷ cs, name) ∷ props) done buckets =
    spread props done (add_to c (d ∷ cs, name) buckets)

-- The second loop, with the recursive call of `group` as an argument.
unfoldable pub group_buckets :
    (List Chunked → Result GroupError Trees) → Dict (List Chunked) → Result GroupError Trees
group_buckets group [] = ok nil
group_buckets group ((pre, b) ∷ buckets) = do
  bucket ← group b
  rest ← group_buckets group buckets
  ok (cons (node bucket) rest)

unfoldable pub leaves_then : List Text → Trees → Trees
leaves_then [] ts = ts
leaves_then (name ∷ done) ts = cons (leaf name) (leaves_then done ts)

-- `group`, on fuel for its depth.
unfoldable pub group : ℕ → List Chunked → Result GroupError Trees
unfolding spread group_buckets leaves_then
group zero [] = ok nil
group zero (p ∷ props) = raise out_of_fuel
group (suc fuel) props = do
  spreaded ← spread props [] []
  grouped ← group_buckets (group fuel) spreaded.1
  ok (leaves_then spreaded.0 grouped)

-- A name has no more chunks than the deepest grouping has levels.
unfoldable pub most_chunks : List Chunked → ℕ
most_chunks [] = 0
most_chunks (p ∷ props) = max (length p.0) (most_chunks props)

unfoldable pub split_by_prefixes : List Text → Result GroupError Trees
unfolding chunk_name group most_chunks
split_by_prefixes names =
    let chunked_names = map (λ name. (chunk_name name, name)) names in
    group (suc (most_chunks chunked_names)) chunked_names

-- `find_all`
unfoldable mutual
  pub find_in : Tree → List Text
  find_in (leaf name) = name ∷ []
  find_in (node ts) = find_all ts

  pub find_all : Trees → List Text
  find_all nil = []
  find_all (cons t ts) = find_in t ++ find_all ts
