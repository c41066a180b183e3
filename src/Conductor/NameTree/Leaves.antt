-- ===== src/Conductor/NameTree/Leaves.antt =====
-- `split_by_prefixes` keeps every property.
use emucpu.Prelude.{
  All-snoc, ℕ, zero, suc, ◌≤◌, max, List, [], ◌∷◌, ◌++◌, map, All, Result, ok, length, arith, ◌≡◌,
  ◌≢◌, refl, if_ind,
}
use mathlib.Core.List.{Perm, perm_middle, append-nil, append_assoc}
use mathlib.Core.List.Perm
use emucpu.Prelude.Dict.{Dict}
use emucpu.Prelude.Text.{Text, text_eq}
use emucpu.Conductor.NameTree.Chunks.{chunk_name-ne_nil}
use emucpu.Conductor.NameTree.{
  GroupError, chunk_name, node, Trees, nil, cons, Chunked, add_to, spread, group_buckets,
  leaves_then, group, most_chunks, split_by_prefixes, find_all,
}

abbrev names_of : List Chunked → List Text
names_of props = map (λ p. p.1) props

abbrev bucket_names : Dict (List Chunked) → List Text
bucket_names [] = []
bucket_names ((k, b) ∷ r) = names_of b ++ bucket_names r

-- Enough fuel for a name, and at least one chunk.
abbrev Ready : ℕ → Chunked → Type 0
Ready n p = (1 ≤ length p.0) × (length p.0 ≤ n)

abbrev BucketsReady : ℕ → Dict (List Chunked) → Type 0
BucketsReady n [] = Unit
BucketsReady n ((k, b) ∷ r) = All (Ready n) b × BucketsReady n r

names_of-snoc : (b : List Chunked) (x : Chunked) → names_of (b ++ x ∷ []) ≡ names_of b ++ x.1 ∷ []
names_of-snoc [] x = refl
names_of-snoc (y ∷ b) x = rw (names_of-snoc b x)

add_to-perm :
    (k : Text) (x : Chunked) (r : Dict (List Chunked))
    → Perm (bucket_names (add_to k x r)) (x.1 ∷ bucket_names r)
unfolding add_to
add_to-perm k x [] = Perm.rfl
add_to-perm k x ((j, b) ∷ r) =
    if_ind (λ d. Perm (bucket_names d) (x.1 ∷ names_of b ++ bucket_names r)) (text_eq j k)
      {y = (j, b) ∷ add_to k x r}
      (λ _. rw (names_of-snoc b x, append_assoc) (perm_middle (names_of b) (bucket_names r)))
      (λ _.
        Perm.trans (Perm.append_left (names_of b) (add_to-perm k x r))
          (perm_middle (names_of b) (bucket_names r)))

add_to-BucketsReady :
    (n : ℕ) (k : Text) (x : Chunked) (r : Dict (List Chunked))
    → Ready n x
    → BucketsReady n r
    → BucketsReady n (add_to k x r)
unfolding add_to
add_to-BucketsReady n k x [] h u = ((h, tt), tt)
add_to-BucketsReady n k x ((j, b) ∷ r) h (u, v) =
    if_ind (BucketsReady n) (text_eq j k) {y = (j, b) ∷ add_to k x r}
      (λ _. (All-snoc (Ready n) b x u h, v)) (λ _. (u, add_to-BucketsReady n k x r h v))

-- A name goes to the front of those still to come.
move-perm :
    (done : List Text) (x : Text) (b n : List Text)
    → Perm ((done ++ x ∷ b) ++ n) ((done ++ b) ++ x ∷ n)
move-perm done x b n =
    rw (append_assoc done (x ∷ b) n, append_assoc done b (x ∷ n))
      (Perm.append_left done (Perm.symm (perm_middle b n)))

-- The result of the first loop.
record IsParted (n : ℕ) (props : List Chunked) (done : List Text) (buckets : Dict (List Chunked))
    : Type 0 where
  spreaded : List Text × Dict (List Chunked)
  returns : spread props done buckets ≡ ok spreaded
  ready : BucketsReady n spreaded.1
  perm :
      Perm
        (spreaded.0 ++ bucket_names spreaded.1)
        ((done ++ bucket_names buckets) ++ names_of props)

spread-IsParted :
    (n : ℕ) (props : List Chunked) (done : List Text) (buckets : Dict (List Chunked))
    → All (Ready (suc n)) props
    → BucketsReady n buckets
    → IsParted n props done buckets
unfolding spread
spread-IsParted n [] done buckets h u = record {
  spreaded = (done, buckets);
  returns = refl;
  ready = u;
  perm = rw append-nil Perm.rfl;
}
spread-IsParted n (([], name) ∷ props) done buckets (h, hs) u = absurd (omega arith)
spread-IsParted n ((c ∷ [], name) ∷ props) done buckets (h, hs) u =
    let s = spread-IsParted n props (done ++ name ∷ []) buckets hs u in
    record {
      spreaded = s.spreaded;
      returns = s.returns;
      ready = s.ready;
      perm = Perm.trans s.perm (
          rw (append_assoc done (name ∷ []) (bucket_names buckets))
            (move-perm done name (bucket_names buckets) (names_of props)));
    }
spread-IsParted n ((c ∷ d ∷ cs, name) ∷ props) done buckets (h, hs) u =
    let x : Chunked = (d ∷ cs, name) in
    let s =
      spread-IsParted n props done (add_to c x buckets) hs
        (add_to-BucketsReady n c x buckets (omega arith) u) in
    record {
      spreaded = s.spreaded;
      returns = s.returns;
      ready = s.ready;
      perm = Perm.trans s.perm (
          Perm.trans
            (Perm.append_right (names_of props) (Perm.append_left done (add_to-perm c x buckets)))
            (move-perm done name (bucket_names buckets) (names_of props)));
    }

-- A grouping that returns and keeps the names.
abbrev Keeps : Result GroupError Trees → List Text → Type 0
Keeps m names = (ts : Trees) × (m ≡ ok ts) × Perm (find_all ts) names

group_buckets-Keeps :
    (n : ℕ) (g : List Chunked → Result GroupError Trees) (buckets : Dict (List Chunked))
    → ((b : List Chunked) → All (Ready n) b → Keeps (g b) (names_of b))
    → BucketsReady n buckets
    → Keeps (group_buckets g buckets) (bucket_names buckets)
unfolding group_buckets find_all
group_buckets-Keeps n g [] keep u = (nil, refl, Perm.rfl)
group_buckets-Keeps n g ((pre, b) ∷ buckets) keep (u, v) =
    let (t, made, perm) = keep b u in
    let (ts, rest, perms) = group_buckets-Keeps n g buckets keep v in
    (cons (node t) ts, rw (made, rest), Perm.append perm perms)

find_all-leaves_then :
    (done : List Text) (ts : Trees) → find_all (leaves_then done ts) ≡ done ++ find_all ts
unfolding leaves_then find_all
find_all-leaves_then [] ts = refl
find_all-leaves_then (name ∷ done) ts = rw (find_all-leaves_then done ts)

group-Keeps :
    (n : ℕ) (props : List Chunked) → All (Ready n) props → Keeps (group n props) (names_of props)
unfolding group find_all
group-Keeps zero [] h = (nil, refl, Perm.rfl)
group-Keeps zero (p ∷ props) (h, hs) = absurd (omega arith)
group-Keeps (suc n) props h =
    let s = spread-IsParted n props [] [] h tt in
    let (ts, made, perm) =
      group_buckets-Keeps n (group n) s.spreaded.1 (λ b u. group-Keeps n b u) s.ready in
    (
      leaves_then s.spreaded.0 ts,
      rw (s.returns, made),
      rw (find_all-leaves_then s.spreaded.0 ts)
          (Perm.trans (Perm.append_left s.spreaded.0 perm) s.perm),
    )

abbrev chunked : List Text → List Chunked
chunked names = map (λ name. (chunk_name name, name)) names

Ready-mono : (m n : ℕ) (props : List Chunked) → m ≤ n → All (Ready m) props → All (Ready n) props
Ready-mono m n [] h u = tt
Ready-mono m n (p ∷ props) h (u, us) = (omega arith, Ready-mono m n props h us)

length-pos : (l : List Text) → l ≢ [] → 1 ≤ length l
length-pos [] h = absurd (h refl)
length-pos (x ∷ l) h = omega arith

chunked-Ready :
    (names : List Text)
    → All (λ name. name ≢ []) names
    → All (Ready (most_chunks (chunked names))) (chunked names)
unfolding most_chunks
chunked-Ready [] h = tt
chunked-Ready (name ∷ names) (h, hs) =
    let rest = most_chunks (chunked names) in
    let pos = length-pos (chunk_name name) (chunk_name-ne_nil name h) in
    (
      (pos, omega arith),
      Ready-mono rest (max (length (chunk_name name)) rest) (chunked names) (omega arith)
          (chunked-Ready names hs),
    )

names_of-chunked : (names : List Text) → names_of (chunked names) ≡ names
names_of-chunked [] = refl
names_of-chunked (name ∷ names) = rw (names_of-chunked names)

-- Splitting non-empty property names by their prefixes always gives a tree, and the leaves of the
-- tree are the names, each as often as it was given: no property is lost or added on the way to
-- the proofs.
pub split_by_prefixes-perm :
    (names : List Text)
    → All (λ name. name ≢ []) names
    → (ts : Trees) × (split_by_prefixes names ≡ ok ts) × Perm (find_all ts) names
unfolding split_by_prefixes
split_by_prefixes-perm names h =
    let ready =
      Ready-mono (most_chunks (chunked names)) (suc (most_chunks (chunked names))) (chunked names)
        (omega arith) (chunked-Ready names h) in
    let (ts, made, perm) = group-Keeps (suc (most_chunks (chunked names))) (chunked names) ready in
    (ts, made, rw (names_of-chunked names) at perm)
