-- ===== src/Pool/Hybrid/Conservation.antt =====
-- The hybrid pool loses no object and lends none twice, and no thread hoards.
use highp_mmorpg.Prelude.{
  ℕ, zero, suc, ◌+◌, ◌<◌, ◌≡◌, inl, inr, refl, List, [], ◌∷◌, ◌++◌, none, some, arith, ltb, leb,
  ◌==◌, if◌then◌else◌, Bool-cases, Option-cases, List-cases, All, All-set, All-get, replicate,
  length, take, drop, get_elem?, set, min, length-drop, length-take, ap,
}
use highp_mmorpg.Pool.Object.Ownership.{count, count_cases, drop_one, count-drop_one}
use highp_mmorpg.Pool.Hybrid.{
  HybridPool, local_max_capacity, chunk_size, get_local, return_local, get, return, exit,
}

-- How often an object stands in the vectors of the threads.
abbrev pub count_all : ℕ → List (List ℕ) → ℕ
count_all x [] = 0
count_all x (l ∷ ls) = count x l + count_all x ls

count-append : (x : ℕ) (xs ys : List ℕ) → count x (xs ++ ys) ≡ count x xs + count x ys
count-append x [] ys = omega arith
count-append x (z ∷ xs) ys = ground (arith, count-append x xs ys)

count-split : (x n : ℕ) (xs : List ℕ) → count x (take n xs) + count x (drop n xs) ≡ count x xs
count-split x zero xs = omega arith
count-split x (suc n) [] = omega arith
count-split x (suc n) (y ∷ xs) = omega (arith, count-split x n xs)

count_all-set :
    (x : ℕ) (ls : List (List ℕ)) (i : ℕ) (l l' : List ℕ)
    → get_elem? ls i ≡ some l
    → count_all x (set ls i l') + count x l ≡ count_all x ls + count x l'
count_all-set x [] i l l' e = absurd (ground arith)
count_all-set x (m ∷ ls) zero l l' e = let same : m ≡ l = ground arith in rw same (omega arith)
count_all-set x (m ∷ ls) (suc i) l l' e = omega (arith, count_all-set x ls i l l' e)

-- `Get` takes the item out of the two vectors, or makes it.
get_local_counts :
    (x : ℕ) (local global : List ℕ) (made : ℕ)
    → let (item, local', global', made') = get_local local global made in
      (count x local'
          + count x global'
          + (if x == item then 1 else 0)
          + (if ltb x made then 1 else 0)
        ≡ count x local + count x global + (if ltb x made' then 1 else 0))
      × (length local < local_max_capacity → length local' < local_max_capacity)
unfolding get_local
get_local_counts x (item ∷ rest) global made = (omega arith, λ h. omega arith)
get_local_counts x [] global made =
    let n = min (length global) chunk_size in
    elim (List-cases (take n global)) [
      | inl e ↦
          rw (e, get_local)
            (ground (arith, count-split x n global, ap (count x) e), λ h. omega arith)
      | inr (item, rest, e) ↦
          rw (e, get_local)
            (
              ground (arith, count-split x n global, ap (count x) e),
              λ h. ground (arith, length-take n global, ap (λ (xs : List ℕ). length xs) e),
            )
    ]

return_local_counts :
    (x item : ℕ) (local global : List ℕ)
    → let (local', global') = return_local item local global in
      (count x local' + count x global'
        ≡ (if x == item then 1 else 0) + count x local + count x global)
      × (length local < local_max_capacity → length local' < local_max_capacity)
unfolding return_local
return_local_counts x item local global =
    elim (Bool-cases (leb local_max_capacity (suc (length local)))) [
      | inl e ↦
          rw (e, return_local)
            (
              ground (arith, count-append x (take 49 local) global, count-split x 49 local),
              λ h. omega (arith, length-drop 49 local),
            )
      | inr e ↦ rw (e, return_local) (omega arith, λ h. ground arith)
    ]

-- What the threads ask of the pool: an object, or to give back one that is lent, or to end.
pub data Use : Type 0 where
  takes : ℕ → Use
  gives_back : (thread item : ℕ) → Use
  ends : ℕ → Use

-- The objects that are lent stand beside the pool.
unfoldable pub serve : Use → List ℕ → HybridPool → List ℕ × HybridPool
serve (takes thread) lent p = elim (get thread p) [
  | none ↦ (lent, p)
  | some (item, p') ↦ (item ∷ lent, p')
]
serve (gives_back thread item) lent p = elim (get_elem? p.locals thread) [
  | none ↦ (lent, p)
  | some _ ↦ elim (count item lent) [
    | zero ↦ (lent, p)
    | suc _ ↦ (drop_one item lent, return (some item) thread p)
  ]
]
serve (ends thread) lent p = (lent, exit thread p)

unfoldable pub serve_all : List Use → List ℕ → HybridPool → List ℕ × HybridPool
serve_all [] lent p = (lent, p)
serve_all (u ∷ us) lent p = let (lent', p') = serve u lent p in serve_all us lent' p'

-- Every object that was made is at one place, once, and no thread keeps a hundred.
pub record IsConserved (lent : List ℕ) (p : HybridPool) : Type 0 where
  pub placed :
      (x : ℕ)
      → count_all x p.locals + count x p.global + count x lent ≡ (if ltb x p.made then 1 else 0)
  pub bounded : All (λ (l : List ℕ). length l < local_max_capacity) p.locals

-- A change of one thread's vector, of the global one and of what is lent.
moved :
    (lent lent' : List ℕ) (p : HybridPool) (thread made : ℕ) (local local' global : List ℕ)
    → IsConserved lent p
    → get_elem? p.locals thread ≡ some local
    → length local' < local_max_capacity
    → ((x : ℕ)
        → count x local' + count x global + count x lent' + (if ltb x p.made then 1 else 0)
          ≡ count x local + count x p.global + count x lent + (if ltb x made then 1 else 0))
    → IsConserved lent'
        (record { locals = set p.locals thread local'; global = global; made = made })
moved lent lent' p thread made local local' global v at small same = record {
  placed = λ x. omega (arith, v.placed x, same x, count_all-set x p.locals thread local local' at);
  bounded =
      All-set (λ (l : List ℕ). length l < local_max_capacity) p.locals thread local' v.bounded
        small;
}

return_lem :
    (item thread : ℕ) (p : HybridPool) (local : List ℕ)
    → get_elem? p.locals thread ≡ some local
    → let (local', global') = return_local item local p.global in
      return (some item) thread p
      ≡ record p { locals = set p.locals thread local'; global = global' }
unfolding return
return_lem item thread p local e = rw (e, return) refl

serve-IsConserved :
    (u : Use) (lent : List ℕ) (p : HybridPool)
    → IsConserved lent p
    → let (lent', p') = serve u lent p in IsConserved lent' p'
unfolding serve get return exit
serve-IsConserved (takes thread) lent p v = elim (Option-cases (get_elem? p.locals thread)) [
  | inl e ↦ rw (e, serve) v
  | inr (local, e) ↦
      let (item, local', global', made') = get_local local p.global p.made in
      let small =
        All-get (λ (l : List ℕ). length l < local_max_capacity) p.locals thread local v.bounded e in
      rw (e, serve)
        (moved lent (item ∷ lent) p thread made' local local' global' v e
          ((get_local_counts 0 local p.global p.made).1 small)
          (λ x. omega (arith, (get_local_counts x local p.global p.made).0)))
]
serve-IsConserved (gives_back thread item) lent p v =
    elim (Option-cases (get_elem? p.locals thread)) [
      | inl e ↦ rw (e, serve) v
      | inr (local, e) ↦ elim (count_cases (count item lent)) [
        | inl f ↦ rw (e, f, serve) v
        | inr (n, f) ↦
            let (local', global') = return_local item local p.global in
            let small =
              All-get (λ (l : List ℕ). length l < local_max_capacity) p.locals thread local
                v.bounded e in
            rw (e, f, serve)
              (rw (return_lem item thread p local e) (
                moved lent (drop_one item lent) p thread p.made local local' global' v e
                  ((return_local_counts 0 item local p.global).1 small)
                  (λ x. omega (
                    arith,
                    (return_local_counts x item local p.global).0,
                    count-drop_one item x lent n f,
                  ))))
      ]
    ]
serve-IsConserved (ends thread) lent p v = elim (Option-cases (get_elem? p.locals thread)) [
  | inl e ↦ rw (e, exit) v
  | inr (local, e) ↦
      rw (e, exit)
        (moved lent lent p thread p.made local [] (local ++ p.global) v e (omega arith)
          (λ x. omega (arith, count-append x local p.global)))
]

serve_all-IsConserved' :
    (us : List Use) (lent : List ℕ) (p : HybridPool)
    → IsConserved lent p
    → let (lent', p') = serve_all us lent p in IsConserved lent' p'
unfolding serve_all
serve_all-IsConserved' [] lent p v = v
serve_all-IsConserved' (u ∷ us) lent p v =
    let (lent', p') = serve u lent p in
    serve_all-IsConserved' us lent' p' (serve-IsConserved u lent p v)

no_locals : (threads x : ℕ) → count_all x (replicate threads []) ≡ 0
no_locals zero x = refl
no_locals (suc n) x = omega (arith, no_locals n x)

no_bounds :
    (threads : ℕ) → All (λ (l : List ℕ). length l < local_max_capacity) (replicate threads [])
no_bounds zero = tt
no_bounds (suc n) = (omega arith, no_bounds n)

-- Whatever the threads ask, in whatever order, each object that was made is free on one thread, or
-- free in the global pool, or lent, at one place only and once, and a thread keeps less than 100
-- free. The pool starts with no object, and what is given back was lent, perhaps by another thread.
pub serve_all-IsConserved :
    (threads : ℕ) (us : List Use)
    → let (lent, p) =
        serve_all us [] (record { locals = replicate threads []; global = []; made = 0 }) in
      IsConserved lent p
serve_all-IsConserved threads us =
    serve_all-IsConserved' us [] (record { locals = replicate threads []; global = []; made = 0 })
      (record { placed = λ x. ground (arith, no_locals threads x); bounded = no_bounds threads })
