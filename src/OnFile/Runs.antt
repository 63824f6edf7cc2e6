-- ===== src/OnFile/Runs.antt =====
-- packages/rust/src/on_file.rs (`spread`, `spread_runs`): the runs that a list is split into.
use mathlib.Core.List.{flatten}
use dirsql.Prelude.{
  ℕ, zero, suc, ◌+◌, ◌-◌, ◌*◌, ◌/◌, ◌≤◌, min, ◌≡◌, refl, sym, ap, ◌∙◌, Bool, true, false, not, ◌&&◌,
  List, [], ◌∷◌, ◌++◌, append-nil, append_assoc, length, length-append, take, drop, ltb, leb, ◌==◌,
  if◌then◌else◌, arith,
}
use dirsql.OnFile.{sum, min_run_bytes, spread_from, spread, spread_runs}

module _ {A : Type 0} where
  take-drop : (n : ℕ) (xs : List A) → take n xs ++ drop n xs ≡ xs
  take-drop zero xs = refl
  take-drop (suc n) [] = refl
  take-drop (suc n) (x ∷ xs) = ap (λ l. x ∷ l) (take-drop n xs)

  drop-nil : (k : ℕ) → ◌≡◌ {A = List A} [] (drop k [])
  drop-nil zero = refl
  drop-nil (suc k) = refl

  drop-drop : (m n : ℕ) (xs : List A) → drop m (drop n xs) ≡ drop (n + m) xs
  drop-drop m zero xs = ap (λ k. drop k xs) (omega arith)
  drop-drop m (suc n) [] = sym (drop-nil m) ∙ drop-nil (suc n + m)
  drop-drop m (suc n) (x ∷ xs) = drop-drop m n xs ∙ ap (λ k. drop k (x ∷ xs)) (one_more n m)
    where
      one_more : (n m : ℕ) → suc (n + m) ≡ suc n + m
      one_more n m = omega arith

  -- Cutting the rest of a list at a later index.
  cut-here :
      (done xs : List A) (args : List A) (start i : ℕ)
      → start ≤ i
      → done ++ drop start args ≡ args
      → (done ++ take (suc i - start) (drop start args)) ++ drop (suc i) args ≡ args
  cut-here done xs args start i h e =
      append_assoc done (take (suc i - start) (drop start args)) (drop (suc i) args)
      ∙ ap (λ l. done ++ (take (suc i - start) (drop start args) ++ l))
          (ap (λ k. drop k args) (later start i h) ∙ sym (drop-drop (suc i - start) start args))
      ∙ ap (λ l. done ++ l) (take-drop (suc i - start) (drop start args))
      ∙ e
    where
      later : (start i : ℕ) → start ≤ i → suc i ≡ start + (suc i - start)
      later start i h = omega (arith, h)

  pub flatten-snoc : (xs : List (List A)) (ys : List A) → flatten (xs ++ ys ∷ []) ≡ flatten xs ++ ys
  unfolding flatten
  flatten-snoc [] ys = append-nil ys
  flatten-snoc (x ∷ xs) ys =
      ap (λ l. x ++ l) (flatten-snoc xs ys) ∙ sym (append_assoc x (flatten xs) ys)

  -- A list cut into at most so many runs.
  abbrev pub IsCut : List A → ℕ → List (List A) → Type 0
  IsCut args parts runs = (flatten runs ≡ args) × (length runs ≤ parts)

  IsCut-if :
      (args : List A) (parts : ℕ) (b : Bool) (x y : List (List A))
      → (b ≡ true → IsCut args parts x)
      → (b ≡ false → IsCut args parts y)
      → IsCut args parts (if b then x else y)
  IsCut-if args parts true x y h g = h refl
  IsCut-if args parts false x y h g = g refl

  spread_from-IsCut :
      (args : List A) (total parts i : ℕ) (sizes : List ℕ) (out : List (List A)) (start seen : ℕ)
      → start ≤ i
      → suc (length out) ≤ parts
      → flatten out ++ drop start args ≡ args
      → IsCut args parts (spread_from args total parts i sizes out start seen)
  unfolding spread_from
  spread_from-IsCut args total parts i [] out start seen h few e = (
    flatten-snoc out (drop start args) ∙ e,
    omega (arith, few, length-append out (drop start args ∷ [])),
  )
  spread_from-IsCut args total parts i (size ∷ sizes) out start seen h few e =
      let piece = take (suc i - start) (drop start args) in
      IsCut-if args parts
        (not (suc i == length args)
          && ltb (suc (length out)) parts
          && leb (total * suc (length out)) ((seen + size) * parts))
        (spread_from args total parts (suc i) sizes (out ++ piece ∷ []) (suc i) (seen + size))
        (spread_from args total parts (suc i) sizes out start (seen + size))
        (λ b.
          let room : ltb (suc (length out)) parts ≡ true =
            middle (not (suc i == length args)) (ltb (suc (length out)) parts)
              (leb (total * suc (length out)) ((seen + size) * parts)) b in
          spread_from-IsCut args total parts (suc i) sizes (out ++ piece ∷ []) (suc i) (seen + size)
            (omega arith)
            (fits (length out) (length (out ++ piece ∷ [])) parts room
              (length-append out (piece ∷ [])))
            (ap (λ l. l ++ drop (suc i) args) (flatten-snoc out piece)
              ∙ cut-here (flatten out) [] args start i h e))
        (λ b.
          spread_from-IsCut args total parts (suc i) sizes out start (seen + size)
            (omega (arith, h)) few e)
    where
      middle : (a b c : Bool) → (a && b && c) ≡ true → b ≡ true
      middle true true c e = refl
      middle true false c e = e
      middle false true c e = refl
      middle false false c e = e

      fits : (n m parts : ℕ) → ltb (suc n) parts ≡ true → m ≡ n + 1 → suc m ≤ parts
      fits n m parts room e = ground (arith, room, e)

  one_run : (args : List A) (parts : ℕ) → 1 ≤ parts → IsCut args parts (args ∷ [])
  unfolding flatten
  one_run args parts h = (append-nil args, h)

  spread-IsCut :
      (args : List A) (sizes : List ℕ) (parts : ℕ)
      → 1 ≤ parts
      → IsCut args parts (spread args sizes parts)
  unfolding spread flatten
  spread-IsCut args sizes parts h =
      let most = min (min parts (length args)) (sum sizes / min_run_bytes) in
      IsCut-if args parts (leb most 1) (args ∷ [])
        (spread_from args (sum sizes) most 0 sizes [] 0 0) (λ b. one_run args parts h)
        (λ b.
          let (whole, few) =
            spread_from-IsCut args (sum sizes) most 0 sizes [] 0 0 (omega arith) (more most b)
              refl in
          (
            whole,
            at_most (length (spread_from args (sum sizes) most 0 sizes [] 0 0))
                (sum sizes / min_run_bytes) few,
          ))
    where
      more : (most : ℕ) → leb most 1 ≡ false → suc 0 ≤ most
      more most b = ground (arith, b)

      at_most : (n k : ℕ) → n ≤ min (min parts (length args)) k → n ≤ parts
      at_most n k few = omega (arith, few)

  -- The runs are the arguments in their order, each once, and there are at most as many as processors.
  pub spread_runs-IsCut :
      (args : List A) (sizes : List ℕ) (cpus : ℕ)
      → 1 ≤ cpus
      → IsCut args cpus (spread_runs args sizes cpus)
  unfolding spread_runs
  spread_runs-IsCut args sizes cpus h =
      IsCut-if args cpus (leb (min (sum sizes / min_run_bytes) (length args)) 1) (args ∷ [])
        (spread args sizes cpus) (λ b. one_run args cpus h) (λ b. spread-IsCut args sizes cpus h)
