-- ===== src/Http/Page/Walk.antt =====
-- pkg/edgeview/http_handler.go: page after page gives the list.
use vrtc.Base.{
  ℕ, zero, suc, ◌+◌, ◌-◌, ◌*◌, ◌≤◌, ◌≡◌, refl, sym, ap, ◌∙◌, Bool-cases, inl, inr, List, [], ◌∷◌,
  ◌++◌, leb, arith, length, take, drop,
}
use Prim.Native.Nat.add
use Prim.Native.Nat.mul
use vrtc.Base.Int.{ℤ}
use vrtc.Http.Page.{PaginatedInput, effective_limit, min, page_of}

module _ {A : Type 0} where
  take_whole : (n : ℕ) (xs : List A) → length xs ≤ n → take n xs ≡ xs
  take_whole zero [] h = refl
  take_whole zero (x ∷ xs) h = absurd (omega arith)
  take_whole (suc n) [] h = refl
  take_whole (suc n) (x ∷ xs) h = ap (λ l. x ∷ l) (take_whole n xs (omega arith))

  drop_whole : (n : ℕ) (xs : List A) → length xs ≤ n → drop n xs ≡ []
  drop_whole zero [] h = refl
  drop_whole zero (x ∷ xs) h = absurd (omega arith)
  drop_whole (suc n) [] h = refl
  drop_whole (suc n) (x ∷ xs) h = drop_whole n xs (omega arith)

  length-drop : (n : ℕ) (xs : List A) → length (drop n xs) ≡ length xs - n
  length-drop zero xs = omega arith
  length-drop (suc n) [] = omega arith
  length-drop (suc n) (x ∷ xs) = length-drop n xs ∙ omega arith

  length-take : (n : ℕ) (xs : List A) → length (take n xs) ≡ min n (length xs)
  length-take zero xs = ground arith
  length-take (suc n) [] = ground arith
  length-take (suc n) (x ∷ xs) = ground (arith, length-take n xs)

  take-plus : (m n : ℕ) (xs : List A) → take (m + n) xs ≡ take m xs ++ take n (drop m xs)
  take-plus zero n xs = rw (add.zero n) refl
  take-plus (suc m) zero [] = rw (add.suc m 0) refl
  take-plus (suc m) (suc n) [] = rw (add.suc m (suc n)) refl
  take-plus (suc m) n (x ∷ xs) = rw (add.suc m n) (ap (λ l. x ∷ l) (take-plus m n xs))

  drop-plus : (m n : ℕ) (xs : List A) → drop (m + n) xs ≡ drop n (drop m xs)
  drop-plus zero n xs = rw (add.zero n) refl
  drop-plus (suc m) zero [] = rw (add.suc m 0) refl
  drop-plus (suc m) (suc n) [] = rw (add.suc m (suc n)) refl
  drop-plus (suc m) n (x ∷ xs) = rw (add.suc m n) (drop-plus m n xs)

  -- The slice of the source is what its bounds would give unclipped.
  window :
      (limit offset total : ℕ) (all : List A)
      → length all ≡ total
      → take (min (min offset total + limit) total - min offset total) (drop (min offset total) all)
        ≡ take limit (drop offset all)
  window limit offset total all e = elim (Bool-cases (leb offset total)) [
    | inl inside ↦ rw inside (
        clip limit (total - offset) (drop offset all)
          (length-drop offset all ∙ ap (λ n. n - offset) e) (min (offset + limit) total - offset)
          (ground arith))
    | inr outside ↦
        rw (outside, drop_whole offset all (ground arith), drop_whole total all (omega arith))
          (nothing _ ∙ sym (nothing limit))
  ]
    where
      nothing : (n : ℕ) → take {A = A} n [] ≡ []
      nothing zero = refl
      nothing (suc n) = refl

      clip :
          (limit rest : ℕ) (xs : List A)
          → length xs ≡ rest
          → (n : ℕ) → n ≡ min limit rest
          → take n xs ≡ take limit xs
      clip limit rest xs e n q = elim (Bool-cases (leb limit rest)) [
        | inl b ↦ ap (λ k. take k xs) (ground (arith, b, q))
        | inr b ↦
            take_whole n xs (ground (arith, b, q, e))
            ∙ sym (take_whole limit xs (ground (arith, b, q, e)))
      ]

  page_of-items :
      (input : PaginatedInput) (all : List A)
      → (page_of input all).items ≡ take (effective_limit input.limit) (drop input.offset all)
  unfolding page_of
  page_of-items input all = window (effective_limit input.limit) input.offset (length all) all refl

  -- What a client gets from a number of requests, one after the other, each of them at the offset
  -- that the pages before it have reached.
  unfoldable pub read_pages : ℕ → ℤ → ℕ → List A → List A
  read_pages zero limit offset all = []
  read_pages (suc n) limit offset all =
      let p = page_of (record { limit = limit; offset = offset }) all in
      p.items ++ read_pages n limit (offset + length p.items) all

  drop-length-take : (n : ℕ) (xs : List A) → drop (length (take n xs)) xs ≡ drop n xs
  drop-length-take zero xs = refl
  drop-length-take (suc n) [] = refl
  drop-length-take (suc n) (x ∷ xs) = drop-length-take n xs

  read_pages-take :
      (n : ℕ) (limit : ℤ) (offset : ℕ) (all : List A)
      → read_pages n limit offset all ≡ take (n * effective_limit limit) (drop offset all)
  unfolding read_pages
  read_pages-take zero limit offset all = rw (mul.zero (effective_limit limit)) refl
  read_pages-take (suc n) limit offset all =
      let xs = drop offset all in
      let limit' = effective_limit limit in
      rw
        (
          page_of-items (record { limit = limit; offset = offset }) all,
          read_pages-take n limit (offset + length (take limit' xs)) all,
          drop-plus offset (length (take limit' xs)) all,
          drop-length-take limit' xs,
          mul.suc n limit',
          take-plus limit' (n * limit') xs,
        )
        refl

  -- A client that asks for a page, and again from where the page ended, as often as it takes, reads
  -- the list: n pages of the limit that is in force are its first elements, each once and in order.
  pub read_pages-first :
      (n : ℕ) (limit : ℤ) (all : List A)
      → read_pages n limit 0 all ≡ take (n * effective_limit limit) all
  read_pages-first n limit all = read_pages-take n limit 0 all
