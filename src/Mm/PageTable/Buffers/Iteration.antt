-- ===== src/Mm/PageTable/Buffers/Iteration.antt =====
-- The iterator over a user buffer gives the bytes of its arrays one after the other.
use rcore_os.Prelude.{
  ℕ, zero, suc, ◌+◌, ◌<◌, ◌≡◌, refl, ap, ◌∙◌, List, [], ◌∷◌, ◌++◌, append_assoc, none, some,
  returns, arith, length, length-append, get_elem?, le→leb, lt→leb_false, ==_of_ne, ==_self, All,
}
use rcore_os.Mm.PageTable.Buffers.{
  Pointer, UserBuffer, UserBufferIterator, into_iter, next, iterate, len,
}
use rcore_os.Mm.PageTable.Buffers.Pages.{concat, IsFull}

get_elem?-append_here {ℓ} :
    {A : Type ℓ} (pre : List A) (x : A) (post : List A)
    → get_elem? (pre ++ (x ∷ post)) (length pre) ≡ some x
get_elem?-append_here [] x post = refl
get_elem?-append_here (y ∷ pre) x post = get_elem?-append_here pre x post

-- The iterator that has passed the arrays `pre`, and `done` of the current one.
abbrev at : UserBuffer → List Pointer → List Pointer → UserBuffer → UserBufferIterator
at pre done more post = record {
  buffers = pre ++ ((done ++ more) ∷ post);
  curr_buf = length pre;
  pos_in_buf = length done;
}

abbrev after : UserBuffer → List Pointer → UserBuffer → UserBufferIterator
after pre b post = record { buffers = pre ++ (b ∷ post); curr_buf = length pre + 1; pos_in_buf = 0 }

next-at_last :
    (pre : UserBuffer) (done : List Pointer) (x : Pointer) (post : UserBuffer)
    → next (at pre done (x ∷ []) post) ≡ returns (some x, after pre (done ++ (x ∷ [])) post)
unfolding next
next-at_last pre done x post =
    let b = done ++ (x ∷ []) in
    rw
      (
        lt→leb_false (length (pre ++ (b ∷ post))) (length pre)
            (omega (arith, length-append pre (b ∷ post))),
        get_elem?-append_here pre b post,
        get_elem?-append_here done x [],
        length-append done (x ∷ []),
        ==_self (length done + 1),
      )
      refl

next-at_more :
    (pre : UserBuffer) (done : List Pointer) (x y : Pointer) (more : List Pointer)
    (post : UserBuffer)
    → next (at pre done (x ∷ y ∷ more) post)
      ≡ returns (some x, at pre (done ++ (x ∷ [])) (y ∷ more) post)
unfolding next
next-at_more pre done x y more post =
    let b = done ++ (x ∷ y ∷ more) in
    rw
      (
        append_assoc done (x ∷ []) (y ∷ more),
        length-append done (x ∷ []),
        lt→leb_false (length (pre ++ (b ∷ post))) (length pre)
            (omega (arith, length-append pre (b ∷ post))),
        get_elem?-append_here pre b post,
        get_elem?-append_here done x (y ∷ more),
        ==_of_ne (length done + 1) (length b)
            (λ e. omega (arith, length-append done (x ∷ y ∷ more))),
      )
      refl

-- Stepping over the end of an array.
after-at :
    (pre : UserBuffer) (b c : List Pointer) (post : UserBuffer)
    → after pre b (c ∷ post) ≡ at (pre ++ (b ∷ [])) [] c post
after-at pre b c post = rw (append_assoc pre (b ∷ []) (c ∷ post), length-append pre (b ∷ [])) refl

next-after_end :
    (pre : UserBuffer) (b : List Pointer) → next (after pre b []) ≡ returns (none, after pre b [])
unfolding next
next-after_end pre b =
    rw
      (le→leb (length (pre ++ (b ∷ []))) (length pre + 1)
        (omega (arith, length-append pre (b ∷ []))))
      refl

iterate-some :
    (fuel : ℕ) (it it' : UserBufferIterator) (x : Pointer) (xs : List Pointer)
    → next it ≡ returns (some x, it')
    → iterate fuel it' ≡ returns xs
    → iterate (suc fuel) it ≡ returns (x ∷ xs)
unfolding iterate
iterate-some fuel it it' x xs e r = rw (e, r) refl

iterate-none :
    (fuel : ℕ) (it it' : UserBufferIterator)
    → next it ≡ returns (none, it')
    → iterate (suc fuel) it ≡ returns []
unfolding iterate
iterate-none fuel it it' e = rw e refl

iterate-at :
    (fuel : ℕ) (pre : UserBuffer) (done : List Pointer) (x : Pointer) (more : List Pointer)
    (post : UserBuffer)
    → length (x ∷ more) + len post < fuel
    → All IsFull post
    → iterate fuel (at pre done (x ∷ more) post) ≡ returns ((x ∷ more) ++ concat post)
unfolding len
iterate-at zero pre done x more post enough full = absurd (omega arith)
iterate-at (suc fuel) pre done x (y ∷ more) post enough full =
    iterate-some fuel (at pre done (x ∷ y ∷ more) post) (at pre (done ++ (x ∷ [])) (y ∷ more) post)
      x ((y ∷ more) ++ concat post) (next-at_more pre done x y more post)
      (iterate-at fuel pre (done ++ (x ∷ [])) y more post (omega arith) full)
iterate-at (suc zero) pre done x [] post enough full = absurd (omega arith)
iterate-at (suc (suc fuel)) pre done x [] [] enough full =
    let b = done ++ (x ∷ []) in
    iterate-some (suc fuel) (at pre done (x ∷ []) []) (after pre b []) x []
      (next-at_last pre done x [])
      (iterate-none fuel (after pre b []) (after pre b []) (next-after_end pre b))
iterate-at (suc fuel) pre done x [] ([] ∷ post) enough full = absurd (omega (arith, full.0))
iterate-at (suc (suc fuel)) pre done x [] ((y ∷ c) ∷ post) enough full =
    let b = done ++ (x ∷ []) in
    iterate-some (suc fuel) (at pre done (x ∷ []) ((y ∷ c) ∷ post)) (after pre b ((y ∷ c) ∷ post)) x
      ((y ∷ c) ++ concat post) (next-at_last pre done x ((y ∷ c) ∷ post))
      (ap (iterate (suc fuel)) (after-at pre b (y ∷ c) post)
        ∙ iterate-at (suc fuel) (pre ++ (b ∷ [])) [] y c post (omega arith) full.1)

next_nil : next (into_iter []) ≡ returns (none, into_iter [])
unfolding next into_iter
next_nil = refl

-- Iterating over a buffer whose arrays are not empty, with more calls than the buffer has bytes,
-- does not panic and gives the bytes of the arrays one after the other.
pub iterate-into_iter :
    (b : UserBuffer) (fuel : ℕ)
    → All IsFull b
    → len b < fuel
    → iterate fuel (into_iter b) ≡ returns (concat b)
unfolding len into_iter
iterate-into_iter b zero full enough = absurd (omega arith)
iterate-into_iter [] (suc fuel) full enough =
    iterate-none fuel (into_iter []) (into_iter []) (next_nil)
iterate-into_iter ([] ∷ post) (suc fuel) full enough = absurd (omega (arith, full.0))
iterate-into_iter ((x ∷ more) ∷ post) (suc fuel) full enough =
    iterate-at (suc fuel) [] [] x more post enough full.1
