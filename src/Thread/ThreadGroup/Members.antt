-- ===== src/Thread/ThreadGroup/Members.antt =====
-- Which threads are in a group of src/Thread/ThreadGroup.h.
use ffzkit.Base.{
  ℕ, ◌≡◌, ◌≢◌, refl, ◌∙◌, true, false, none, some, ◌==◌, lookup, is_some, IsDistinct,
  lookup-erase_same, lookup-erase_other, erase-IsDistinct, arith,
}
use ffzkit.Thread.ThreadGroup.{
  Group, is_this_thread_in, is_thread_in, assign, create_thread, remove_thread,
}

module _ {ℓ} {V : Type ℓ} where
  create_thread-IsDistinct :
      (id : ℕ) (v : V) (g : Group V)
      → IsDistinct g.threads
      → IsDistinct (create_thread id v g).threads
  unfolding create_thread assign
  create_thread-IsDistinct id v g d =
      (lookup-erase_same id g.threads d, erase-IsDistinct id g.threads d)

  -- A thread that was created is in the group, with the std::thread that was made for it, and no
  -- thread is twice in it. Once it is removed it is in the map no more. The other threads are in
  -- the map as they were before, both times.
  pub create-remove :
      (id : ℕ) (v : V) (g : Group V)
      → IsDistinct g.threads
      → let made = create_thread id v g in
        let gone = remove_thread (some (some id)) made in
        IsDistinct made.threads
        × (lookup id made.threads ≡ some v)
        × (is_this_thread_in id made ≡ true)
        × (is_thread_in (some (some id)) gone ≡ false)
        × ((j : ℕ)
            → j ≢ id
            → (lookup j made.threads ≡ lookup j g.threads)
              × (lookup j gone.threads ≡ lookup j g.threads))
  unfolding create_thread assign remove_thread is_this_thread_in is_thread_in lookup is_some
  create-remove id v g d =
      let same : (id == id) ≡ true = ground arith in
      let made = create_thread id v g in
      let d' = create_thread-IsDistinct id v g d in
      (
        d',
        rw same refl,
        rw same refl,
        rw (lookup-erase_same id made.threads d') refl,
        λ j ne.
            let differs : (j == id) ≡ false = ground arith in
            let back : (id == j) ≡ false = ground arith in
            let other = lookup-erase_other j id g.threads differs in
            (rw back other, lookup-erase_other j id made.threads differs ∙ rw back other),
      )

  -- The group keeps the identifier of the thread that was created last: it is still taken for a
  -- member when it has been removed.
  pub remove_thread_stale :
      (id : ℕ) (v : V) (g : Group V)
      → IsDistinct g.threads
      → let gone = remove_thread (some (some id)) (create_thread id v g) in
        (is_this_thread_in id gone ≡ true) × (lookup id gone.threads ≡ none)
  unfolding create_thread remove_thread is_this_thread_in
  remove_thread_stale id v g d =
      let same : (id == id) ≡ true = ground arith in
      (
        rw same refl,
        lookup-erase_same id (create_thread id v g).threads (create_thread-IsDistinct id v g d),
      )
