-- ===== src/Util/ResourcePool/Limits.antt =====
-- What is kept for reuse, and how much of it.
use ffzkit.Base.{
  ℕ, ◌≤◌, ◌<◌, ◌≡◌, refl, ◌⊎◌, inl, inr, Bool, true, false, not, ◌&&◌, List, [], ◌∷◌, ◌++◌, ltb,
  if◌then◌else◌, length, arith, Bool-cases, lt→ltb,
}
use ffzkit.Util.ResourcePool.{
  Pool, alloc, delete, pop_back, get_ptr, recycle, destroy, set_size, Lease, System, obtain,
  obtain2, has_quit, release, close,
}
use ffzkit.Util.ResourcePool.Conserved.{Step, sets_size, obtains, obtains2, quits, releases, closes}

-- The free list has not grown, or it is within the size.
abbrev pub IsLimited : Pool → Pool → Type 0
IsLimited p p' = (length p'.free_list ≤ length p.free_list) ⊎ (length p'.free_list ≤ p'.pool_size)

pop_back-IsLimited :
    (p : Pool) (free : List ℕ) → p.free_list ≡ free → IsLimited p (pop_back p free).1
unfolding pop_back alloc
pop_back-IsLimited p [] e = inl (omega arith)
pop_back-IsLimited p (x ∷ rest) e = inl (rw e (omega arith))

get_ptr-IsLimited : (busy : Bool) (p : Pool) → IsLimited p (get_ptr busy p).1
unfolding get_ptr alloc
get_ptr-IsLimited true p = inl (omega arith)
get_ptr-IsLimited false p = pop_back-IsLimited p p.free_list refl

recycle-IsLimited : (busy : Bool) (p : Pool) (obj : ℕ) → IsLimited p (recycle busy p obj)
unfolding recycle delete
recycle-IsLimited busy p obj = ground arith

release-IsLimited :
    (busy : Bool) (s : System) (l : Lease) (rest : List Lease)
    → IsLimited s.pool (release busy s l rest).pool
unfolding release delete
release-IsLimited busy s l rest = elim (Bool-cases (s.alive && not (has_quit l))) [
  | inl e ↦ rw e (recycle-IsLimited busy s.pool l.obj)
  | inr e ↦ rw e (inl (omega arith))
]

close-IsLimited : (s : System) → IsLimited s.pool (close s).pool
unfolding close destroy
close-IsLimited s = elim (Bool-cases s.alive) [
  | inl e ↦ rw e (inl (omega arith))
  | inr e ↦ rw e (inl (omega arith))
]

-- No call makes the free list longer than the pool's size: behind each call the list is no longer
-- than before, or it is within the size.
pub Step-IsLimited : {s s' : System} → Step s s' → IsLimited s.pool s'.pool
unfolding obtain obtain2 set_size
Step-IsLimited (sets_size n a) = inl (omega arith)
Step-IsLimited {s} (obtains busy cb a) = get_ptr-IsLimited busy s.pool
Step-IsLimited {s} (obtains2 busy a) = get_ptr-IsLimited busy s.pool
Step-IsLimited (quits flag before l after e) = inl (omega arith)
Step-IsLimited {s} (releases busy before l after e) = release-IsLimited busy s l (before ++ after)
Step-IsLimited {s} closes = close-IsLimited s

-- An object that the free list has room for is the next one handed out, and the pool is then as
-- before, if no other thread is inside during the two calls.
pub get_ptr-recycle :
    (p : Pool) (obj : ℕ)
    → length p.free_list < p.pool_size
    → get_ptr false (recycle false p obj) ≡ (obj, p)
unfolding get_ptr recycle pop_back
get_ptr-recycle p obj h = rw (lt→ltb _ _ h)

-- A dropped pointer calls its callback once if it has one. Its object goes to the free list exactly
-- if the pool is there, `quit` was not called, no other thread is inside, and there is room;
-- else it is deleted.
pub release_outcome :
    (busy : Bool) (s : System) (l : Lease) (rest : List Lease)
    → let s' = release busy s l rest in
      let kept =
        s.alive && not (has_quit l) && not busy && ltb (length s.pool.free_list) s.pool.pool_size in
      (s'.called_back ≡ (if l.on_recycle then l.obj ∷ s.called_back else s.called_back))
      × (s'.pool.free_list ≡ (if kept then l.obj ∷ s.pool.free_list else s.pool.free_list))
      × (s'.pool.deleted ≡ (if kept then s.pool.deleted else l.obj ∷ s.pool.deleted))
unfolding release recycle delete
release_outcome busy s l rest = ground arith
