-- ===== src/Util/ResourcePool/Conserved.antt =====
-- Every object is in one place.
use mathlib.Core.List.{Perm, append_assoc, append-nil, perm_middle}
use mathlib.Core.List.Perm
use ffzkit.Base.{
  ℕ, zero, suc, ◌≡◌, refl, inl, inr, ap, Bool, true, false, not, ◌&&◌, List, [], ◌∷◌, ◌++◌, map,
  ltb, length, arith, Bool-cases,
}
use ffzkit.Util.ResourcePool.{
  Pool, create, set_size, alloc, delete, pop_back, get_ptr, recycle, destroy, Lease, System, obtain,
  obtain2, set_quit, has_quit, release, close,
}

-- The objects that `alloc_` has made.
abbrev pub made : ℕ → List ℕ
made zero = []
made (suc n) = n ∷ made n

abbrev pub objects : List Lease → List ℕ
objects = map λ l. l.obj

-- What is lent out, what is free, and what was deleted.
abbrev held : Pool → List ℕ → List ℕ
held p lent = (lent ++ p.free_list) ++ p.deleted

abbrev pub Conserved : System → Type 0
Conserved s = Perm (made s.pool.allocated) (held s.pool (objects s.leases))

alloc-perm :
    (p : Pool) (lent : List ℕ)
    → Perm (made p.allocated) (held p lent)
    → Perm (made (alloc p).1.allocated) (held (alloc p).1 ((alloc p).0 ∷ lent))
unfolding alloc
alloc-perm p lent h = Perm.cons p.allocated h

pop_back-perm :
    (p : Pool) (free lent : List ℕ)
    → p.free_list ≡ free
    → Perm (made p.allocated) (held p lent)
    → Perm
        (made (pop_back p free).1.allocated)
        (held (pop_back p free).1 ((pop_back p free).0 ∷ lent))
unfolding pop_back
pop_back-perm p [] lent e h = alloc-perm p lent h
pop_back-perm p (obj ∷ rest) lent e h =
    Perm.trans (rw e at h) (Perm.append (perm_middle lent rest) (Perm.refl p.deleted))

get_ptr-perm :
    (busy : Bool) (p : Pool) (lent : List ℕ)
    → Perm (made p.allocated) (held p lent)
    → Perm (made (get_ptr busy p).1.allocated) (held (get_ptr busy p).1 ((get_ptr busy p).0 ∷ lent))
unfolding get_ptr
get_ptr-perm true p lent h = alloc-perm p lent h
get_ptr-perm false p lent h = pop_back-perm p p.free_list lent refl h

delete-perm :
    (p : Pool) (obj : ℕ) (lent : List ℕ)
    → Perm (made p.allocated) (held p (obj ∷ lent))
    → Perm (made (delete p obj).allocated) (held (delete p obj) lent)
unfolding delete
delete-perm p obj lent h = Perm.trans h (Perm.symm (perm_middle (lent ++ p.free_list) p.deleted))

recycle-perm :
    (busy : Bool) (p : Pool) (obj : ℕ) (lent : List ℕ)
    → Perm (made p.allocated) (held p (obj ∷ lent))
    → Perm (made (recycle busy p obj).allocated) (held (recycle busy p obj) lent)
unfolding recycle
recycle-perm true p obj lent h = delete-perm p obj lent h
recycle-perm false p obj lent h = elim (Bool-cases (ltb (length p.free_list) p.pool_size)) [
  | inl room ↦
      rw room (
        Perm.trans h (Perm.append (Perm.symm (perm_middle lent p.free_list)) (Perm.refl p.deleted)))
  | inr full ↦ rw full (delete-perm p obj lent h)
]

release-Conserved :
    (busy : Bool) (s : System) (l : Lease) (rest : List Lease)
    → Perm (objects s.leases) (l.obj ∷ objects rest)
    → Conserved s
    → Conserved (release busy s l rest)
unfolding release
release-Conserved busy s l rest out h =
    let h' : Perm (made s.pool.allocated) (held s.pool (l.obj ∷ objects rest)) =
      Perm.trans h
        (Perm.append (Perm.append out (Perm.refl s.pool.free_list)) (Perm.refl s.pool.deleted)) in
    elim (Bool-cases (s.alive && not (has_quit l))) [
      | inl e ↦ rw e (recycle-perm busy s.pool l.obj (objects rest) h')
      | inr e ↦ rw e (delete-perm s.pool l.obj (objects rest) h')
    ]

close-Conserved : (s : System) → Conserved s → Conserved (close s)
unfolding close
close-Conserved s h = elim (Bool-cases s.alive) [
  | inl e ↦ rw e (simp append-nil (simp append_assoc at h))
  | inr e ↦ rw e h
]

-- Calls of any threads, in any order.
pub data Step (s : System) : System → Type 0 where
  sets_size : (n : ℕ) → s.alive ≡ true → Step s (record s { pool = set_size s.pool n })
  obtains : (busy on_recycle : Bool) → s.alive ≡ true → Step s (obtain busy on_recycle s)
  obtains2 : (busy : Bool) → s.alive ≡ true → Step s (obtain2 busy s)
  quits :
      (flag : Bool) (before : List Lease) (l : Lease) (after : List Lease)
      → s.leases ≡ before ++ l ∷ after
      → Step s (record s { leases = before ++ set_quit flag l ∷ after })
  releases :
      (busy : Bool) (before : List Lease) (l : Lease) (after : List Lease)
      → s.leases ≡ before ++ l ∷ after
      → Step s (release busy s l (before ++ after))
  closes : Step s (close s)

pub data Reach : System → Type 0 where
  here : Reach (record { pool = create; alive = true; leases = []; called_back = [] })
  next : {s s' : System} → Reach s → Step s s' → Reach s'

objects-middle :
    (before : List Lease) (l : Lease) (after : List Lease)
    → Perm (objects (before ++ l ∷ after)) (l.obj ∷ objects (before ++ after))
objects-middle before l after = Perm.map (λ l. l.obj) (perm_middle before after)

objects-set_quit :
    (flag : Bool) (before : List Lease) (l : Lease) (after : List Lease)
    → objects (before ++ set_quit flag l ∷ after) ≡ objects (before ++ l ∷ after)
unfolding set_quit
objects-set_quit flag [] l after = refl
objects-set_quit flag (b ∷ bs) l after = ap (◌∷◌ b.obj) (objects-set_quit flag bs l after)

Step-Conserved : {s s' : System} → Step s s' → Conserved s → Conserved s'
unfolding obtain obtain2 set_size
Step-Conserved (sets_size n a) h = h
Step-Conserved {s} (obtains busy cb a) h = get_ptr-perm busy s.pool (objects s.leases) h
Step-Conserved {s} (obtains2 busy a) h = get_ptr-perm busy s.pool (objects s.leases) h
Step-Conserved {s} (quits flag before l after e) h =
    rw (objects-set_quit flag before l after) (rw e at h)
Step-Conserved {s} (releases busy before l after e) h =
    release-Conserved busy s l (before ++ after) (rw e (objects-middle before l after)) h
Step-Conserved {s} closes h = close-Conserved s h

-- In every state that the calls reach, each object that was ever made is in exactly one place, and
-- there once: lent out, in the free list, or deleted.
pub Reach-Conserved : {s : System} → Reach s → Conserved s
unfolding create
Reach-Conserved here = Perm.refl []
Reach-Conserved (next r st) = Step-Conserved st (Reach-Conserved r)

-- Once the pool is gone no object is free, whatever was lent out comes back or not.
pub record IsClosed (s : System) : Type 0 where
  pub gone : s.alive ≡ false → s.pool.free_list ≡ []

release-IsClosed :
    (busy : Bool) (s : System) (l : Lease) (rest : List Lease)
    → IsClosed s
    → IsClosed (release busy s l rest)
unfolding release delete
release-IsClosed busy s l rest v = record { gone = λ e. rw e (v.gone e) }

Step-IsClosed : {s s' : System} → Step s s' → IsClosed s → IsClosed s'
unfolding obtain obtain2 set_size close destroy
Step-IsClosed (sets_size n a) v = record { gone = λ e. cc }
Step-IsClosed (obtains busy cb a) v = record { gone = λ e. cc }
Step-IsClosed (obtains2 busy a) v = record { gone = λ e. cc }
Step-IsClosed (quits flag before l after e) v = record { gone = v.gone }
Step-IsClosed {s} (releases busy before l after e) v = release-IsClosed busy s l (before ++ after) v
Step-IsClosed {s} closes v = record { gone = λ e. ground (arith, v.gone) }

Reach-IsClosed : {s : System} → Reach s → IsClosed s
Reach-IsClosed here = record { gone = λ e. cc }
Reach-IsClosed (next r st) = Step-IsClosed st (Reach-IsClosed r)

-- When the pool is gone and the last pointer has been dropped, every object that was ever made
-- has been deleted exactly once.
pub Reach_no_leak :
    {s : System}
    → Reach s
    → s.alive ≡ false
    → s.leases ≡ []
    → Perm (made s.pool.allocated) s.pool.deleted
Reach_no_leak {s} r a e =
    let free = (Reach-IsClosed r).gone a in rw (e, free) at (Reach-Conserved r)
