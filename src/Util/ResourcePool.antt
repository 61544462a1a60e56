-- ===== src/Util/ResourcePool.antt =====
-- src/Util/ResourcePool.h. An object is the number of its allocation. `busy` is what
-- `busy_.test_and_set()` returned, true if another thread is inside; the part behind it is atomic.
mod Tests
pub mod Conserved
pub mod Limits
use ffzkit.Base.{
  ℕ, zero, suc, ◌+◌, Bool, true, false, not, ◌&&◌, List, [], ◌∷◌, ◌++◌, Option, none, some, ltb,
  if◌then◌else◌, length,
}

-- ResourcePool_I, and what the calls have done to the heap: the number of objects that `alloc_`
-- has made, and those deleted. The head of `free_list` is the back of the vector.
pub record Pool : Type 0 where
  pub pool_size : ℕ
  pub free_list : List ℕ
  pub allocated : ℕ
  pub deleted : List ℕ

pub create : Pool
create = record { pool_size = 8; free_list = []; allocated = 0; deleted = [] }

pub set_size : Pool → ℕ → Pool
set_size p size = record p { pool_size = size }

pub alloc : Pool → ℕ × Pool
alloc p = (p.allocated, record p { allocated = suc p.allocated })

pub delete : Pool → ℕ → Pool
delete p obj = record p { deleted = obj ∷ p.deleted }

pop_back : Pool → List ℕ → ℕ × Pool
unfolding alloc
pop_back p [] = alloc p
pop_back p (obj ∷ rest) = (obj, record p { free_list = rest })

pub get_ptr : Bool → Pool → ℕ × Pool
unfolding alloc pop_back
get_ptr busy p = if busy then alloc p else pop_back p p.free_list

pub recycle : Bool → Pool → ℕ → Pool
unfolding delete
recycle busy p obj =
    if busy
    then delete p obj
    else if ltb (length p.free_list) p.pool_size
    then record p { free_list = obj ∷ p.free_list }
    else delete p obj

-- `~ResourcePool_I`.
pub destroy : Pool → Pool
destroy p = record p { free_list = []; deleted = p.free_list ++ p.deleted }

-- A shared pointer that is out: `quit_` is there for `obtain` only, and `obtain` may be given a
-- callback.
pub record Lease : Type 0 where
  pub obj : ℕ
  pub quit : Option Bool
  pub on_recycle : Bool

-- `alive` says whether the pool can still be locked through its weak pointer.
pub record System : Type 0 where
  pub pool : Pool
  pub alive : Bool
  pub leases : List Lease
  pub called_back : List ℕ

pub obtain : Bool → Bool → System → System
unfolding get_ptr
obtain busy on_recycle s =
    let (obj, p) = get_ptr busy s.pool in
    record s {
      pool = p;
      leases = record { obj = obj; quit = some false; on_recycle = on_recycle } ∷ s.leases;
    }

pub obtain2 : Bool → System → System
unfolding get_ptr
obtain2 busy s =
    let (obj, p) = get_ptr busy s.pool in
    record s { pool = p; leases = record { obj = obj; quit = none; on_recycle = false } ∷ s.leases }

-- `shared_ptr_imp::quit`; a null `quit_` stays null.
pub set_quit : Bool → Lease → Lease
set_quit flag l = record l { quit = elim l.quit [ none ↦ none | some _ ↦ some flag ] }

pub has_quit : Lease → Bool
has_quit l = elim l.quit [ none ↦ false | some flag ↦ flag ]

-- The deleter of the last copy of a pointer, which is no longer among the leases.
pub release : Bool → System → Lease → List Lease → System
unfolding recycle delete has_quit
release busy s l rest = record s {
  pool = if s.alive && not (has_quit l) then recycle busy s.pool l.obj else delete s.pool l.obj;
  leases = rest;
  called_back = if l.on_recycle then l.obj ∷ s.called_back else s.called_back;
}

-- `~ResourcePool` of a pool that no call is inside of.
pub close : System → System
unfolding destroy
close s = if s.alive then record s { pool = destroy s.pool; alive = false } else s
