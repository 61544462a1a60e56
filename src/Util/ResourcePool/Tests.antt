-- ===== src/Util/ResourcePool/Tests.antt =====
-- A pool of which one object was dropped and one is still lent out.
use ffzkit.Base.{◌≡◌, refl, true, false, [], ◌∷◌, none, some}
use ffzkit.Util.ResourcePool.Conserved.{
  Conserved, obtains, obtains2, releases, closes, Reach, here, next, Reach-Conserved,
}
use ffzkit.Util.ResourcePool.{create, get_ptr, Lease, System, obtain, obtain2, release, close}

abbrev fresh : System
fresh = record { pool = create; alive = true; leases = []; called_back = [] }

abbrev second : Lease
second = record { obj = 1; quit = none; on_recycle = false }

abbrev first : Lease
first = record { obj = 0; quit = some false; on_recycle = true }

abbrev lent : System
lent = obtain2 false (obtain false true fresh)

abbrev dropped : System
dropped = release false lent first (second ∷ [])

lent_leases : lent.leases ≡ second ∷ first ∷ []
unfolding obtain obtain2 create get_ptr
lent_leases = refl

dropped_pool :
    dropped.pool ≡ record { pool_size = 8; free_list = 0 ∷ []; allocated = 2; deleted = [] }
unfolding obtain obtain2 create get_ptr release
dropped_pool = refl

dropped-Reach : Reach dropped
dropped-Reach =
    next (next (next here (obtains false true refl)) (obtains2 false obtained))
      (releases false (second ∷ []) first [] lent_leases)
  where
    obtained : (obtain false true fresh).alive ≡ true
    obtained = unfold obtain in refl

closed-Reach : Reach (release true (close dropped) second [])
closed-Reach = next (next dropped-Reach closes) (releases true [] second [] left)
  where
    left : (close dropped).leases ≡ second ∷ []
    left = unfold close release obtain obtain2 in refl

Reach-Conserved_example : Conserved dropped
Reach-Conserved_example = Reach-Conserved dropped-Reach
