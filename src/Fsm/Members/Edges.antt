-- ===== src/Fsm/Members/Edges.antt =====
-- What each operation on the membership edges does to the edge from `k` to `x`.
use dagger_kubernetes.Prelude.{
  true, false, not, ◌&&◌, ◌||◌, ◌≡◌, refl, List, [], ◌∷◌, String, str_eq, eq_iff, arith, ◌==◌,
  if◌then◌else◌,
}
use dagger_kubernetes.Maps.{
  Map, empty, put, remove, size, keys, has, elem, get-empty, get-put, get-remove, elem-keys,
  get_of_size-zero,
}
use dagger_kubernetes.Fsm.State.{StringSet}
use dagger_kubernetes.Fsm.Members.{set_at, has_edge, drop_edge, drop_edges, add_edge, to_set}

has-put : (set : StringSet) (x y : String) → has (put set x tt) y ≡ (str_eq x y || has set y)
has-put set x y = ground (arith, get-put set x y tt)

has-remove :
    (set : StringSet) (x y : String) → has (remove set x) y ≡ (not (str_eq x y) && has set y)
has-remove set x y = ground (arith, get-remove set x y)

has_of_size-zero : (set : StringSet) (x : String) → (size set == 0) ≡ true → has set x ≡ false
has_of_size-zero set x h = ground (arith, get_of_size-zero set x h)

module _ (m : Map StringSet) where
  set_at-put :
      (k j : String) (set : StringSet)
      → set_at (put m k set) j ≡ (if str_eq k j then set else set_at m j)
  unfolding set_at
  set_at-put k j set = ground (arith, get-put m k j set)

  set_at-remove :
      (k j : String) → set_at (remove m k) j ≡ (if str_eq k j then empty else set_at m j)
  unfolding set_at
  set_at-remove k j = ground (arith, get-remove m k j)

  pub has_edge-remove :
      (k j x : String) → has_edge (remove m k) j x ≡ (not (str_eq k j) && has_edge m j x)
  unfolding has_edge
  has_edge-remove k j x = ground (arith, set_at-remove k j, get-empty {V = Unit {0}} x)

  pub has_edge-put :
      (k j x : String) (set : StringSet)
      → has_edge (put m k set) j x ≡ (if str_eq k j then has set x else has_edge m j x)
  unfolding has_edge
  has_edge-put k j x set = ground (arith, set_at-put k j set)

  pub has_edge-drop_edge :
      (k x j y : String)
      → has_edge (drop_edge m k x) j y ≡ (not (str_eq k j && str_eq x y) && has_edge m j y)
  unfolding drop_edge has_edge
  has_edge-drop_edge k x j y = ground (
    arith,
    set_at-put k j (remove (set_at m k) x),
    set_at-remove k j,
    has-remove (set_at m k) x y,
    has_of_size-zero (remove (set_at m k) x) y,
    get-empty {V = Unit {0}} y,
    eq_iff k j,
  )

  pub has_edge-add_edge :
      (k x j y : String)
      → has_edge (add_edge m k x) j y ≡ ((str_eq k j && str_eq x y) || has_edge m j y)
  unfolding add_edge has_edge
  has_edge-add_edge k x j y =
      ground (arith, set_at-put k j (put (set_at m k) x tt), has-put (set_at m k) x y, eq_iff k j)

pub has_edge-drop_edges :
    (ks : List String) (x : String) (m : Map StringSet) (j y : String)
    → has_edge (drop_edges ks x m) j y ≡ (not (elem j ks && str_eq x y) && has_edge m j y)
unfolding drop_edges
has_edge-drop_edges [] x m j y = refl
has_edge-drop_edges (k ∷ ks) x m j y =
    ground (arith, has_edge-drop_edges ks x (drop_edge m k x) j y, has_edge-drop_edge m k x j y)

pub has-to_set :
    (ids : List String) (set : StringSet) (x : String)
    → has (to_set ids set) x ≡ (elem x ids || has set x)
unfolding to_set
has-to_set [] set x = refl
has-to_set (i ∷ ids) set x = ground (arith, has-to_set ids (put set i tt) x, has-put set i x)

-- the keys of the set at `k` are the ends of its edges
pub elem-keys-set_at :
    (m : Map StringSet) (k x : String) → elem x (keys (set_at m k)) ≡ has_edge m k x
unfolding has_edge
elem-keys-set_at m k x = elem-keys (set_at m k) x
