-- ===== src/Order/Lifecycle/Sweeps/Due.antt =====
-- The sweep over suspended orders terminates the due ones.
use webrana_cloud.Base.{
  filter_where, some_where, ◌≡◌, refl, Bool, true, false, List, [], ◌∷◌, arith,
}
use webrana_cloud.Order.Records.{Order, has_id}
use webrana_cloud.Order.Lifecycle.Sweeps.Grace.{distinct}

some_where-filter_where :
    (p q : Order → Bool) (os : List Order)
    → some_where p os ≡ false
    → some_where p (filter_where q os) ≡ false
some_where-filter_where p q [] h = refl
some_where-filter_where p q (o ∷ os) h =
    ground (arith, h, some_where-filter_where p q os (ground (arith, h)))

pub distinct-filter_where :
    (q : Order → Bool) (os : List Order) → distinct os ≡ true → distinct (filter_where q os) ≡ true
distinct-filter_where q [] d = refl
distinct-filter_where q (o ∷ os) d = ground (
  arith,
  d,
  some_where-filter_where (has_id o.id) q os (ground (arith, d)),
  distinct-filter_where q os (ground (arith, d)),
)
