-- ===== src/Ktl/Pair.antt =====
-- `ktl::pair` of kernel/Source/ktl/pair over types with the operators `==` and `<`.
pub mod Order
use yerp.Prelude.{Bool, not, ◌&&◌, ◌||◌}

pub record Pair (A B : Type 0) : Type 0 where
  pub pair_first : A
  pub pair_second : B

-- The operators of the two types are parameters.
module _ {A B : Type 0} (eq1 : A → A → Bool) (eq2 : B → B → Bool) where
  unfoldable pub pair_eq : Pair A B → Pair A B → Bool
  pair_eq a b = eq1 a.pair_first b.pair_first && eq2 a.pair_second b.pair_second

module _ {A B : Type 0} (lt1 : A → A → Bool) (lt2 : B → B → Bool) where
  unfoldable pub pair_lt : Pair A B → Pair A B → Bool
  pair_lt a b =
      lt1 a.pair_first b.pair_first
      || (not (lt1 b.pair_first a.pair_first) && lt2 a.pair_second b.pair_second)

  unfoldable pub pair_le : Pair A B → Pair A B → Bool
  unfolding pair_lt
  pair_le a b = not (pair_lt b a)

-- `swap` exchanges both members.
unfoldable pub swap_pairs : {A B : Type 0} → Pair A B → Pair A B → Pair A B × Pair A B
swap_pairs a b = (
  record { pair_first = b.pair_first; pair_second = b.pair_second },
  record { pair_first = a.pair_first; pair_second = a.pair_second },
)
