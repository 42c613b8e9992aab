-- ===== src/Command/Monitor/Order.antt =====
-- The order that the monitors hand to `std::sort` is one that `std::sort` may be given.
use mini_container.Prelude.{◌≡◌, false, not, ◌&&◌, arith}
use mini_container.Config.{ContainerInfo}
use mini_container.Command.Monitor.{shown_before}

-- The comparison of the monitors is a strict weak order, as `std::sort` asks: no container precedes
-- itself, it is transitive, and where `a` precedes `c`, `a` precedes `b` or `b` precedes `c`.
pub shown_before_order :
    (a b c : ContainerInfo)
    → (shown_before a a ≡ false)
      × ((shown_before a b && (shown_before b c && not (shown_before a c))) ≡ false)
      × ((shown_before a c && (not (shown_before a b) && not (shown_before b c))) ≡ false)
unfolding shown_before
shown_before_order a b c = (ground arith, ground arith, ground arith)
