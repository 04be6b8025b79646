-- ===== src/Placing.antt =====
-- `handle_new` of the four strategies (src/engine/strategies): the order objects of a command
-- are made, the leading one is matched if it crosses, and what is left is placed.
mod Start
mod Single
mod Oco
mod Oto
mod Otoco
unfoldable pub use Start.*
unfoldable pub use Single.*
unfoldable pub use Oco.*
unfoldable pub use Oto.*
unfoldable pub use Otoco.*
