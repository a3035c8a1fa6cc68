-- ===== src/Redis.antt =====
-- The Redis server, which is not part of this repository: a parameter of every component that uses
-- it. `Redis` has the commands that app/ sends and, as laws, what their documentation says of them.
--
-- A value is kept with the Python type that it was written with: what is encoded on the way in is
-- decoded to the same value on the way out. A member of a sorted set is the text of its own score,
-- as `zadd(key, {str(now): now})` writes it, so a set is an ascending list of times.
-- The server's clock moves by `elapse` only, and is what makes keys expire.
pub mod Cells
pub mod Keys
pub mod Memory
pub use Cells.*
pub use Keys.*
