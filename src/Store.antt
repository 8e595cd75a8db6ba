-- ===== src/Store.antt =====
-- internal/store: persistence of points, one ordered sequence of members per device.
pub mod Page
pub mod Mem
pub mod Redis
use the_500mb_club_challenge.Cursor

-- The errors of a store: `cursor.ErrInvalid`, `model.ErrInvalidPoint`, `context.DeadlineExceeded`,
-- and any other failure of the backend.
pub data Error : Type 0 where
  cursor : Cursor.Error → Error
  point : Error
  deadline : Error
  backend : Error
