-- ===== src/Common/Paths.antt =====
-- `gnu_basename`: the last part of a path. (common_functions.c)
pub mod Basename
mod Tests
use open_tube_engine_old.Base.{ℕ, zero, suc, ◌-◌, List, ◌==◌, if◌then◌else◌, length, get_or, drop}

-- The walk back from the byte at an index, which ends at the first byte and does not look at it.
unfoldable pub walk_back : List ℕ → ℕ → List ℕ
walk_back path zero = path
walk_back path (suc i) =
    let rest = walk_back path i in
    if get_or path (suc i) 0 == b'/' then drop (suc (suc i)) path else rest

unfoldable pub gnu_basename : List ℕ → List ℕ
gnu_basename path = if length path == 0 then path else walk_back path (length path - 1)
