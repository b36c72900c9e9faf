-- ===== src/Common/Paths/Tests.antt =====
-- `gnu_basename` at concrete paths. (common_functions.c)
use open_tube_engine_old.Base.{◌≡◌, refl, [], ◌∷◌}
use open_tube_engine_old.Common.Paths.{walk_back, gnu_basename}
use open_tube_engine_old.Common.Paths.Basename.{gnu_basename-name, gnu_basename-plain}

-- `/a/bc`
gnu_basename-name_example : gnu_basename (b'/' ∷ b'a' ∷ b'/' ∷ b'b' ∷ b'c' ∷ []) ≡ b'b' ∷ b'c' ∷ []
gnu_basename-name_example = gnu_basename-name b'/' (b'a' ∷ []) (b'b' ∷ b'c' ∷ []) (refl, (refl, tt))

-- `/bc`
gnu_basename-plain_example : gnu_basename (b'/' ∷ b'b' ∷ b'c' ∷ []) ≡ b'/' ∷ b'b' ∷ b'c' ∷ []
gnu_basename-plain_example = gnu_basename-plain b'/' (b'b' ∷ b'c' ∷ []) (refl, (refl, tt))

trailing_slash : gnu_basename (b'a' ∷ b'/' ∷ []) ≡ []
unfolding gnu_basename walk_back
trailing_slash = refl
