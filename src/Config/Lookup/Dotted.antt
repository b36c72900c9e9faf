-- ===== src/Config/Lookup/Dotted.antt =====
-- A path of names with dots between them falls into the names. (config_parser.c)
use open_tube_engine_old.Base.{ℕ, ◌≡◌, refl, ap, ◌∙◌, false, List, [], ◌∷◌, ◌++◌, ◌==◌, arith}
use open_tube_engine_old.Http.Chars.{Bytes}
use open_tube_engine_old.Http.Headers.Scans.{All, is_not}
use open_tube_engine_old.Config.Lookup.{segments}

-- Names with dots between them.
abbrev pub dotted : Bytes → List Bytes → Bytes
dotted name [] = name
dotted name (m ∷ more) = name ++ b'.' ∷ dotted m more

-- A name with no dot, and not empty.
pub record IsSegment (name : Bytes) : Type 0 where
  pub first : ℕ
  pub more : Bytes
  pub not_empty : name ≡ first ∷ more
  pub no_dot : All (is_not b'.') name

abbrev pub AreSegments : Bytes → List Bytes → Type 0
AreSegments name [] = IsSegment name
AreSegments name (m ∷ more) = IsSegment name × AreSegments m more

segments-append :
    (name s : Bytes) → All (is_not b'.') name → segments (name ++ b'.' ∷ s) ≡ name ∷ segments s
unfolding segments
segments-append [] s h = refl
segments-append (c ∷ name) s h =
    let no_dot : (c == b'.') ≡ false = ground (arith, h.0) in
    rw (no_dot, segments-append name s h.1) refl

segments_last : (name : Bytes) → All (is_not b'.') name → segments name ≡ name ∷ []
unfolding segments
segments_last [] h = refl
segments_last (c ∷ name) h =
    let no_dot : (c == b'.') ≡ false = ground (arith, h.0) in
    rw (no_dot, segments_last name h.1) refl

pub segments-dotted :
    (name : Bytes) (more : List Bytes)
    → AreSegments name more
    → segments (dotted name more) ≡ name ∷ more
segments-dotted name [] h = segments_last name h.no_dot
segments-dotted name (m ∷ more) h =
    segments-append name (dotted m more) h.0.no_dot ∙ ap (◌∷◌ name) (segments-dotted m more h.1)
