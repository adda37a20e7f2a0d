-- ===== src/Tests/Headers.antt =====
-- Versions and the x-goog-api-client header.
use gax_go.Prelude.{◌≡◌, refl, [], ◌∷◌, some}
use native.Mathlib.Omega.{arith}
use gax_go.Prelude.Text.{Text, codes, is_space, strip_prefix, before}
use gax_go.Header.{x_goog_header}
use gax_go.Header.RoundTrip.{read_header, read_header-x_goog_header}
use gax_go.Header.Version.{go_version}

abbrev devel : Text
devel = codes "devel +8f48efb Mon Jan"

devel_run : go_version devel ≡ codes "8f48efb"
unfolding go_version strip_prefix before is_space
devel_run = refl

read_header-x_goog_header_example :
    (h : Text) × (x_goog_header (codes "gl-go" ∷ codes "1.21.0" ∷ codes "gax" ∷ codes "a/b" ∷ [])
      ≡ some h)
    × (read_header h ≡ codes "gl-go" ∷ codes "1.21.0" ∷ codes "gax" ∷ codes "a/b" ∷ [])
read_header-x_goog_header_example =
    read_header-x_goog_header (codes "gl-go") (codes "1.21.0") (codes "gax" ∷ codes "a/b" ∷ [])
      (omega arith)
