-- ===== src/Code.antt =====
-- The numbers of google.golang.org/grpc/codes, which the comments of `codeToStr` in
-- v2/telemetry.go repeat.
use gax_go.Prelude.{ℕ}

abbrev pub ok : ℕ
ok = 0

abbrev pub canceled : ℕ
canceled = 1

abbrev pub unknown : ℕ
unknown = 2

abbrev pub invalid_argument : ℕ
invalid_argument = 3

abbrev pub deadline_exceeded : ℕ
deadline_exceeded = 4

abbrev pub not_found : ℕ
not_found = 5

abbrev pub already_exists : ℕ
already_exists = 6

abbrev pub permission_denied : ℕ
permission_denied = 7

abbrev pub resource_exhausted : ℕ
resource_exhausted = 8

abbrev pub failed_precondition : ℕ
failed_precondition = 9

abbrev pub aborted : ℕ
aborted = 10

abbrev pub out_of_range : ℕ
out_of_range = 11

abbrev pub unimplemented : ℕ
unimplemented = 12

abbrev pub internal : ℕ
internal = 13

abbrev pub unavailable : ℕ
unavailable = 14

abbrev pub data_loss : ℕ
data_loss = 15

abbrev pub unauthenticated : ℕ
unauthenticated = 16
