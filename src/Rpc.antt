-- ===== src/Rpc.antt =====
-- server_rpc/server_rpc.c: the procedure of the log server.
use Prim.Native.Char.{code}
use Prim.Native.String.{String}
use ssdd_final.Base.{ℕ, ◌≡◌, ◌≢◌, refl, [], ◌∷◌, ◌++◌, if◌then◌else◌}
use ssdd_final.CString.{Bytes, strcmp_eq}

-- an ASCII literal of the C code
abbrev pub codes : String → Bytes
codes String.[] = []
codes (String.◌∷◌ c s) = code c ∷ codes s

-- `print_1_svc`: what it prints, and `*result`. It always returns TRUE.
unfoldable pub print_1_svc : (username operation date file : Bytes) → Bytes × ℕ
print_1_svc username operation date file =
    if strcmp_eq file []
    then (username ++ b' ' ∷ operation ++ b' ' ∷ date ++ b' ' ∷ file ++ b'\n' ∷ [], 1)
    else (username ++ b' ' ∷ operation ++ b' ' ∷ date ++ b'\n' ∷ [], 0)

-- The log line of an operation on a file does not name the file: two calls that differ in their
-- files alone, neither of them empty, print the same line and give the same result.
pub print_1_svc_ignores_file :
    (username operation date file file' : Bytes)
    → file ≢ []
    → file' ≢ []
    → print_1_svc username operation date file ≡ print_1_svc username operation date file'
unfolding print_1_svc strcmp_eq
print_1_svc_ignores_file u o d [] file' h h' = absurd (h refl)
print_1_svc_ignores_file u o d (c ∷ file) [] h h' = absurd (h' refl)
print_1_svc_ignores_file u o d (c ∷ file) (c' ∷ file') h h' = refl
