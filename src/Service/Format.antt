-- ===== src/Service/Format.antt =====
-- The replies of internal/service/utils.go.
pub mod Reader
use keyp.Base.{Bool, true, false, List, [], ◌∷◌, ◌++◌, length}
use keyp.Bytes.{Bytes, codes}
use keyp.Decimal.{format_uint}

abbrev pub format_bool : Bool → Bytes
format_bool true = codes "1"
format_bool false = codes "0"

abbrev pub crlf : Bytes
crlf = 13 ∷ 10 ∷ []

unfoldable pub format_items : List Bytes → Bytes
format_items [] = []
format_items (x ∷ xs) =
    (b'$' ∷ (format_uint (length x) ++ crlf)) ++ (x ++ (crlf ++ format_items xs))

unfoldable pub format_array : List Bytes → Bytes
unfolding format_items
format_array [] = codes "*0" ++ crlf
format_array (x ∷ xs) = (b'*' ∷ (format_uint (length (x ∷ xs)) ++ crlf)) ++ format_items (x ∷ xs)
