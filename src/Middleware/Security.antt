-- ===== src/Middleware/Security.antt =====
-- `SecurityHeaders` of internal/middleware/security.go.
use feature_voting_system.Prelude.{List, [], ◌∷◌, ◌++◌, map, Bytes, codes}
use feature_voting_system.Http.Writer.{Handler, header_set}

abbrev pub security : List (Bytes × Bytes)
security =
    (codes "X-Content-Type-Options", codes "nosniff")
    ∷ (codes "X-Frame-Options", codes "DENY")
    ∷ (codes "X-XSS-Protection", codes "1; mode=block")
    ∷ (codes "Referrer-Policy", codes "strict-origin-when-cross-origin")
    ∷ (codes "Content-Security-Policy", codes "default-src 'none'")
    ∷ []

unfoldable pub security_headers : {S : Type 0} → Handler S → Handler S
security_headers next r s =
    let (t, s') = next r s in (record t { writes = map header_set security ++ t.writes }, s')
